-- ===== src/Protocol/Reply/Kept.antt =====
-- What `parse` of my_rtsp_client/cRTSPprotocol.cpp leaves of the earlier replies: only the reply to DESCRIBE
-- writes the media sessions, and only the reply to SETUP writes the session's name and port.
use canok_rtsp_client.Base.{
  ℕ, zero, suc, ◌==◌, ltb, ◌≡◌, refl, ◌∙◌, subst, if◌then◌else◌, Bool, true, false, Option, none,
  some, Bytes, [], length, take,
}
use canok_rtsp_client.Base.Int.{ℤ}
use canok_rtsp_client.Base.Outcome.{M, done, ◌>>=◌, ◌>>◌, pure, modify, or_fault}
use canok_rtsp_client.Base.Returns.{Leaves, Runs, Runs-bind}
use canok_rtsp_client.Macros.{ret_sucess, ret_err}
use canok_rtsp_client.Text.{c_string, scan_until}
use canok_rtsp_client.Protocol.{
  ReplyInfo, MediaSession, SetupInfo, RequestType, request_setup, request_play,
}
use canok_rtsp_client.Protocol.Lines.{parse_response_code}
use canok_rtsp_client.Protocol.Sdp.{parse_sdp}
use canok_rtsp_client.Protocol.Transport.{TransportParams, parse_transport_params}
use canok_rtsp_client.Protocol.Reply.{
  Headers, bad_cseq, ended, first_line, header_lines, enough, set_media, set_setup, no_media,
  no_setup, describe_reply, store_session, session_reply, with_params, setup_reply, special_reply,
  conclude, with_code, parse,
}

module _ {V : Type 0} (view : ReplyInfo → V) where
  abbrev Kept : ReplyInfo → ReplyInfo → Type 0
  Kept s t = view t ≡ view s

  then-Kept :
      {A B : Type 0} (m : M ReplyInfo A) (f : A → M ReplyInfo B)
      → Runs Kept m
      → ((a : A) → Runs Kept (f a))
      → Runs Kept (m >>= f)
  then-Kept = Runs-bind Kept (λ a b c p q. q ∙ p)

  or_fault-Kept : {A : Type 0} (o : Option A) → Runs Kept (or_fault o)
  or_fault-Kept none s = tt
  or_fault-Kept (some a) s = refl

  module _ (media_kept : (m : MediaSession) (s : ReplyInfo) → view (set_media m s) ≡ view s) where
    describe_reply-Kept : (body : Option Bytes) → Runs Kept (describe_reply body)
    unfolding describe_reply
    describe_reply-Kept none s = media_kept no_media s
    describe_reply-Kept (some text) s =
        then-Kept (modify (set_media no_media))
          (λ _. or_fault (parse_sdp text no_media) >>= λ r. modify (set_media r.1))
          (media_kept no_media)
          (λ _.
            then-Kept (or_fault (parse_sdp text no_media)) (λ r. modify (set_media r.1))
              (or_fault-Kept (parse_sdp text no_media)) (λ r. media_kept r.1))
          s

  module _ (setup_kept : (x : SetupInfo) (s : ReplyInfo) → view (set_setup x s) ≡ view s) where
    store_session-Kept : (port : ℕ) (o : Option (Bytes × Bytes)) → Runs Kept (store_session port o)
    unfolding store_session
    store_session-Kept port none s = refl
    store_session-Kept port (some (id, rest)) s = by_size (ltb 63 (length id))
      where
        by_size :
            (long : Bool)
            → Leaves Kept s (
                (if long
                    then or_fault none
                    else modify (set_setup (record { server_port_num = port; session_id = id })))
                  s)
        by_size true = tt
        by_size false = setup_kept _ s

    session_reply-Kept : (port : ℕ) (o : Option Bytes) → Runs Kept (session_reply port o)
    unfolding session_reply
    session_reply-Kept port none s = refl
    session_reply-Kept port (some text) s = store_session-Kept port (scan_until b';' text) s

    with_params-Kept :
        (session : Option Bytes) (t : TransportParams) → Runs Kept (with_params session t)
    unfolding with_params
    with_params-Kept session t s = by_ok t.ok
      where
        by_ok :
            (ok : Bool)
            → Leaves Kept s (
                (if ok
                    then (modify (set_setup (record { server_port_num = t.port; session_id = [] }))
                        >> session_reply t.port session)
                    else pure tt)
                  s)
        by_ok true =
            then-Kept (modify (set_setup (record { server_port_num = t.port; session_id = [] })))
              (λ _. session_reply t.port session) (setup_kept _)
              (λ _. session_reply-Kept t.port session) s
        by_ok false = refl

    setup_reply-Kept :
        (session transport : Option Bytes) → Runs Kept (setup_reply session transport)
    unfolding setup_reply
    setup_reply-Kept session transport =
        then-Kept (modify (set_setup no_setup))
          (λ _. or_fault (parse_transport_params transport) >>= with_params session)
          (setup_kept no_setup)
          (λ _.
            then-Kept (or_fault (parse_transport_params transport)) (with_params session)
              (or_fault-Kept (parse_transport_params transport)) (with_params-Kept session))

  module _ (code_kept : (n : ℕ) (s : ReplyInfo) → view (record s { respond_code = n }) ≡ view s)
      (request : RequestType)
      (special_kept : (body session transport : Option Bytes)
        → Runs Kept (special_reply request body session transport)) where
    conclude-Kept : (code : ℕ) (h : Headers) → Runs Kept (conclude request code h)
    unfolding conclude
    conclude-Kept code bad_cseq s = refl
    conclude-Kept code (ended body session transport) s =
        then-Kept (modify (λ s. record s { respond_code = code }))
          (λ _.
            special_reply request body session transport
            >> pure (if code == 200 then ret_sucess else ret_err))
          (code_kept code)
          (λ _.
            then-Kept (special_reply request body session transport)
              (λ _. pure (if code == 200 then ret_sucess else ret_err))
              (special_kept body session transport) (λ _ s. refl))
          s

    with_code-Kept :
        (cseq : ℕ) (next : Option Bytes) (o : Option ℕ) → Runs Kept (with_code request cseq next o)
    unfolding with_code
    with_code-Kept cseq next none s = refl
    with_code-Kept cseq next (some code) s =
        then-Kept (or_fault (header_lines (enough next) cseq next none none))
          (conclude request code) (or_fault-Kept (header_lines (enough next) cseq next none none))
          (conclude-Kept code) s

    parse-Kept : (buf : Bytes) (n cseq : ℕ) → Runs Kept (parse buf n request cseq)
    unfolding parse
    parse-Kept buf zero cseq s = tt
    parse-Kept buf (suc n) cseq s =
        let line = first_line (length (c_string (take n buf))) (c_string (take n buf)) in
        with_code-Kept cseq line.1 (parse_response_code line.0) s

-- The reply to SETUP leaves the media session as DESCRIBE's reply has set it.
pub parse_setup_keeps_media :
    (buf : Bytes) (n cseq : ℕ) (s t : ReplyInfo) (r : ℤ)
    → parse buf n request_setup cseq s ≡ done r t
    → t.media ≡ s.media
unfolding special_reply
parse_setup_keeps_media buf n cseq s t r e = subst (Leaves (λ s t. t.media ≡ s.media) s) e (
    parse-Kept (λ x. x.media) (λ n s. refl) request_setup
      (λ body session transport. setup_reply-Kept (λ x. x.media) (λ x s. refl) session transport)
      buf n cseq s)

-- The reply to PLAY leaves what the replies to DESCRIBE and SETUP have set.
pub parse_play_keeps :
    (buf : Bytes) (n cseq : ℕ) (s t : ReplyInfo) (r : ℤ)
    → parse buf n request_play cseq s ≡ done r t
    → (t.media ≡ s.media) × (t.setup ≡ s.setup)
unfolding special_reply
parse_play_keeps buf n cseq s t r e = (
  subst (Leaves (λ s t. t.media ≡ s.media) s) e (
      parse-Kept (λ x. x.media) (λ n s. refl) request_play (λ body session transport s. refl) buf n
        cseq s),
  subst (Leaves (λ s t. t.setup ≡ s.setup) s) e (
      parse-Kept (λ x. x.setup) (λ n s. refl) request_play (λ body session transport s. refl) buf n
        cseq s),
)
