-- ===== src/Protocol/Reply/Verdict.antt =====
-- What the result of `parse` says about the reply.
use canok_rtsp_client.Base.{
  ℕ, zero, suc, ◌==◌, ==_iff, ◌≡◌, refl, sym, ap, ◌∙◌, ltb, if◌then◌else◌, ◌⊎◌, inl, inr,
  Bool-cases, Option, none, some, Bytes, [], length, take,
}
use canok_rtsp_client.Base.Int.{ℤ}
use canok_rtsp_client.Base.Outcome.{M, Outcome, done, pure, ◌>>=◌, or_fault, modify, bind-done}
use canok_rtsp_client.Macros.{ret_sucess, ret_err}
use canok_rtsp_client.Text.{c_string, scan_until}
use canok_rtsp_client.Protocol.{
  ReplyInfo, RequestType, request_option, request_describe, request_setup, request_play,
  request_pause, request_teardown,
}
use canok_rtsp_client.Protocol.Lines.{parse_response_code}
use canok_rtsp_client.Protocol.Sdp.{parse_sdp}
use canok_rtsp_client.Protocol.Transport.{TransportParams, parse_transport_params}
use canok_rtsp_client.Protocol.Reply.{
  Headers, bad_cseq, ended, first_line, header_lines, enough, set_media, set_setup, no_media,
  no_setup, describe_reply, store_session, session_reply, with_params, setup_reply, special_reply,
  conclude, with_code, parse,
}

-- A call that leaves the response code alone.
abbrev KeepsCode : M ReplyInfo (Unit {0}) → Type 0
KeepsCode m = (s t : ReplyInfo) → m s ≡ done tt t → t.respond_code ≡ s.respond_code

done_same :
    {A : Type 0} {a b : A} {s t : ReplyInfo}
    → ◌≡◌ {A = Outcome ReplyInfo A} (done a s) (done b t)
    → s ≡ t
done_same e = cc e

modify-KeepsCode :
    (f : ReplyInfo → ReplyInfo)
    → ((s : ReplyInfo) → (f s).respond_code ≡ s.respond_code)
    → KeepsCode (modify f)
modify-KeepsCode f h s t e = ap (λ (x : ReplyInfo). x.respond_code) (sym (done_same e)) ∙ h s

pure-KeepsCode : KeepsCode (pure tt)
pure-KeepsCode s t e = ap (λ (x : ReplyInfo). x.respond_code) (sym (done_same e))

bind-KeepsCode :
    {A : Type 0} (m : M ReplyInfo A) (f : A → M ReplyInfo (Unit {0}))
    → ((s t : ReplyInfo) (a : A) → m s ≡ done a t → t.respond_code ≡ s.respond_code)
    → ((a : A) → KeepsCode (f a))
    → KeepsCode (m >>= f)
bind-KeepsCode m f h k s t e =
    let (a, u, first, rest) = bind-done m f s e in k a u t rest ∙ h s u a first

or_fault-KeepsCode :
    {A : Type 0} (o : Option A) (s t : ReplyInfo) (a : A)
    → or_fault o s ≡ done a t
    → t.respond_code ≡ s.respond_code
or_fault-KeepsCode none s t a e = cc e
or_fault-KeepsCode (some b) s t a e = ap (λ (x : ReplyInfo). x.respond_code) (sym (done_same e))

unit-KeepsCode :
    (m : M ReplyInfo (Unit {0}))
    → KeepsCode m
    → (s t : ReplyInfo) (a : Unit {0}) → m s ≡ done a t
    → t.respond_code ≡ s.respond_code
unit-KeepsCode m h s t a e = h s t e

describe-KeepsCode : (body : Option Bytes) → KeepsCode (describe_reply body)
unfolding describe_reply
describe-KeepsCode none =
    bind-KeepsCode (modify (set_media no_media)) _
      (unit-KeepsCode _ (modify-KeepsCode (set_media no_media) (λ s. refl))) (λ a. pure-KeepsCode)
describe-KeepsCode (some s) =
    bind-KeepsCode (modify (set_media no_media)) _
      (unit-KeepsCode _ (modify-KeepsCode (set_media no_media) (λ s. refl)))
      (λ a.
        bind-KeepsCode (or_fault (parse_sdp s no_media)) _ (or_fault-KeepsCode _)
          (λ r. modify-KeepsCode (set_media r.1) (λ s. refl)))

store_session-KeepsCode : (port : ℕ) (r : Option (Bytes × Bytes)) → KeepsCode (store_session port r)
unfolding store_session
store_session-KeepsCode port none s t e = pure-KeepsCode s t e
store_session-KeepsCode port (some (id, rest)) s t e = elim (Bool-cases (ltb 63 (length id))) [
  | inl long ↦ cc (rw long at e)
  | inr short ↦
      modify-KeepsCode (set_setup (record { server_port_num = port; session_id = id })) (λ s. refl)
        s t (rw short at e)
]

session-KeepsCode : (port : ℕ) (o : Option Bytes) → KeepsCode (session_reply port o)
unfolding session_reply
session-KeepsCode port none = pure-KeepsCode
session-KeepsCode port (some s) = store_session-KeepsCode port (scan_until b';' s)

with_params-KeepsCode :
    (session : Option Bytes) (t : TransportParams) → KeepsCode (with_params session t)
unfolding with_params
with_params-KeepsCode session t s u e = elim (Bool-cases t.ok) [
  | inl good ↦
      bind-KeepsCode (modify (set_setup (record { server_port_num = t.port; session_id = [] })))
        (λ _. session_reply t.port session)
        (unit-KeepsCode _ (
          modify-KeepsCode (set_setup (record { server_port_num = t.port; session_id = [] }))
            (λ s. refl)))
        (λ a. session-KeepsCode t.port session) s u (rw good at e)
  | inr bad ↦ pure-KeepsCode s u (rw bad at e)
]

setup-KeepsCode : (session transport : Option Bytes) → KeepsCode (setup_reply session transport)
unfolding setup_reply
setup-KeepsCode session transport =
    bind-KeepsCode (modify (set_setup no_setup))
      (λ _. or_fault (parse_transport_params transport) >>= with_params session)
      (unit-KeepsCode _ (modify-KeepsCode (set_setup no_setup) (λ s. refl)))
      (λ a.
        bind-KeepsCode (or_fault (parse_transport_params transport)) (with_params session)
          (or_fault-KeepsCode (parse_transport_params transport)) (with_params-KeepsCode session))

special-KeepsCode :
    (request : RequestType) (body session transport : Option Bytes)
    → KeepsCode (special_reply request body session transport)
unfolding special_reply
special-KeepsCode request_describe body session transport = describe-KeepsCode body
special-KeepsCode request_setup body session transport = setup-KeepsCode session transport
special-KeepsCode request_option body session transport = pure-KeepsCode
special-KeepsCode request_play body session transport = pure-KeepsCode
special-KeepsCode request_pause body session transport = pure-KeepsCode
special-KeepsCode request_teardown body session transport = pure-KeepsCode

-- The result agrees with the code that is stored.
abbrev Agrees : ℤ → ReplyInfo → Type 0
Agrees r t = (r ≡ ret_err) ⊎ ((r ≡ ret_sucess) × (t.respond_code ≡ 200))

conclude-Agrees :
    (request : RequestType) (code : ℕ) (h : Headers) (s t : ReplyInfo) (r : ℤ)
    → conclude request code h s ≡ done r t
    → Agrees r t
unfolding conclude
conclude-Agrees request code bad_cseq s t r e = inl (cc e)
conclude-Agrees request code (ended body session transport) s t r e =
    let (a, u, first, rest) =
      bind-done (special_reply request body session transport)
        (λ _. pure (if code == 200 then ret_sucess else ret_err)) (record s { respond_code = code })
        e in
    let kept =
      special-KeepsCode request body session transport (record s { respond_code = code }) u first in
    elim (Bool-cases (code == 200)) [
      | inl good ↦ inr (
        cc (rw good at rest),
        ap (λ (x : ReplyInfo). x.respond_code) (sym (done_same rest))
            ∙ kept
            ∙ (==_iff code 200).0 good,
      )
      | inr bad ↦ inl (cc (rw bad at rest))
    ]

with_code-Agrees :
    (request : RequestType) (cseq : ℕ) (next : Option Bytes) (o : Option ℕ) (s t : ReplyInfo)
    (r : ℤ)
    → with_code request cseq next o s ≡ done r t
    → Agrees r t
unfolding with_code
with_code-Agrees request cseq next none s t r e = inl (cc e)
with_code-Agrees request cseq next (some code) s t r e =
    let (h, u, first, rest) =
      bind-done (or_fault (header_lines (enough next) cseq next none none)) (conclude request code)
        s e in
    conclude-Agrees request code h u t r rest

-- Whenever `parse` returns, it returns RET_ERR, or RET_SUCESS with 200 as the stored response code.
pub parse-verdict :
    (buf : Bytes) (buflen : ℕ) (request : RequestType) (cseq : ℕ) (s t : ReplyInfo) (r : ℤ)
    → parse buf buflen request cseq s ≡ done r t
    → (r ≡ ret_err) ⊎ ((r ≡ ret_sucess) × (t.respond_code ≡ 200))
unfolding parse
parse-verdict buf zero request cseq s t r e = cc e
parse-verdict buf (suc n) request cseq s t r e =
    let line = first_line (length (c_string (take n buf))) (c_string (take n buf)) in
    with_code-Agrees request cseq line.1 (parse_response_code line.0) s t r e
