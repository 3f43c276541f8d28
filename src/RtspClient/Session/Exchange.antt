-- ===== src/RtspClient/Session/Exchange.antt =====
-- One request and its reply, `rtsp_request` of my_rtsp_client/cRTSPClient.cpp with the text in front of it:
-- what it changes of the session, and what it sends.
use canok_rtsp_client.Base.{
  ℕ, ◌+◌, ◌≤◌, ◌≡◌, refl, sym, ap, ap₂, ◌∙◌, subst, Option, none, some, Bytes, List, length, take,
}
use canok_rtsp_client.Base.Int.{ℤ, pos}
use canok_rtsp_client.Base.Outcome.{M, done, ◌>>=◌, ◌>>◌, pure, get, modify, or_fault}
use canok_rtsp_client.Base.Returns.{
  Returns, Leaves, Runs, Returns-weaken, Returns-bind, Returns-zoom, Returns-of,
}
use canok_rtsp_client.Text.{codes}
use canok_rtsp_client.Net.{Kernel, write_socket, make_socket_blocking}
use canok_rtsp_client.Net.Observed.{Quiet, make_socket_blocking_keeps}
use canok_rtsp_client.Protocol.{SendBuffer, ReplyInfo, RequestType}
use canok_rtsp_client.Protocol.Buffer.{message}
use canok_rtsp_client.Protocol.Build.{build, build-message}
use canok_rtsp_client.Protocol.Reply.{parse}
use canok_rtsp_client.Protocol.Room.{SameRoom, build-SameRoom}
use canok_rtsp_client.RtspClient.Session.{
  Session, on_send, on_reply, write_log, add_log, read_reply, clear_buffer, parse_reply,
  rtsp_request, send_lines,
}
use canok_rtsp_client.RtspClient.Session.Same.{
  is_some, is_some-add_log, Same, write_log-Same, or_fault-Same, read_reply-Same, clear_buffer-Same,
  Leaves-Returns,
}

module _ {K V : Type 0} (kernel : Kernel K) (view : K → V) (sends : Bytes → V → V)
    (quiet : Quiet kernel view sends) where
  abbrev Alike : Session K → Session K → Type 0
  Alike = Same kernel view sends quiet

  -- After one request and its reply: the text `text` has been sent and the reply read by `parse`.
  pub record Requested (text : Bytes) (request : RequestType) (s : Session K) (r : ℤ)
      (t : Session K) : Type 0 where
    pub server : t.server ≡ s.server
    pub cseq : t.cseq ≡ s.cseq + 1
    pub socket : t.socket ≡ s.socket
    pub room : t.send.send_len ≡ s.send.send_len
    pub rtp : t.rtp ≡ s.rtp
    pub log : is_some t.log ≡ is_some s.log
    pub seen : view t.system ≡ sends text (view s.system)
    pub parsed : (buf : Bytes) × (n : ℕ) × (parse buf n request s.cseq s.reply ≡ done r t.reply)

  -- The last step: `parse` on the reply buffer.
  Parsed : RequestType → Session K → ℤ → Session K → Type 0
  Parsed request u r t =
      (buf : Bytes) × (n : ℕ) × (parse buf n request u.cseq u.reply ≡ done r t.reply)
      × (t ≡ record u { reply = t.reply; cseq = u.cseq + 1 })

  parse_reply-Parsed :
      (n : ℕ) (request : RequestType) (u : Session K)
      → Returns (Parsed request u) (parse_reply kernel n request u)
  unfolding parse_reply Parsed
  parse_reply-Parsed n request u = by_buffer u.rtsp_buffer
    where
      from : Bytes → M (Session K) ℤ
      from b = do
        ret ← on_reply (parse b n request u.cseq)
        modify (λ s. record s { cseq = s.cseq + 1 })
        pure ret

      by_buffer : (o : Option Bytes) → Returns (Parsed request u) ((or_fault o >>= from) u)
      by_buffer none = tt
      by_buffer (some b) =
          Returns-bind
            (λ r t.
              (parse b n request u.cseq u.reply ≡ done r t.reply)
              × (t ≡ record u { reply = t.reply }))
            (Parsed request u) (on_reply (parse b n request u.cseq))
            (λ ret. modify (λ s. record s { cseq = s.cseq + 1 }) >> pure ret) u
            (Returns-zoom _ (λ r t. parse b n request u.cseq u.reply ≡ done r t) (λ s. s.reply)
              (λ r s. record s { reply = r }) (parse b n request u.cseq) u (λ a t e. (e, refl))
              (Returns-of _ (parse b n request u.cseq u.reply) (λ a t e. e)))
            (λ r t h. (b, n, h.0, ap (λ (x : Session K). record x { cseq = x.cseq + 1 }) h.1))

  -- What has been sent and logged when the reply is awaited.
  Sent : Bytes → Session K → Session K → Type 0
  Sent text s u =
      Alike (record s { system = u.system }) u × (view u.system ≡ sends text (view s.system))

  Sent-Same : (text : Bytes) (s u v : Session K) → Sent text s u → Alike u v → Sent text s v
  unfolding Sent
  Sent-Same text s u v (p, seen) q = (
    record {
      server = q.server ∙ p.server;
      cseq = q.cseq ∙ p.cseq;
      socket = q.socket ∙ p.socket;
      send = q.send ∙ p.send;
      reply = q.reply ∙ p.reply;
      rtp = q.rtp ∙ p.rtp;
      log = q.log ∙ p.log;
      seen = refl;
    },
    q.seen ∙ seen,
  )

  -- A step that `Alike` covers, on the way to the reply.
  sent_then :
      {A B : Type 0} (text : Bytes) (s u : Session K) (Q : B → Session K → Type 0)
      (m : M (Session K) A) (f : A → M (Session K) B)
      → Sent text s u
      → Runs Alike m
      → ((a : A) (v : Session K) → Sent text s v → Returns Q (f a v))
      → Returns Q ((m >>= f) u)
  sent_then text s u Q m f h runs next =
      Returns-bind (λ _ v. Alike u v) Q m f u
        (Leaves-Returns kernel view sends quiet u (m u) (runs u))
        (λ a v same. next a v (Sent-Same text s u v h same))

  Sent-Requested :
      (text : Bytes) (request : RequestType) (s u : Session K) (r : ℤ) (t : Session K)
      → Sent text s u
      → Parsed request u r t
      → Requested text request s r t
  unfolding Sent Parsed
  Sent-Requested text request s u r t (p, seen) (buf, n, run, e) = record {
    server = ap (λ (x : Session K). x.server) e ∙ p.server;
    cseq = ap (λ (x : Session K). x.cseq) e ∙ ap (λ (k : ℕ). k + 1) p.cseq;
    socket = ap (λ (x : Session K). x.socket) e ∙ p.socket;
    room = ap (λ (x : Session K). x.send.send_len) e ∙ ap (λ (x : SendBuffer). x.send_len) p.send;
    rtp = ap (λ (x : Session K). x.rtp) e ∙ p.rtp;
    log = ap (λ (x : Session K). is_some x.log) e ∙ p.log;
    seen = ap (λ (x : Session K). view x.system) e ∙ seen;
    parsed = (
      buf,
      n,
      ap₂ (λ (c : ℕ) (x : ReplyInfo). parse buf n request c x) (sym p.cseq) (sym p.reply) ∙ run,
    );
  }

  pub rtsp_request-Requested :
      (buffer : Bytes) (size : ℕ) (request : RequestType) (s : Session K)
      → Returns (Requested (take size buffer) request s) (rtsp_request kernel buffer size request s)
  unfolding rtsp_request write_socket Sent
  rtsp_request-Requested buffer size request s =
      sent_then text s u Q (clear_buffer kernel) (λ _. read_reply kernel 5 0 >>= logged) start
        (clear_buffer-Same kernel view sends quiet)
        (λ _ v h.
          sent_then text s v Q (read_reply kernel 5 0) logged h
            (read_reply-Same kernel view sends quiet 5 0)
            (λ n v h.
              sent_then text s v Q (write_log heading) (λ _. copied n) h
                (write_log-Same kernel view sends quiet heading)
                (λ _ v h.
                  sent_then text s v Q (or_fault v.rtsp_buffer) (finished n) h
                    (or_fault-Same kernel view sends quiet v.rtsp_buffer)
                    (λ b v h.
                      sent_then text s v Q (write_log (take n b))
                        (λ _. parse_reply kernel n request) h
                        (write_log-Same kernel view sends quiet (take n b))
                        (λ _ v h.
                          Returns-weaken (Parsed request v) Q (parse_reply kernel n request v)
                            (λ r t p. Sent-Requested text request s v r t h p)
                            (parse_reply-Parsed n request v))))))
    where
      text : Bytes
      text = take size buffer

      Q : ℤ → Session K → Type 0
      Q = Requested text request s

      heading : Bytes
      heading = take 12 (codes "s->c===========\n")

      finished : ℕ → Bytes → M (Session K) ℤ
      finished n b = write_log (take n b) >> parse_reply kernel n request

      copied : ℕ → M (Session K) ℤ
      copied n = do v ← get; b ← or_fault v.rtsp_buffer; finished n b

      logged : ℕ → M (Session K) ℤ
      logged n = write_log heading >> copied n

      sent : K
      sent = (write_socket kernel s.socket text s.system).1

      u : Session K
      u = record s {
        log = add_log text (add_log (take 12 (codes "c->s:::::::\n")) s.log);
        system = (make_socket_blocking kernel s.socket 50 sent).1;
      }

      start : Sent text s u
      start = (
        record {
          server = refl;
          cseq = refl;
          socket = refl;
          send = refl;
          reply = refl;
          rtp = refl;
          log =
              is_some-add_log text (add_log (take 12 (codes "c->s:::::::\n")) s.log)
              ∙ is_some-add_log (take 12 (codes "c->s:::::::\n")) s.log;
          seen = refl;
        },
        make_socket_blocking_keeps kernel view sends quiet s.socket 50 sent
            ∙ quiet.send_adds s.socket text s.system,
      )

  -- Where the text fits into the buffer for requests, just it is sent.
  pub send_lines-Requested :
      (lines : List Bytes) (request : RequestType) (s : Session K)
      → Returns
          (λ r t.
            (text : Bytes) × (length (message lines) ≤ s.send.send_len → text ≡ message lines)
            × Requested text request s r t)
          (send_lines kernel lines request s)
  unfolding send_lines
  send_lines-Requested lines request s =
      Returns-bind (λ _ u. (b : SendBuffer) × (u ≡ record s { send = b }) × Built b) Goal
        (on_send (build lines)) rest s
        (Returns-zoom _ (λ _ b. Built b) (λ s. s.send) (λ b s. record s { send = b }) (build lines)
          s (λ a b h. (b, refl, h)) (Returns-of (λ _ b. Built b) (build lines s.send) built))
        (λ a u (b, e, h). subst (λ u. Returns Goal (rest a u)) (sym e) (requested b h))
    where
      Goal : ℤ → Session K → Type 0
      Goal r t =
          (text : Bytes) × (length (message lines) ≤ s.send.send_len → text ≡ message lines)
          × Requested text request s r t

      Built : SendBuffer → Type 0
      Built b =
          (b.send_len ≡ s.send.send_len)
          × (length (message lines) ≤ s.send.send_len
              → take b.send_offset b.send_buf ≡ message lines)

      rest : ℤ → M (Session K) ℤ
      rest a = do u ← get; rtsp_request kernel u.send.send_buf u.send.send_offset request

      built : (a : ℤ) (b : SendBuffer) → build lines s.send ≡ done a b → Built b
      built a b e = (
        subst (Leaves SameRoom s.send) e (build-SameRoom lines s.send),
        λ fits.
            let (c, run, size, text) = build-message lines s.send fits in
            let same : c ≡ b = cc (run, e) in
            subst (λ (x : SendBuffer). take x.send_offset x.send_buf ≡ message lines) same text,
      )

      requested : (b : SendBuffer) → Built b → Returns Goal (rest (pos 0) (record s { send = b }))
      requested b (room, fits) =
          Returns-weaken (Requested (take b.send_offset b.send_buf) request (record s { send = b }))
            Goal (rtsp_request kernel b.send_buf b.send_offset request (record s { send = b }))
            (λ r t q. (
              take b.send_offset b.send_buf,
              fits,
              record {
                server = q.server;
                cseq = q.cseq;
                socket = q.socket;
                room = q.room ∙ room;
                rtp = q.rtp;
                log = q.log;
                seen = q.seen;
                parsed = q.parsed;
              },
            ))
            (rtsp_request-Requested b.send_buf b.send_offset request (record s { send = b }))
