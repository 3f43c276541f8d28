-- ===== src/RtspClient/Session/Pieces.antt =====
-- The reply that `rtsp_request` of my_rtsp_client/cRTSPClient.cpp reads, whatever pieces it comes in.
use canok_rtsp_client.Base.{
  ℕ, zero, suc, ◌+◌, ◌-◌, ◌≤◌, ◌≡◌, refl, sym, ap, ap₂, ◌∙◌, Option, none, some, Bytes, [], ◌++◌,
  append_assoc, append-nil, arith, length, take, drop, replicate, length-append, length-replicate,
  take-append, take_all, drop-append_more, drop-replicate,
}
use canok_rtsp_client.Base.Int.{ℤ, pos}
use canok_rtsp_client.Base.Memory.{memcpy, memcpy_in_bounds}
use canok_rtsp_client.Base.Outcome.{
  M, done, ◌>>=◌, ◌>>◌, pure, get, modify, or_fault, bind_done, zoom_done,
}
use canok_rtsp_client.Text.{codes}
use canok_rtsp_client.Net.{Kernel, read_socket, write_socket, make_socket_blocking}
use canok_rtsp_client.Protocol.{ReplyInfo, RequestType}
use canok_rtsp_client.Protocol.Reply.{parse}
use canok_rtsp_client.RtspClient.Session.{
  Session, on_reply, write_log, add_log, received, read_reply, clear_buffer, parse_reply,
  rtsp_request,
}

-- The buffer for replies with `text` at its start.
abbrev pub padded : Bytes → Bytes
padded text = text ++ replicate (2048 - length text) 0

length-padded : (text : Bytes) → length text ≤ 2048 → length (padded text) ≡ 2048
length-padded text h = omega (
  arith,
  length-append text (replicate (2048 - length text) 0),
  length-replicate {A = ℕ} (2048 - length text) 0,
)

module _ (got piece : Bytes) (fits : length got + length piece ≤ 2048) where
  padded-append :
      take (length got) (padded got)
        ++ (take (length piece) piece ++ drop (length got + length piece) (padded got))
      ≡ padded (got ++ piece)
  padded-append =
      ap₂ (λ a b. a ++ (b ++ drop (length got + length piece) (padded got)))
        (take-append got (replicate (2048 - length got) 0) (length got) refl)
        (take_all (length piece) piece (omega arith))
      ∙ ap (λ r. got ++ (piece ++ r))
          (drop-append_more got (replicate (2048 - length got) 0) (length got) (length piece) refl
            ∙ drop-replicate (length piece) (2048 - length got) 0
            ∙ ap (λ n. replicate n 0) (omega (arith, length-append got piece)))
      ∙ sym (append_assoc got piece (replicate (2048 - length (got ++ piece)) 0))

  memcpy-padded :
      memcpy (padded got) (length got) piece (pos (length piece)) ≡ some (padded (got ++ piece))
  memcpy-padded =
      memcpy_in_bounds (padded got) (length got) piece (length piece)
        (omega (arith, length-padded got (omega arith))) (omega arith)
      ∙ ap some padded-append

module _ {K : Type 0} (kernel : Kernel K) (fd : ℤ) where
  -- Of `n` reads behind `all` bytes, the ones that receive something receive `text` together.
  pub data Receives : ℕ → ℕ → K → Bytes → K → Type 0 where
    all_read : {all : ℕ} {k : K} → Receives zero all k [] k
    timed_out :
        {n all : ℕ} {k k' : K} {text : Bytes}
        → (kernel.recv fd (2048 - all) k).0 ≡ none
        → Receives n all (kernel.recv fd (2048 - all) k).1 text k'
        → Receives (suc n) all k text k'
    arrived :
        {n all : ℕ} {k k' : K} {text : Bytes} (b : Bytes)
        → (kernel.recv fd (2048 - all) k).0 ≡ some b
        → all + length b ≤ 2048
        → Receives n (all + length b) (kernel.recv fd (2048 - all) k).1 text k'
        → Receives (suc n) all k (b ++ text) k'

module _ {K : Type 0} (kernel : Kernel K) (s : Session K) where
  -- The session `s` while it reads a reply.
  abbrev reading : Bytes → K → Session K
  reading got k = record s { rtsp_buffer = some (padded got); system = k }

  received_lem :
      (got piece : Bytes) (k : K)
      → length got + length piece ≤ 2048
      → received kernel (length got) (some piece) (reading got k)
        ≡ done (length (got ++ piece)) (reading (got ++ piece) k)
  unfolding received
  received_lem got piece k fits =
      bind_done (or_fault (memcpy (padded got) (length got) piece (pos (length piece))))
        (λ b. modify (λ s. record s { rtsp_buffer = some b }) >> pure (length got + length piece))
        {s = reading got k} (ap (λ o. or_fault o (reading got k)) (memcpy-padded got piece fits))
      ∙ ap (λ n. done n (reading (got ++ piece) k)) (sym (length-append got piece))

  read_reply_lem :
      {n all : ℕ} {k k' : K} {text : Bytes}
      → Receives kernel s.socket n all k text k'
      → (got : Bytes) → all ≡ length got
      → read_reply kernel n all (reading got k)
        ≡ done (length (got ++ text)) (reading (got ++ text) k')
  unfolding read_reply read_socket received
  read_reply_lem {k} all_read got e =
      ap (λ n. done n (reading got k)) e
      ∙ ap (λ t. done (length t) (reading t k)) (sym (append-nil got))
  read_reply_lem {all = all} {k = k} (timed_out {n = n} none_is more) got e =
      ap
        (λ o.
          (received kernel all o >>= read_reply kernel n)
            (reading got (kernel.recv s.socket (2048 - all) k).1))
        none_is
      ∙ read_reply_lem more got e
  read_reply_lem {all = all} {k = k} {k' = k'} (arrived {n = n} {text = text} b some_is fits more)
        got e =
      ap (λ o. (received kernel all o >>= read_reply kernel n) (reading got later)) some_is
      ∙ ap (λ a. (received kernel a (some b) >>= read_reply kernel n) (reading got later)) e
      ∙ bind_done (received kernel (length got) (some b)) (read_reply kernel n)
          {s = reading got later} (received_lem got b later (omega arith))
      ∙ ap (λ a. read_reply kernel n a (reading (got ++ b) later)) together
      ∙ read_reply_lem more (got ++ b) (sym together)
      ∙ ap (λ t. done (length t) (reading t k')) (append_assoc got b text)
    where
      later : K
      later = (kernel.recv s.socket (2048 - all) k).1

      together : length (got ++ b) ≡ all + length b
      together = omega (arith, length-append got b)

-- The log after a request and its reply.
abbrev pub log_after : Bytes → Bytes → Option Bytes → Option Bytes
log_after sent text log = add_log text (
    add_log (take 12 (codes "s->c===========\n"))
      (add_log sent (add_log (take 12 (codes "c->s:::::::\n")) log)))

module _ {K : Type 0} (kernel : Kernel K) (sent : Bytes) (s : Session K) where
  -- The system once the request is sent and the socket has its timeouts.
  abbrev pub system_before : K
  system_before =
      (make_socket_blocking kernel s.socket 50 (write_socket kernel s.socket sent s.system).1).1

  -- The session after a request whose reply is `text`, with what `parse` made of it.
  abbrev pub answered : Bytes → K → ReplyInfo → Session K
  answered text k reply = record s {
    log = log_after sent text s.log;
    rtsp_buffer = some (padded text);
    reply = reply;
    cseq = s.cseq + 1;
    system = k;
  }

module _ {K : Type 0} (kernel : Kernel K) (request : RequestType) (s : Session K) where
  -- What `rtsp_request` does once the reply is in the buffer.
  abbrev take_reply : ℕ → M (Session K) ℤ
  take_reply data_all = do
    write_log (take 12 (codes "s->c===========\n"))
    s ← get
    b ← or_fault s.rtsp_buffer
    write_log (take data_all b)
    parse_reply kernel data_all request

  abbrev asked : Bytes → Session K
  asked sent = record s {
    log = add_log sent (add_log (take 12 (codes "c->s:::::::\n")) s.log);
    system = system_before kernel sent s;
  }

  take_reply_lem :
      (sent text : Bytes) (k : K) {r : ℤ} {reply : ReplyInfo}
      → parse (padded text) (length text) request s.cseq s.reply ≡ done r reply
      → take_reply (length text) (reading kernel (asked sent) text k)
        ≡ done r (answered kernel sent s text k reply)
  unfolding write_log parse_reply
  take_reply_lem sent text k {r} {reply} run =
      bind_done (on_reply (parse (padded text) (length text) request s.cseq))
        (λ ret. modify (λ s. record s { cseq = s.cseq + 1 }) >> pure ret)
        (zoom_done (λ s. s.reply) (λ r s. record s { reply = r })
          (parse (padded text) (length text) request s.cseq) run)
      ∙ ap
          (λ t.
            done r (record (answered kernel sent s text k reply) { log = log_after sent t s.log }))
          (take-append text (replicate (2048 - length text) 0) (length text) refl)

  -- The reply that the five reads receive together is what `parse` gets, and its result is the result.
  pub rtsp_request-pieces :
      (buffer : Bytes) (size : ℕ) {b text : Bytes} {k : K} {r : ℤ} {reply : ReplyInfo}
      → s.rtsp_buffer ≡ some b
      → Receives kernel s.socket 5 0 (system_before kernel (take size buffer) s) text k
      → parse (padded text) (length text) request s.cseq s.reply ≡ done r reply
      → rtsp_request kernel buffer size request s
        ≡ done r (answered kernel (take size buffer) s text k reply)
  unfolding rtsp_request write_log clear_buffer
  rtsp_request-pieces buffer size {b} {text} {k} {r} {reply} ready got run =
      bind_done (clear_buffer kernel) (λ _. read_reply kernel 5 0 >>= take_reply)
        {s = asked (take size buffer)}
        (ap
          (λ o.
            (or_fault o >>= λ b. modify (λ s. record s { rtsp_buffer = some (replicate 2048 0) }))
              (asked (take size buffer)))
          ready)
      ∙ bind_done (read_reply kernel 5 0) take_reply
          {s = reading kernel (asked (take size buffer)) []
            (system_before kernel (take size buffer) s)}
          (read_reply_lem kernel (asked (take size buffer)) got [] refl)
      ∙ take_reply_lem (take size buffer) text k run
