-- ===== src/RtspClient/Session/Same.antt =====
-- What the steps of `rtsp_request`, my_rtsp_client/cRTSPClient.cpp, leave as it is while a reply is read.
use canok_rtsp_client.Base.{
  ℕ, zero, suc, ◌+◌, ◌-◌, ◌≡◌, refl, ◌∙◌, Bool, true, false, Option, none, some, Bytes, length,
  replicate,
}
use canok_rtsp_client.Base.Int.{pos}
use canok_rtsp_client.Base.Memory.{memcpy}
use canok_rtsp_client.Base.Outcome.{
  Outcome, done, waits, fault, ◌>>=◌, ◌>>◌, pure, modify, or_fault,
}
use canok_rtsp_client.Base.Returns.{Returns, Leaves, Runs, Runs-bind}
use canok_rtsp_client.Net.{Kernel, read_socket}
use canok_rtsp_client.Net.Observed.{Quiet}
use canok_rtsp_client.RtpClient.Lifecycle.{call}
use canok_rtsp_client.RtspClient.Session.{
  Session, on_system, write_log, add_log, received, read_reply, clear_buffer,
}

abbrev pub is_some : {A : Type 0} → Option A → Bool
is_some none = false
is_some (some a) = true

pub is_some-add_log : (b : Bytes) (log : Option Bytes) → is_some (add_log b log) ≡ is_some log
unfolding add_log
is_some-add_log b none = refl
is_some-add_log b (some text) = refl

module _ {K V : Type 0} (kernel : Kernel K) (view : K → V) (sends : Bytes → V → V)
    (quiet : Quiet kernel view sends) where
  -- Nothing but the log's text, the reply buffer and the state behind the view has changed.
  pub record Same (s t : Session K) : Type 0 where
    pub server : t.server ≡ s.server
    pub cseq : t.cseq ≡ s.cseq
    pub socket : t.socket ≡ s.socket
    pub send : t.send ≡ s.send
    pub reply : t.reply ≡ s.reply
    pub rtp : t.rtp ≡ s.rtp
    pub log : is_some t.log ≡ is_some s.log
    pub seen : view t.system ≡ view s.system

  Same-refl : (s : Session K) → Same s s
  Same-refl s = record {
    server = refl;
    cseq = refl;
    socket = refl;
    send = refl;
    reply = refl;
    rtp = refl;
    log = refl;
    seen = refl;
  }

  Same-trans : (a b c : Session K) → Same a b → Same b c → Same a c
  Same-trans a b c p q = record {
    server = q.server ∙ p.server;
    cseq = q.cseq ∙ p.cseq;
    socket = q.socket ∙ p.socket;
    send = q.send ∙ p.send;
    reply = q.reply ∙ p.reply;
    rtp = q.rtp ∙ p.rtp;
    log = q.log ∙ p.log;
    seen = q.seen ∙ p.seen;
  }

  Same-system : (s : Session K) (k : K) → view k ≡ view s.system → Same s (record s { system = k })
  Same-system s k e = record {
    server = refl;
    cseq = refl;
    socket = refl;
    send = refl;
    reply = refl;
    rtp = refl;
    log = refl;
    seen = e;
  }

  Same-buffer : (s : Session K) (b : Option Bytes) → Same s (record s { rtsp_buffer = b })
  Same-buffer s b = record {
    server = refl;
    cseq = refl;
    socket = refl;
    send = refl;
    reply = refl;
    rtp = refl;
    log = refl;
    seen = refl;
  }

  pub write_log-Same : (b : Bytes) → Runs Same (write_log {K = K} b)
  unfolding write_log
  write_log-Same b s = record {
    server = refl;
    cseq = refl;
    socket = refl;
    send = refl;
    reply = refl;
    rtp = refl;
    log = is_some-add_log b s.log;
    seen = refl;
  }

  pub or_fault-Same : {A : Type 0} (o : Option A) → Runs Same (or_fault {S = Session K} o)
  or_fault-Same none s = tt
  or_fault-Same (some a) s = Same-refl s

  received-Same : (n : ℕ) (o : Option Bytes) → Runs Same (received kernel n o)
  unfolding received
  received-Same n none s = Same-refl s
  received-Same n (some bytes) s =
      Runs-bind Same Same-trans (or_fault s.rtsp_buffer)
        (λ buffer. or_fault (memcpy buffer n bytes (pos (length bytes))) >>= λ b.
          modify (λ s. record s { rtsp_buffer = some b }) >> pure (n + length bytes))
        (or_fault-Same s.rtsp_buffer)
        (λ buffer.
          Runs-bind Same Same-trans (or_fault (memcpy buffer n bytes (pos (length bytes))))
            (λ b. modify (λ s. record s { rtsp_buffer = some b }) >> pure (n + length bytes))
            (or_fault-Same (memcpy buffer n bytes (pos (length bytes))))
            (λ b s. Same-buffer s (some b)))
        s

  pub read_reply-Same : (n all : ℕ) → Runs Same (read_reply kernel n all)
  unfolding read_reply read_socket
  read_reply-Same zero all s = Same-refl s
  read_reply-Same (suc n) all s =
      Runs-bind Same Same-trans (on_system (call (read_socket kernel s.socket (2048 - all))))
        (λ got. received kernel all got >>= read_reply kernel n)
        (λ t. Same-system t _ (quiet.recv_keeps s.socket (2048 - all) t.system))
        (λ got.
          Runs-bind Same Same-trans (received kernel all got) (read_reply kernel n)
            (received-Same all got) (read_reply-Same n))
        s

  pub clear_buffer-Same : Runs Same (clear_buffer kernel)
  unfolding clear_buffer
  clear_buffer-Same s =
      Runs-bind Same Same-trans (or_fault s.rtsp_buffer)
        (λ buffer. modify (λ s. record s { rtsp_buffer = some (replicate 2048 0) }))
        (or_fault-Same s.rtsp_buffer) (λ buffer t. Same-buffer t (some (replicate 2048 0))) s

  pub Leaves-Returns :
      {A : Type 0} (s : Session K) (o : Outcome (Session K) A)
      → Leaves Same s o
      → Returns (λ _ t. Same s t) o
  Leaves-Returns s (done a t) h = h
  Leaves-Returns s (waits t) h = tt
  Leaves-Returns s fault h = tt
