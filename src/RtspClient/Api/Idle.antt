-- ===== src/RtspClient/Api/Idle.antt =====
-- The requests of my_rtsp_client/cRTSPClient.cpp before PLAY start no thread of the RTP client.
use canok_rtsp_client.Base.{
  ℕ, ◌==◌, ◌≡◌, ◌⊎◌, inl, inr, refl, sym, ap, ◌∙◌, if◌then◌else◌, Bool, true, false, Option, none,
  some, Bytes, List,
}
use canok_rtsp_client.Base.Int.{ℤ, pos}
use canok_rtsp_client.Base.Outcome.{
  M, Outcome, done, waits, fault, ◌>>=◌, ◌>>◌, pure, modify, or_fault,
}
use canok_rtsp_client.Base.Returns.{Returns, Returns-weaken, Returns-bind, Returns-zoom}
use canok_rtsp_client.Macros.{ret_sucess, ret_err}
use canok_rtsp_client.Net.{Kernel, udp_net_setup, udp_get_port, increase_receive_buffer_to}
use canok_rtsp_client.Net.Observed.{Quiet, Fixed}
use canok_rtsp_client.Protocol.{RequestType, request_setup, request_option}
use canok_rtsp_client.RtpClient.{new_queues}
use canok_rtsp_client.RtpClient.Lifecycle.{
  RtpObject, Device, RawMemory, rtp_init, rtp_udp_connect, rtp_get_udp_port,
}
use canok_rtsp_client.RtpClient.Lifecycle.View.{rtp_udp_connect_keeps}
use canok_rtsp_client.RtspClient.Session.{
  Session, on_system, on_rtp, on_object, load, store, send_lines,
}
use canok_rtsp_client.RtspClient.Session.Exchange.{send_lines-Requested}
use canok_rtsp_client.RtspClient.Requests.{
  is_sucess, and_then, new_rtp, after_options, after_describe, after_setup, request_options,
  request_describe_media, request_setup_video,
}
use canok_rtsp_client.RtspClient.Requests.Good.{options_lines, setup_lines}

-- One of the two threads does not run.
abbrev pub LacksThread : RtpObject → Type 0
LacksThread o = (o.read_started ≡ false) ⊎ (o.parse_started ≡ false)

abbrev pub Idle : {K : Type 0} → Session K → Type 0
Idle s = (o : RtpObject) → s.rtp ≡ some o → LacksThread o

pub any-Returns : {S A : Type 0} (o : Outcome S A) → Returns (λ _ _. Unit) o
any-Returns (done a t) = tt
any-Returns (waits t) = tt
any-Returns fault = tt

pub same_object :
    (x o : RtpObject) → ◌≡◌ {A = Option RtpObject} (some x) (some o) → LacksThread x → LacksThread o
same_object x o e (inl h) = inl (cc (e, h))
same_object x o e (inr h) = inr (cc (e, h))

module _ {K : Type 0} (kernel : Kernel K) where
  -- A view that sees nothing, for which every kernel is quiet.
  blind : K → Unit {0}
  blind k = tt

  blind_sends : Bytes → Unit {0} → Unit {0}
  blind_sends b u = u

  blind-Quiet : Quiet kernel blind blind_sends
  unfolding blind blind_sends
  blind-Quiet = record {
    send_adds = λ fd b k. refl;
    recv_keeps = λ fd n k. refl;
    flags_keep = λ fd n k. refl;
    timeouts_keep = λ fd a b k. refl;
    rcvbuf_keeps = λ fd n k. refl;
    log_keeps = λ k. refl;
    create_keeps = λ k. refl;
    join_keeps = λ reads k. refl;
  }

  blind-Fixed : Fixed kernel blind
  unfolding blind
  blind-Fixed = record {
    socket_keeps = λ k. refl;
    signal_keeps = λ fd k. refl;
    bind_keeps = λ fd k. refl;
    connect_keeps = λ fd host port k. refl;
    close_keeps = λ fd k. refl;
  }

  kept : (s t : Session K) → t.rtp ≡ s.rtp → Idle s → Idle t
  kept s t e h o p = h o (sym e ∙ p)

  -- A call that starts no thread.
  abbrev pub StaysIdle : {A : Type 0} → M (Session K) A → Type 0
  StaysIdle m = (s : Session K) → Idle s → Returns (λ _ t. Idle t) (m s)

  bind-StaysIdle :
      {A B : Type 0} (m : M (Session K) A) (f : A → M (Session K) B)
      → StaysIdle m
      → ((a : A) → StaysIdle (f a))
      → StaysIdle (m >>= f)
  bind-StaysIdle m f h next s idle =
      Returns-bind (λ _ t. Idle t) (λ _ t. Idle t) m f s (h s idle) (λ a t i. next a t i)

  pure-StaysIdle : {A : Type 0} (a : A) → StaysIdle (pure a)
  pure-StaysIdle a s idle = idle

  or_fault-StaysIdle : {A : Type 0} (o : Option A) → StaysIdle (or_fault o)
  or_fault-StaysIdle none s idle = tt
  or_fault-StaysIdle (some a) s idle = idle

  if-StaysIdle :
      {A : Type 0} (b : Bool) (m n : M (Session K) A)
      → StaysIdle m
      → StaysIdle n
      → StaysIdle (if b then m else n)
  if-StaysIdle true m n h g = h
  if-StaysIdle false m n h g = g

  and_then-StaysIdle :
      (m next : M (Session K) ℤ) → StaysIdle m → StaysIdle next → StaysIdle (and_then m next)
  and_then-StaysIdle m next h g =
      bind-StaysIdle m (λ r. if is_sucess r then next else pure ret_err) h
        (λ r. if-StaysIdle (is_sucess r) next (pure ret_err) g (pure-StaysIdle ret_err))

  -- A method of the RTP client that leaves its object alone.
  on_rtp-StaysIdle :
      {A : Type 0} (m : M (Device K) A)
      → ((d : Device K) → Returns (λ _ e. e.object ≡ d.object) (m d))
      → StaysIdle (on_rtp m)
  on_rtp-StaysIdle m keeps s idle = by_object s.rtp refl
    where
      by_object : (o : Option RtpObject) → s.rtp ≡ o → Returns (λ _ t. Idle t) (on_object o m s)
      by_object none e = tt
      by_object (some x) e =
          Returns-zoom (λ _ t. Idle t) (λ _ d. d.object ≡ x) (load x) store m s
            (λ a d q o p. idle o (e ∙ ap some (sym q) ∙ p)) (keeps (load x s))

  pub send_lines-StaysIdle :
      (lines : List Bytes) (request : RequestType) → StaysIdle (send_lines kernel lines request)
  send_lines-StaysIdle lines request s idle =
      Returns-weaken _ _ (send_lines kernel lines request s)
        (λ r t (text, fits, q). kept s t q.rtp idle)
        (send_lines-Requested kernel blind blind_sends blind-Quiet lines request s)

  rtp_init-Idle :
      (raw : RawMemory) (ip : Bytes) (k : K)
      → Returns (λ r k'. r.1.read_started ≡ false) (rtp_init kernel raw ip k)
  unfolding rtp_init
  rtp_init-Idle raw ip k =
      by_size (increase_receive_buffer_to kernel fd 2000000 (udp_net_setup kernel k).1)
    where
      fd : ℤ
      fd = (udp_net_setup kernel k).0

      finish : ℕ × K → M K (ℤ × RtpObject)
      finish r =
          modify (λ k. r.1)
          >> pure (
            (udp_get_port kernel fd (pos 0) r.1).0,
            record {
              client = new_queues raw.raw_net raw.raw_h264;
              ser_ip = some ip;
              socket = fd;
              port = (udp_get_port kernel fd (pos 0) r.1).1;
              read_started = false;
              parse_started = false;
            },
          )

      by_size :
          (o : Option (ℕ × K))
          → Returns
              (λ r k'. r.1.read_started ≡ false)
              ((or_fault o >>= finish) (udp_net_setup kernel k).1)
      by_size none = tt
      by_size (some r) = refl

  new_rtp-StaysIdle : (raw : RawMemory) (ip : Bytes) → StaysIdle (new_rtp kernel raw ip)
  unfolding new_rtp
  new_rtp-StaysIdle raw ip s idle =
      Returns-bind (λ r t. r.1.read_started ≡ false) (λ _ t. Idle t)
        (on_system (rtp_init kernel raw ip)) stored s
        (Returns-zoom _ (λ r k. r.1.read_started ≡ false) (λ s. s.system)
          (λ k s. record s { system = k }) (rtp_init kernel raw ip) s (λ a k h. h)
          (rtp_init-Idle raw ip s.system))
        (λ r t h o e. same_object r.1 o e (inl h))
    where
      stored : ℤ × RtpObject → M (Session K) ℤ
      stored r = modify (λ s. record s { rtp = some r.1 }) >> pure r.0

  after_describe-StaysIdle : (raw : RawMemory) → StaysIdle (after_describe kernel raw)
  unfolding after_describe
  after_describe-StaysIdle raw s =
      if-StaysIdle (s.reply.respond_code == 200) (new_rtp kernel raw s.server.server_ip)
        (pure ret_err) (new_rtp-StaysIdle raw s.server.server_ip) (pure-StaysIdle ret_err) s

  after_setup-StaysIdle : StaysIdle (after_setup kernel)
  unfolding after_setup
  after_setup-StaysIdle s =
      if-StaysIdle (s.reply.respond_code == 200) (on_rtp (rtp_udp_connect kernel port))
        (pure ret_err)
        (on_rtp-StaysIdle (rtp_udp_connect kernel port) (λ d.
          Returns-weaken _ _ (rtp_udp_connect kernel port d) (λ r e q. q.1)
            (rtp_udp_connect_keeps kernel blind blind_sends blind-Quiet blind-Fixed port d)))
        (pure-StaysIdle ret_err) s
    where
      port : ℕ
      port = s.reply.setup.server_port_num

  pub request_options-StaysIdle : StaysIdle (request_options kernel)
  unfolding request_options after_options
  request_options-StaysIdle s =
      bind-StaysIdle (send_lines kernel (options_lines s.server.url s.cseq) request_option)
        (λ _. after_options >>= λ _. pure ret_sucess)
        (send_lines-StaysIdle (options_lines s.server.url s.cseq) request_option) (λ _ t idle. idle)
        s

  pub request_describe-StaysIdle : (raw : RawMemory) → StaysIdle (request_describe_media kernel raw)
  unfolding request_describe_media
  request_describe-StaysIdle raw s =
      and_then-StaysIdle _ (after_describe kernel raw) (send_lines-StaysIdle _ _)
        (after_describe-StaysIdle raw) s

  pub request_setup-StaysIdle : StaysIdle (request_setup_video kernel)
  unfolding request_setup_video rtp_get_udp_port
  request_setup-StaysIdle s =
      bind-StaysIdle (or_fault s.reply.media.control_path) asked
        (or_fault-StaysIdle s.reply.media.control_path)
        (λ path.
          bind-StaysIdle (on_rtp (rtp_get_udp_port kernel)) (sent path)
            (on_rtp-StaysIdle (rtp_get_udp_port kernel) (λ d. refl))
            (λ port.
              and_then-StaysIdle (send_lines kernel (setup_lines path s.cseq port) request_setup)
                (after_setup kernel) (send_lines-StaysIdle _ _) after_setup-StaysIdle))
        s
    where
      sent : Bytes → ℤ → M (Session K) ℤ
      sent path port =
          and_then (send_lines kernel (setup_lines path s.cseq port) request_setup)
            (after_setup kernel)

      asked : Bytes → M (Session K) ℤ
      asked path = on_rtp (rtp_get_udp_port kernel) >>= sent path
