-- ===== src/RtspClient/Api/Steps.antt =====
-- The four requests of a session of my_rtsp_client/cRTSPClient.cpp, on a system that refuses nothing and to a
-- server that answers: each one succeeds and leaves a session that is ready for the next.
use canok_rtsp_client.Base.{
  ℕ, suc, ◌+◌, ◌<◌, ◌≤◌, ◌==◌, ◌≡◌, refl, sym, ap, ◌∙◌, subst, if◌then◌else◌, some, Bytes, [],
  arith, length,
}
use canok_rtsp_client.Base.Int.{ℤ, pos}
use canok_rtsp_client.Base.Outcome.{
  M, done, ◌>>=◌, ◌>>◌, pure, modify, or_fault, bind_done, zoom_done,
}
use canok_rtsp_client.Macros.{ret_sucess, ret_err}
use canok_rtsp_client.Net.{Kernel}
use canok_rtsp_client.Net.Willing.{Willing}
use canok_rtsp_client.Protocol.{
  ReplyInfo, request_option, request_describe, request_setup, request_play,
}
use canok_rtsp_client.Protocol.Buffer.{message}
use canok_rtsp_client.RtpClient.Lifecycle.{
  RtpObject, Device, RawMemory, rtp_init, rtp_start, rtp_udp_connect, rtp_get_udp_port,
}
use canok_rtsp_client.RtpClient.Lifecycle.Success.{
  IsSetUp, rtp_init_lem, rtp_udp_connect_lem, rtp_start_lem,
}
use canok_rtsp_client.RtspClient.{Server}
use canok_rtsp_client.RtspClient.Session.{
  Session, on_system, on_rtp, on_object, load, store, send_lines,
}
use canok_rtsp_client.RtspClient.Session.Answers.{Answer, IsAnswered, send_lines-IsAnswered}
use canok_rtsp_client.RtspClient.Requests.{
  is_sucess, and_then, after_options, new_rtp, after_describe, after_setup, after_play,
  request_options, request_describe_media, request_setup_video, request_play_stream,
}
use canok_rtsp_client.RtspClient.Requests.Good.{
  options_lines, describe_lines, setup_lines, play_lines,
}
use canok_rtsp_client.RtspClient.Requests.Fits.{requests_fit}

abbrev pub Anything : ReplyInfo → Type 0
Anything r = Unit

-- A video track was found, with a control path that fits into a request.
abbrev pub HasTrack : ReplyInfo → Type 0
HasTrack r = (path : Bytes) × (r.media.control_path ≡ some path) × (length path ≤ 150)

abbrev pub HasSession : ReplyInfo → Type 0
HasSession r = length r.setup.session_id ≤ 63

-- A server that answers each of the four requests, whatever has happened before.
pub record Obliging {K : Type 0} (kernel : Kernel K) : Type 0 where
  pub options :
      (fd : ℤ) (k : K) (url : Bytes) (n : ℕ)
      → Answer kernel fd k request_option n Anything (message (options_lines url n))
  pub describe :
      (fd : ℤ) (k : K) (url : Bytes) (n : ℕ)
      → Answer kernel fd k request_describe n HasTrack (message (describe_lines url n))
  pub setup :
      (fd : ℤ) (k : K) (path : Bytes) (n : ℕ) (port : ℤ)
      → Answer kernel fd k request_setup n HasSession (message (setup_lines path n port))
  pub play :
      (fd : ℤ) (k : K) (url : Bytes) (n : ℕ) (id : Bytes)
      → Answer kernel fd k request_play n Anything (message (play_lines url n id))

-- A session that can send `n` more requests.
pub record IsReady {K : Type 0} (n : ℕ) (s : Session K) : Type 0 where
  pub short : length s.server.url ≤ 127
  pub room : s.send.send_len ≡ 256
  pub buffer : Bytes
  pub ready : s.rtsp_buffer ≡ some buffer
  pub small : s.cseq + n < 4294967296

pub and_then-done :
    {S : Type 0} (m next : M S ℤ) {s t : S} → m s ≡ done ret_sucess t → and_then m next s ≡ next t
unfolding is_sucess
and_then-done m next {s} {t} e =
    bind_done m (λ r. if is_sucess r then next else pure ret_err) {s = s} e

module _ {K : Type 0} where
  on_rtp_done :
      {A : Type 0} (m : M (Device K) A) (s : Session K) (o : RtpObject) {a : A} {d : Device K}
      → s.rtp ≡ some o
      → m (load o s) ≡ done a d
      → on_rtp m s ≡ done a (store d s)
  on_rtp_done m s o e run = ap (λ x. on_object x m s) e ∙ zoom_done (load o) store m {s = s} run

  IsAnswered-IsReady :
      {P : ReplyInfo → Type 0} {n : ℕ} {s t : Session K}
      → IsReady (suc n) s
      → IsAnswered P s t
      → IsReady n t
  IsAnswered-IsReady {n = n} {s = s} {t = t} r a = record {
    short =
        subst (λ (v : Bytes). length v ≤ 127) (sym (ap (λ (x : Server). x.url) a.server)) r.short;
    room = a.room ∙ r.room;
    buffer = a.buffer;
    ready = a.ready;
    small = omega (arith, a.cseq, r.small);
  }

  -- The session `s` without a name, to which only the bounds on the address and the number matter.
  abbrev nameless : Session K → Session K
  nameless s = record s {
    reply = record (s.reply) { setup = record { server_port_num = 0; session_id = [] } };
  }

module _ {K : Type 0} (kernel : Kernel K) (willing : Willing kernel)
    (server : Obliging kernel) where
  pub request_options-IsReady :
      {n : ℕ} (s : Session K)
      → IsReady (suc n) s
      → (t : Session K) × (request_options kernel s ≡ done ret_sucess t) × IsReady n t
  unfolding request_options after_options
  request_options-IsReady {n} s r =
      let fits =
        (requests_fit (nameless s) [] (pos 0) r.short (omega arith) (omega arith)
          (omega (arith, r.small)) (omega arith) (omega arith)).0 in
      let (t, run, a) =
        send_lines-IsAnswered kernel request_option Anything (options_lines s.server.url s.cseq) s
          r.ready (omega (arith, fits, r.room))
          (server.options s.socket s.system s.server.url s.cseq) in
      (
        t,
        bind_done (send_lines kernel (options_lines s.server.url s.cseq) request_option)
            (λ _. after_options >>= λ _. pure ret_sucess) {s = s} run,
        IsAnswered-IsReady r a,
      )

  code_200 :
      (m n : M (Session K) ℤ) (s : Session K)
      → s.reply.respond_code ≡ 200
      → (if s.reply.respond_code == 200 then m else n) s ≡ m s
  code_200 m n s code = ap (λ (c : ℕ). (if c == 200 then m else n) s) code

  pub request_describe-IsReady :
      {n : ℕ} (raw : RawMemory) (s : Session K)
      → IsReady (suc n) s
      → (t : Session K) × (request_describe_media kernel raw s ≡ done ret_sucess t)
        × IsReady n t
        × HasTrack t.reply
        × ((o : RtpObject) × (t.rtp ≡ some o) × IsSetUp o)
  unfolding request_describe_media after_describe new_rtp
  request_describe-IsReady {n} raw s r =
      let fits =
        (requests_fit (nameless s) [] (pos 0) r.short (omega arith) (omega arith)
          (omega (arith, r.small)) (omega arith) (omega arith)).1 in
      let (u, run, a) =
        send_lines-IsAnswered kernel request_describe HasTrack (describe_lines s.server.url s.cseq)
          s r.ready (omega (arith, fits, r.room))
          (server.describe s.socket s.system s.server.url s.cseq) in
      let (o, k, made, set) = rtp_init_lem kernel willing raw u.server.server_ip u.system in
      let ready = IsAnswered-IsReady r a in
      (
        record u { rtp = some o; system = k },
        and_then-done (send_lines kernel (describe_lines s.server.url s.cseq) request_describe)
              (after_describe kernel raw) {s = s} run
            ∙ code_200 (new_rtp kernel raw u.server.server_ip) (pure ret_err) u a.code
            ∙ bind_done (on_system (rtp_init kernel raw u.server.server_ip))
                (λ x. modify (λ s. record s { rtp = some x.1 }) >> pure x.0) {s = u}
                (zoom_done (λ s. s.system) (λ k s. record s { system = k })
                  (rtp_init kernel raw u.server.server_ip) {s = u} made),
        record {
          short = ready.short;
          room = ready.room;
          buffer = ready.buffer;
          ready = ready.ready;
          small = ready.small;
        },
        a.stored,
        (o, refl, set),
      )

  pub request_setup-IsReady :
      {n : ℕ} (s : Session K) (o : RtpObject)
      → IsReady (suc n) s
      → HasTrack s.reply
      → s.rtp ≡ some o
      → IsSetUp o
      → (t : Session K) × (request_setup_video kernel s ≡ done ret_sucess t)
        × IsReady n t
        × HasSession t.reply
        × (t.rtp ≡ some o)
  unfolding request_setup_video after_setup rtp_get_udp_port
  request_setup-IsReady {n} s o r (path, track, short_path) e set =
      let s' = store (load o s) s in
      let fits =
        (requests_fit (nameless s) path o.port r.short (omega arith) short_path
          (omega (arith, r.small)) set.port.0 set.port.1).2 in
      let (u, run, a) =
        send_lines-IsAnswered kernel request_setup HasSession (setup_lines path s.cseq o.port) s'
          r.ready (omega (arith, fits, r.room))
          (server.setup s.socket s.system path s.cseq o.port) in
      let (k, joined) =
        rtp_udp_connect_lem kernel willing u.reply.setup.server_port_num (load o u) set in
      let ready =
        IsAnswered-IsReady {s = s'}
          (record {
            short = r.short;
            room = r.room;
            buffer = r.buffer;
            ready = r.ready;
            small = r.small;
          })
          a in
      (
        record u { rtp = some o; system = k },
        ap
              (λ x.
                (or_fault x >>= λ path.
                on_rtp (rtp_get_udp_port kernel) >>= λ port. exchange path port)
                  s)
              track
            ∙ bind_done (on_rtp (rtp_get_udp_port kernel)) (exchange path) {s = s}
                (on_rtp_done (rtp_get_udp_port kernel) s o e refl)
            ∙ and_then-done (send_lines kernel (setup_lines path s.cseq o.port) request_setup)
                (after_setup kernel) {s = s'} run
            ∙ code_200 (on_rtp (rtp_udp_connect kernel u.reply.setup.server_port_num))
                (pure ret_err) u a.code
            ∙ on_rtp_done (rtp_udp_connect kernel u.reply.setup.server_port_num) u o a.rtp joined,
        record {
          short = ready.short;
          room = ready.room;
          buffer = ready.buffer;
          ready = ready.ready;
          small = ready.small;
        },
        a.stored,
        refl,
      )
    where
      exchange : Bytes → ℤ → M (Session K) ℤ
      exchange path port =
          and_then (send_lines kernel (setup_lines path s.cseq port) request_setup)
            (after_setup kernel)

  pub request_play_lem :
      {n : ℕ} (s : Session K) (o : RtpObject)
      → IsReady (suc n) s
      → HasSession s.reply
      → s.rtp ≡ some o
      → (t : Session K) × (request_play_stream kernel s ≡ done ret_sucess t)
  unfolding request_play_stream after_play
  request_play_lem {n} s o r named e =
      let lines = play_lines s.server.url s.cseq s.reply.setup.session_id in
      let fits =
        (requests_fit s [] (pos 0) r.short named (omega arith) (omega (arith, r.small))
          (omega arith) (omega arith)).3 in
      let (u, run, a) =
        send_lines-IsAnswered kernel request_play Anything lines s r.ready
          (omega (arith, fits, r.room))
          (server.play s.socket s.system s.server.url s.cseq s.reply.setup.session_id) in
      let (d, started) = rtp_start_lem kernel willing (load o u) in
      (
        store d u,
        and_then-done (send_lines kernel lines request_play) (after_play kernel) {s = s} run
            ∙ on_rtp_done (rtp_start kernel) u o (a.rtp ∙ e) started,
      )
