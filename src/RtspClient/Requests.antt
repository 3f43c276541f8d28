-- ===== src/RtspClient/Requests.antt =====
-- The requests of the class cRTSPClient, my_rtsp_client/cRTSPClient.cpp: their text, and what follows their
-- replies. The `after_` methods are those of the class itself.
pub mod Progress
pub mod Good
pub mod Steps
pub mod Fits
use canok_rtsp_client.Base.{
  ℕ, ◌+◌, ◌==◌, if◌then◌else◌, Bool, true, false, Option, none, some, Bytes, List, [], ◌∷◌, ◌++◌,
  take,
}
use canok_rtsp_client.Base.Int.{ℤ, pos, negsuc, ◌+ℤ◌}
use canok_rtsp_client.Base.Outcome.{M, fault, ◌>>=◌, ◌>>◌, pure, get, modify, or_fault}
use canok_rtsp_client.Macros.{ret_sucess, ret_err}
use canok_rtsp_client.Text.{codes}
use canok_rtsp_client.Text.Print.{print_nat, print_int}
use canok_rtsp_client.Net.{Kernel}
use canok_rtsp_client.Protocol.{
  RequestType, request_option, request_describe, request_setup, request_play, request_pause,
  request_teardown,
}
use canok_rtsp_client.RtpClient.Lifecycle.{
  RtpObject, RawMemory, rtp_init, rtp_start, rtp_get_udp_port, rtp_udp_connect,
}
use canok_rtsp_client.RtspClient.Session.{Session, on_system, on_rtp, send_lines}

-- `snprintf` into `buf`, of 256 bytes.
abbrev pub printed : Bytes → Bytes
printed text = take 255 text

-- "NAME url RTSP/1.0".
abbrev pub request_line : Bytes → Bytes → Bytes
request_line name url = printed (name ++ (codes " " ++ (url ++ codes " RTSP/1.0")))

abbrev pub cseq_line : ℕ → Bytes
cseq_line n = printed (codes "CSeq:" ++ print_nat n)

abbrev pub session_line : Bytes → Bytes
session_line id = printed (codes "Session:" ++ id)

abbrev pub transport_line : ℤ → Bytes
transport_line port = printed (
    codes "Transport:RTP/AVP;unicast;client_port="
    ++ (print_int port ++ (codes "-" ++ print_int (port +ℤ pos 1))))

unfoldable pub is_sucess : ℤ → Bool
is_sucess (pos n) = n == 0
is_sucess (negsuc n) = false

-- `RET_SUCESS == first`, then the second call; RET_ERR otherwise.
abbrev pub and_then : {S : Type 0} → M S ℤ → M S ℤ → M S ℤ
and_then m next = m >>= λ r. if is_sucess r then next else pure ret_err

module _ {K : Type 0} where
  unfoldable pub after_options : M (Session K) ℤ
  after_options = pure ret_sucess

  unfoldable pub after_pause : M (Session K) ℤ
  after_pause = pure ret_sucess

  unfoldable pub after_teardown : M (Session K) ℤ
  after_teardown = pure ret_sucess

  -- The lines of PAUSE and TEARDOWN.
  pub session_lines : Bytes → Session K → List Bytes
  session_lines name s =
      request_line name s.server.url ∷ cseq_line s.cseq ∷ session_line s.reply.setup.session_id ∷ []

module _ {K : Type 0} (kernel : Kernel K) where
  -- The RTP client of the object before is not freed.
  unfoldable pub new_rtp : RawMemory → Bytes → M (Session K) ℤ
  new_rtp raw ip = do
    (ret, o) ← on_system (rtp_init kernel raw ip)
    modify (λ s. record s { rtp = some o })
    pure ret

  unfoldable pub after_describe : RawMemory → M (Session K) ℤ
  after_describe raw = do
    s ← get
    if s.reply.respond_code == 200 then new_rtp raw s.server.server_ip else pure ret_err

  unfoldable pub after_setup : M (Session K) ℤ
  after_setup = do
    s ← get
    if s.reply.respond_code == 200
        then on_rtp (rtp_udp_connect kernel s.reply.setup.server_port_num)
        else pure ret_err

  unfoldable pub after_play : M (Session K) ℤ
  after_play = on_rtp (rtp_start kernel)

  -- The result of the request does not matter.
  unfoldable pub request_options : M (Session K) ℤ
  request_options = do
    s ← get
    _ ←
        send_lines kernel (request_line (codes "OPTIONS") s.server.url ∷ cseq_line s.cseq ∷ [])
          request_option
    _ ← after_options
    pure ret_sucess

  unfoldable pub request_describe_media : RawMemory → M (Session K) ℤ
  request_describe_media raw = do
    s ← get
    and_then
        (send_lines kernel (request_line (codes "DESCRIBE") s.server.url ∷ cseq_line s.cseq ∷ [])
          request_describe)
        (after_describe raw)

  -- A control path that is NULL is not a string to print.
  unfoldable pub request_setup_video : M (Session K) ℤ
  request_setup_video = do
    s ← get
    path ← or_fault s.reply.media.control_path
    port ← on_rtp (rtp_get_udp_port kernel)
    and_then
        (send_lines kernel
          (request_line (codes "SETUP") path ∷ cseq_line s.cseq ∷ transport_line port ∷ [])
          request_setup)
        after_setup

  unfoldable pub request_play_stream : M (Session K) ℤ
  request_play_stream = do
    s ← get
    and_then
        (send_lines kernel
          (request_line (codes "PLAY") s.server.url
            ∷ cseq_line s.cseq
            ∷ codes "nRange:npt=0.000-"
            ∷ session_line s.reply.setup.session_id
            ∷ [])
          request_play)
        after_play

  unfoldable pub request_pause_stream : M (Session K) ℤ
  request_pause_stream = do
    s ← get
    and_then (send_lines kernel (session_lines (codes "PAUSE") s) request_pause) after_pause

  unfoldable pub request_teardown_stream : M (Session K) ℤ
  request_teardown_stream = do
    s ← get
    and_then (send_lines kernel (session_lines (codes "TEARDOWN") s) request_teardown)
        after_teardown
