-- ===== src/RtspClient/Api.antt =====
-- The public methods of the class cRTSPClient, my_rtsp_client/cRTSPClient.cpp.
pub mod Stages
pub mod Order
pub mod Idle
pub mod Fails
pub mod End
pub mod Steps
pub mod Success
mod Tests
use canok_rtsp_client.Base.{
  ℕ, ◌==◌, if◌then◌else◌, Bool, true, false, Option, none, some, Bytes, [],
}
use canok_rtsp_client.Base.Int.{ℤ, pos, negsuc}
use canok_rtsp_client.Base.Outcome.{M, done, fault, ◌>>=◌, ◌>>◌, pure, get, modify, zoom}
use canok_rtsp_client.Macros.{ret_sucess, ret_err}
use canok_rtsp_client.Net.{Kernel, tcp_net_conncet}
use canok_rtsp_client.Queue.{Lease}
use canok_rtsp_client.RtpClient.{
  RtpClient, rtp_request_frame_buffer, rtp_release_buffer, rtp_get_frame,
}
use canok_rtsp_client.RtpClient.Lifecycle.{RtpObject, Device, RawMemory, call, rtp_deinit}
use canok_rtsp_client.RtspClient.{parse_rtsp_url}
use canok_rtsp_client.RtspClient.Session.{Session, on_system, on_server, on_rtp}
use canok_rtsp_client.RtspClient.Requests.{
  and_then, request_options, request_describe_media, request_setup_video, request_play_stream,
}

pub is_minus_one : ℤ → Bool
is_minus_one (pos n) = false
is_minus_one (negsuc n) = n == 0

unfoldable pub with_buffer : Option Bytes → Option Bytes → Option Bytes
with_buffer raw none = raw
with_buffer raw (some b) = some b

module _ {K : Type 0} where
  -- The client of `pRTP`.
  abbrev pub on_client : {A : Type 0} → M RtpClient A → M (Device K) A
  on_client =
      zoom (λ d. d.object.client) (λ c d. record d { object = record (d.object) { client = c } })

  pub rtp_buffer_of : Option RtpObject → Option Bytes → ℤ → M (Session K) Lease
  rtp_buffer_of none pdata len = pure (record { index = ret_err; pdata = pdata; plen = len })
  rtp_buffer_of (some o) pdata len = on_rtp (on_client rtp_request_frame_buffer)

  -- `api_requestFrameBuffer(&pdata, &len)`, with the values of both before the call.
  unfoldable pub api_request_frame_buffer : Option Bytes → ℤ → M (Session K) Lease
  unfolding rtp_buffer_of
  api_request_frame_buffer pdata len = do s ← get; rtp_buffer_of s.rtp pdata len

  pub rtp_release_of : Option RtpObject → ℤ → M (Session K) ℤ
  rtp_release_of none i = pure ret_err
  rtp_release_of (some o) i = do n ← on_rtp (on_client (rtp_release_buffer i)); pure (pos n)

  unfoldable pub api_release_buffer : ℤ → M (Session K) ℤ
  unfolding rtp_release_of
  api_release_buffer i = do s ← get; rtp_release_of s.rtp i

  pub rtp_frame_of : Option RtpObject → Option Bytes → ℤ → M (Session K) (ℤ × Option Bytes)
  rtp_frame_of none buf len = pure (ret_err, buf)
  rtp_frame_of (some o) buf len = on_rtp (on_client (rtp_get_frame buf len))

  -- `api_getFrame(data, len)`, with the buffer at `data`.
  unfoldable pub api_get_frame : Option Bytes → ℤ → M (Session K) (ℤ × Option Bytes)
  unfolding rtp_frame_of
  api_get_frame buf len = do s ← get; rtp_frame_of s.rtp buf len

module _ {K : Type 0} (kernel : Kernel K) where
  -- `fopen` of the log, unless it is open.
  unfoldable pub open_log : Option Bytes → M (Session K) Bool
  open_log (some text) = pure true
  open_log none = do
    ok ← on_system (call kernel.open_log)
    modify (λ s. record s { log = if ok then some [] else none })
    pure ok

  unfoldable pub connect : M (Session K) ℤ
  unfolding is_minus_one
  connect = do
    s ← get
    fd ← on_system (call (tcp_net_conncet kernel s.server.server_ip s.server.server_port))
    modify (λ s. record s { socket = fd })
    pure (if is_minus_one fd then ret_err else ret_sucess)

  -- The chain of `if`s: every step must return RET_SUCESS.
  unfoldable pub run_session : RawMemory → Bytes → M (Session K) ℤ
  run_session raw url = and_then (on_server (parse_rtsp_url url)) (
      and_then connect (
        and_then (request_options kernel) (
          and_then (request_describe_media kernel raw)
            (and_then (request_setup_video kernel) (request_play_stream kernel)))))

  -- `api_init(url)`. `buffer` is what malloc gives for `m_rtsp_buffer`; where it gives none, the code goes
  -- on.
  unfoldable pub api_init : RawMemory → Option Bytes → Bytes → M (Session K) ℤ
  api_init raw buffer url = do
    s ← get
    opened ← open_log s.log
    if opened
        then (modify (λ s. record s { rtsp_buffer = with_buffer buffer s.rtsp_buffer })
            >> run_session raw url)
        else pure ret_err

  -- `fclose` takes no NULL.
  pub close_log : Option Bytes → M (Session K) (Unit {0})
  close_log none = λ s. fault
  close_log (some text) = modify (λ s. record s { log = none })

  pub end_rtp : Option RtpObject → M (Session K) (Unit {0})
  end_rtp none = pure tt
  end_rtp (some o) = do _ ← on_rtp (rtp_deinit kernel); modify (λ s. record s { rtp = none })

  unfoldable pub api_deinit : M (Session K) ℤ
  unfolding close_log end_rtp
  api_deinit = do
    s ← get
    _ ← on_system (call (kernel.close s.socket))
    close_log s.log
    modify (λ s. record s { rtsp_buffer = none })
    end_rtp s.rtp
    pure ret_sucess
