-- ===== src/RtspClient/Api/Tests.antt =====
-- A system that refuses nothing, with a server that gives one reply to every request, and `api_init` of
-- my_rtsp_client/cRTSPClient.cpp on it.
use canok_rtsp_client.Base.{
  ◌≡◌, refl, if◌then◌else◌, Bool, true, false, some, none, Bytes, [], ◌∷◌, ◌++◌, replicate, arith,
}
use canok_rtsp_client.Base.Int.{ℤ, pos, negsuc}
use canok_rtsp_client.Base.Outcome.{done}
use canok_rtsp_client.Macros.{ret_sucess}
use canok_rtsp_client.Text.{codes, starts_with_case, scan_until}
use canok_rtsp_client.Net.{Kernel, write_socket, make_socket_blocking}
use canok_rtsp_client.Net.Willing.{Willing}
use canok_rtsp_client.Protocol.Buffer.{message}
use canok_rtsp_client.Protocol.Reply.{parse}
use canok_rtsp_client.Protocol.Sdp.{parse_sdp}
use canok_rtsp_client.Protocol.Transport.{parse_transport_params}
use canok_rtsp_client.RtpClient.Lifecycle.{RawMemory}
use canok_rtsp_client.RtspClient.{parse_rtsp_url, scan_ip}
use canok_rtsp_client.RtspClient.Session.{Session}
use canok_rtsp_client.RtspClient.Session.Pieces.{Receives, all_read, timed_out, arrived}
use canok_rtsp_client.RtspClient.Api.{api_init}
use canok_rtsp_client.RtspClient.Api.Steps.{Obliging}
use canok_rtsp_client.RtspClient.Api.Success.{api_init_succeeds}

-- It fits every request.
abbrev reply_text : Bytes
reply_text =
    message (
      codes "RTSP/1.0 200 OK"
      ∷ codes "Session: 12345"
      ∷ codes "Transport: RTP/AVP;server_port=60-61"
      ∷ [])
    ++ (codes "m=video 0 RTP/AVP 96" ++ (10 ∷ (codes "a=control:trackID=0" ++ (10 ∷ []))))

-- The state is whether a request waits for its reply.
abbrev server : Kernel Bool
server = record {
  socket = λ w. (pos 3, w);
  set_no_signal = λ fd w. w;
  bind_any = λ fd w. (pos 0, w);
  connect = λ fd host port w. (pos 0, w);
  close = λ fd w. (pos 0, w);
  sock_port = λ fd w. some 14875;
  rcvbuf = λ fd w. some 212992;
  set_rcvbuf = λ fd n w. (true, w);
  recv = λ fd n w. (if w then some reply_text else none, false);
  send = λ fd b w. (pos 0, true);
  get_flags = λ fd w. 2;
  set_flags = λ fd n w. (true, w);
  set_timeouts = λ fd seconds micros w. w;
  open_log = λ w. (true, w);
  create_thread = λ w. (true, w);
  join_thread = λ reads w. (true, w);
}

server-Willing : Willing server
server-Willing = record {
  opens_log = λ k. refl;
  has_sockets = λ k. (3, refl);
  binds = λ fd k. refl;
  connects = λ fd host port k. refl;
  knows_port = λ fd k. (14875, refl, omega arith);
  creates = λ k. refl;
}

reply_arrives :
    (fd : ℤ) (sent : Bytes) (k : Bool)
    → Receives server fd 5 0
        (make_socket_blocking server fd 50 (write_socket server fd sent k).1).1
        reply_text
        false
unfolding make_socket_blocking write_socket
reply_arrives fd sent k =
    arrived reply_text refl (omega arith)
      (timed_out refl (timed_out refl (timed_out refl (timed_out refl all_read))))

server-Obliging : Obliging server
unfolding parse parse_sdp parse_transport_params
server-Obliging = record {
  options = λ fd k url n. record {
    text = reply_text;
    after = false;
    received = reply_arrives fd _ k;
    accepted = λ reply. (record reply { respond_code = 200 }, refl, tt);
  };
  describe = λ fd k url n. record {
    text = reply_text;
    after = false;
    received = reply_arrives fd _ k;
    accepted = λ reply. (
      record reply {
        respond_code = 200;
        media = record { control_path = some (codes "trackID=0"); multiplex_rtcp_with_rtp = false };
      },
      refl,
      (codes "trackID=0", refl, omega arith),
    );
  };
  setup = λ fd k path n port. record {
    text = reply_text;
    after = false;
    received = reply_arrives fd _ k;
    accepted = λ reply. (
      record reply {
        respond_code = 200;
        setup = record { server_port_num = 60; session_id = codes "12345" };
      },
      refl,
      omega arith,
    );
  };
  play = λ fd k url n id. record {
    text = reply_text;
    after = false;
    received = reply_arrives fd _ k;
    accepted = λ reply. (record reply { respond_code = 200 }, refl, tt);
  };
}

abbrev main_address : Bytes
main_address = codes "rtsp://127.0.0.1:8989/stream"

abbrev new : Session Bool
new = record {
  server = record { url = []; server_ip = []; server_port = 0 };
  cseq = 1;
  socket = negsuc 0;
  log = none;
  rtsp_buffer = none;
  send = record { send_buf = replicate 256 0; send_len = 256; send_offset = 0 };
  reply = record {
    respond_code = 0;
    media = record { control_path = none; multiplex_rtcp_with_rtp = false };
    setup = record { server_port_num = 0; session_id = [] };
  };
  rtp = none;
  system = false;
}

abbrev raw : RawMemory
raw = record { raw_net = λ i. (pos 0, []); raw_h264 = λ i. (pos 0, []) }

api_init_succeeds_example :
    (t : Session Bool) × (api_init server raw (some (replicate 2048 0)) main_address new
      ≡ done ret_sucess t)
unfolding parse_rtsp_url starts_with_case scan_until scan_ip
api_init_succeeds_example =
    api_init_succeeds server server-Willing server-Obliging raw (replicate 2048 0) main_address new
      (record { url = main_address; server_ip = codes "127.0.0.1"; server_port = 8989 }) refl refl
      (omega arith)
