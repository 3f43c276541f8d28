-- ===== src/RtspClient/Runs.antt =====
-- Runs of a whole session, and the theorems on it at concrete inputs.
use canok_rtsp_client.Base.{
  ℕ, ◌+◌, ◌≤◌, ◌≡◌, ◌≢◌, refl, true, false, Option, none, some, Bytes, List, [], ◌∷◌, ◌++◌, arith,
  length, take, drop, replicate,
}
use canok_rtsp_client.Base.Int.{ℤ, pos, negsuc, ◌+ℤ◌}
use canok_rtsp_client.Base.Outcome.{Outcome, done}
use canok_rtsp_client.Macros.{ret_sucess, ret_err}
use canok_rtsp_client.Text.{codes}
use canok_rtsp_client.Protocol.{request_setup}
use canok_rtsp_client.Protocol.Buffer.{message}
use canok_rtsp_client.RtpClient.Lifecycle.{RawMemory, RtpObject}
use canok_rtsp_client.RtspClient.Session.{Session}
use canok_rtsp_client.RtspClient.Session.Pieces.{all_read, timed_out, arrived, answered}
use canok_rtsp_client.RtspClient.Session.Setup.{rtsp_request-setup}
use canok_rtsp_client.Protocol.Reply.SetupText.{setup_text}
use canok_rtsp_client.Protocol.Lines.{is_blank}
use canok_rtsp_client.Protocol.Tests.{port_found, good_reply}
use canok_rtsp_client.RtspClient.World.{
  World, world, what_was_sent, one_more, world-Quiet, world-Fixed,
}
use canok_rtsp_client.RtspClient.Api.{api_init, open_log, with_buffer, run_session, connect}
use canok_rtsp_client.Text.{starts_with_case, scan_until}
use canok_rtsp_client.Text.Print.{print_nat, print_int}
use canok_rtsp_client.RtspClient.{parse_rtsp_url, scan_ip}
use canok_rtsp_client.RtspClient.Requests.{
  request_options, request_describe_media, request_setup_video, request_play_stream, is_sucess,
  after_options, after_describe, after_setup, after_play, new_rtp,
}
use canok_rtsp_client.RtspClient.Session.{send_lines, rtsp_request}
use canok_rtsp_client.Protocol.{begain_cmd, add_line_cmd, end_cmd}
use canok_rtsp_client.Protocol.Build.{build, add_lines}
use canok_rtsp_client.Protocol.Reply.{parse}
use canok_rtsp_client.Protocol.Sdp.{parse_sdp}
use canok_rtsp_client.Protocol.Transport.{parse_transport_params}
use canok_rtsp_client.Net.{
  tcp_net_conncet, write_socket, read_socket, make_socket_blocking, udp_net_setup,
  increase_receive_buffer_to, get_receive_buffer_size, udp_get_port, udp_connect,
}
use canok_rtsp_client.RtpClient.{new_queues}
use canok_rtsp_client.RtpClient.Lifecycle.{rtp_init, rtp_get_udp_port, rtp_udp_connect, rtp_start}
use canok_rtsp_client.Queue.{create}
use canok_rtsp_client.RtspClient.Api.Order.{api_init-order}
use canok_rtsp_client.RtspClient.Api.Stages.{InPlay}
use canok_rtsp_client.RtspClient.Api.{api_deinit}
use canok_rtsp_client.RtspClient.Api.Idle.{LacksThread}
use canok_rtsp_client.RtspClient.Api.End.{api_deinit-api_init}
use canok_rtsp_client.RtspClient.Requests.{session_lines, cseq_line, transport_line}
use canok_rtsp_client.RtspClient.Requests.Good.{
  options_lines, describe_lines, setup_lines, play_lines,
}
use canok_rtsp_client.RtspClient.Requests.Fits.{requests_fit, request_setup_drops_line}

abbrev raw : RawMemory
raw = record { raw_net = λ i. (pos 0, []); raw_h264 = λ i. (pos 0, []) }

abbrev url : Bytes
url = codes "rtsp://127.0.0.1:8989/stream"

abbrev answer : ℕ → List Bytes → Bytes
answer n more = message (codes "RTSP/1.0 200 OK" ∷ ((codes "CSeq: ") ++ ((b'0' + n) ∷ [])) ∷ more)

abbrev media : Bytes
media =
    codes "v=0"
    ++ (10 ∷ (codes "m=video 0 RTP/AVP 96" ++ (10 ∷ (codes "a=control:trackID=0" ++ (10 ∷ [])))))

-- One read has the answer, the other four nothing.
abbrev read_once : Bytes → List (Option Bytes) → List (Option Bytes)
read_once a rest = some a ∷ none ∷ none ∷ none ∷ none ∷ rest

abbrev start : Session World
start = record {
  server = record { url = []; server_ip = []; server_port = 0 };
  cseq = 1;
  socket = negsuc 0;
  log = none;
  rtsp_buffer = none;
  send = record { send_buf = replicate 256 0; send_len = 256; send_offset = 0 };
  reply = record {
    respond_code = 0;
    media = record { control_path = none; multiplex_rtcp_with_rtp = false };
    setup = record { server_port_num = 0; session_id = [] };
  };
  rtp = none;
  system = record {
    sent = [];
    answers = read_once (answer 1 []) (
        read_once (answer 2 [] ++ media) (
          read_once
            (answer 3 (codes "Session: 12345" ∷ codes "Transport: RTP/AVP;server_port=60-61" ∷ []))
            (read_once (answer 4 []) [])));
    ends = true;
  };
}

abbrev after : Outcome (Session World) ℤ → Session World
after (done r t) = t
after _ = start

abbrev played : Session World
played = after (api_init world raw (some (replicate 2048 0)) url start)

-- The same session, with a server that refuses PLAY.
abbrev refusing : Session World
refusing = record start {
  system = record (start.system) {
    answers = read_once (answer 1 []) (
        read_once (answer 2 [] ++ media) (
          read_once
            (answer 3 (codes "Session: 12345" ∷ codes "Transport: RTP/AVP;server_port=60-61" ∷ []))
            (read_once (message (codes "RTSP/1.0 404 Not Found" ∷ codes "CSeq: 4" ∷ [])) [])));
  };
}

abbrev refused : Session World
refused = after (api_init world raw (some (replicate 2048 0)) url refusing)

abbrev object_of : Option RtpObject → RtpObject
object_of (some o) = o
object_of none = record {
  client = new_queues raw.raw_net raw.raw_h264;
  ser_ip = none;
  socket = negsuc 0;
  port = pos 0;
  read_started = false;
  parse_started = false;
}

-- The whole session succeeds; when PLAY is refused it fails, and leaves an RTP client.
runs :
    (api_init world raw (some (replicate 2048 0)) url start ≡ done ret_sucess played)
    × (api_init world raw (some (replicate 2048 0)) url refusing ≡ done ret_err refused)
    × (refused.rtp ≡ some (object_of refused.rtp))
unfolding api_init open_log with_buffer run_session parse_rtsp_url starts_with_case scan_until
    scan_ip connect tcp_net_conncet request_options request_describe_media request_setup_video
    request_play_stream is_sucess send_lines build begain_cmd add_lines add_line_cmd end_cmd
    print_nat print_int rtsp_request write_socket read_socket make_socket_blocking parse
    after_options after_describe after_setup after_play new_rtp rtp_init udp_net_setup
    increase_receive_buffer_to get_receive_buffer_size udp_get_port rtp_get_udp_port rtp_udp_connect
    udp_connect rtp_start new_queues create parse_sdp parse_transport_params ◌+ℤ◌
runs = (refl, refl, refl)

api_init-order_example :
    InPlay world what_was_sent one_more world-Quiet world-Fixed url 256 1 [] played
api_init-order_example =
    api_init-order world what_was_sent one_more world-Quiet world-Fixed raw
      (some (replicate 2048 0)) url start played runs.0

api_deinit-api_init_example :
    LacksThread (object_of refused.rtp) × (api_deinit world refused ≢ done ret_sucess refused)
api_deinit-api_init_example =
    api_deinit-api_init world raw (some (replicate 2048 0)) url refusing refused
      (object_of refused.rtp) refl runs.1 runs.2 ret_sucess refused

-- A session whose address and name are known.
abbrev known : Session World
known = record start {
  server = record { url = url; server_ip = codes "127.0.0.1"; server_port = 8989 };
  reply = record (start.reply) {
    setup = record { server_port_num = 60; session_id = codes "12345" };
  };
}

requests_fit_example :
    (length (message (options_lines known.server.url known.cseq)) ≤ 256)
    × (length (message (describe_lines known.server.url known.cseq)) ≤ 256)
    × (length (message (setup_lines (codes "trackID=0") known.cseq (pos 60))) ≤ 256)
    × (length (message (play_lines known.server.url known.cseq known.reply.setup.session_id)) ≤ 256)
    × (length (message (session_lines (codes "PAUSE") known)) ≤ 256)
    × (length (message (session_lines (codes "TEARDOWN") known)) ≤ 256)
requests_fit_example =
    requests_fit known (codes "trackID=0") (pos 60) (omega arith) (omega arith) (omega arith)
      (omega arith) (omega arith) (omega arith)

request_setup_drops_line_example :
    send_lines world (setup_lines (replicate 240 97) 1 (pos 60)) request_setup start
    ≡ send_lines world (cseq_line 1 ∷ transport_line (pos 60) ∷ []) request_setup start
request_setup_drops_line_example =
    request_setup_drops_line world start (replicate 240 97) (pos 60) refl (omega arith)

-- The reply to SETUP.
abbrev good_text : Bytes
good_text =
    setup_text (codes "RTSP/1.0 200 OK") (codes "3") (codes "12345") (codes "server_port=60")
    ++ (b'\n' ∷ [])

-- A session that has sent two requests; the reply to SETUP comes in two pieces.
abbrev waiting : Session World
waiting = record known {
  cseq = 3;
  socket = pos 3;
  rtsp_buffer = some [];
  system = record (start.system) {
    answers = some (take 20 good_text) ∷ none ∷ some (drop 20 good_text) ∷ none ∷ none ∷ [];
  };
}

abbrev replied : World
replied = record (start.system) { sent = codes "SETUP" ∷ []; answers = [] }

rtsp_request-setup_example :
    rtsp_request world (codes "SETUP") 5 request_setup waiting
    ≡ done ret_sucess (
        answered world (codes "SETUP") waiting good_text replied (record (waiting.reply) {
          respond_code = 200;
          setup = record { server_port_num = 60; session_id = codes "12345" };
        }))
unfolding is_blank make_socket_blocking write_socket
rtsp_request-setup_example =
    rtsp_request-setup world waiting (codes "SETUP") 5 replied (codes "RTSP/1.0 200 OK") (codes "3")
      (codes "12345") (codes "server_port=60") port_found refl
      (arrived (take 20 good_text) refl (omega arith) (
        timed_out refl (
          arrived (drop 20 good_text) refl (omega arith)
            (timed_out refl (timed_out refl all_read)))))
      good_reply refl refl refl refl
