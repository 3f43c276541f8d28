-- ===== src/TestMain/Tests.antt =====
-- The loop of my_rtsp_client/test_main.cpp on a session with two frames.
use canok_rtsp_client.Base.{ℕ, ◌≡◌, refl, true, false, some, none, [], ◌∷◌, arith}
use canok_rtsp_client.Base.Int.{pos}
use canok_rtsp_client.Base.Outcome.{done}
use canok_rtsp_client.Queue.{Node, CQueue}
use canok_rtsp_client.Queue.Valid.{Models}
use canok_rtsp_client.Queue.Lend.{SameLocks}
use canok_rtsp_client.RtpClient.{zero_info}
use canok_rtsp_client.RtpClient.Lifecycle.{RtpObject}
use canok_rtsp_client.RtspClient.Session.{Session}
use canok_rtsp_client.TestMain.{write_frames}
use canok_rtsp_client.TestMain.Frames.{with_queue, write_frames-byte_stream}

abbrev slot : ℕ → Node
slot b = record { locked = false; datalen = pos 2; bytes = b ∷ b ∷ 0 ∷ [] }

-- Two slots of three bytes, both with a frame of two bytes; the older one is in slot 1.
abbrev two_frames : CQueue
two_frames = record {
  max_frames = 2;
  frame_len = 3;
  que = slot 8 ∷ slot 7 ∷ [];
  in_index = 1;
  out_index = 1;
  effectives = 2;
  sem = 2;
}

abbrev object : RtpObject
object = record {
  client = record {
    que_net = two_frames;
    que_h264 = two_frames;
    rtp_parse = none;
    last_rtp_info = zero_info;
    read = true;
    parsing = true;
    fist_sequence_number = 0;
    lost_count = pos 0;
  };
  ser_ip = some [];
  socket = pos 4;
  port = pos 60;
  read_started = true;
  parse_started = true;
}

-- The system plays no part here.
abbrev playing : Session Unit
playing = record {
  server = record { url = []; server_ip = []; server_port = 0 };
  cseq = 5;
  socket = pos 3;
  log = none;
  rtsp_buffer = none;
  send = record { send_buf = []; send_len = 0; send_offset = 0 };
  reply = record {
    respond_code = 200;
    media = record { control_path = none; multiplex_rtcp_with_rtp = false };
    setup = record { server_port_num = 0; session_id = [] };
  };
  rtp = some object;
  system = tt;
}

two_frames-Models : Models 2 3 ((7 ∷ 7 ∷ []) ∷ (8 ∷ 8 ∷ []) ∷ []) two_frames
two_frames-Models = record {
  valid = ground arith;
  capacity = refl;
  slot_width = refl;
  frames = refl;
}

write_frames-byte_stream_example :
    (q : CQueue) × (write_frames 2 [] playing
      ≡ done (0 ∷ 0 ∷ 0 ∷ 1 ∷ 7 ∷ 7 ∷ 0 ∷ 0 ∷ 0 ∷ 1 ∷ 8 ∷ 8 ∷ []) (with_queue q object playing))
    × Models 2 3 [] q
    × SameLocks two_frames q
write_frames-byte_stream_example =
    write_frames-byte_stream 2 3 ((7 ∷ 7 ∷ []) ∷ (8 ∷ 8 ∷ []) ∷ []) [] [] playing object refl
      two_frames-Models
