-- ===== src/RtpClient/Samples.antt =====
-- Small clients and packets, on which the definitions for my_rtsp_client/cRTPClient.cpp are run.
use canok_rtsp_client.Base.{
  ℕ, ◌<◌, ◌≡◌, refl, true, false, Bytes, [], ◌∷◌, ◌++◌, arith, some, none, replicate,
}
use canok_rtsp_client.Base.Int.{pos}
use canok_rtsp_client.Queue.{Node, CQueue}
use canok_rtsp_client.Queue.Valid.{Models}
use canok_rtsp_client.H264.{get_nal_type, single}
use canok_rtsp_client.RtpClient.{RtpPackHeaderInfo, RtpClient, FuBuffer, zero_info}
use canok_rtsp_client.RtpClient.Header.{IsHeader, header_bytes}

-- A header of the test stream.
abbrev pub header : ℕ → RtpPackHeaderInfo
header seq = record {
  version = 2;
  marker = 1;
  payload_type = 96;
  sequence_number = seq;
  time_stamp = 5;
  ssrc = 9;
}

pub header-IsHeader : (seq : ℕ) → seq < 65536 → IsHeader (header seq)
header-IsHeader seq h = record {
  version_bits = omega arith;
  marker_bit = omega arith;
  payload_type_bits = omega arith;
  sequence_number_bits = h;
  time_stamp_bits = omega arith;
  ssrc_bits = omega arith;
}

abbrev pub slot : ℕ → Bytes → Node
slot len bytes = record { locked = false; datalen = pos len; bytes = bytes }

abbrev pub packet : ℕ → Bytes
packet b = header_bytes 0 (header 7) ++ (b ∷ 7 ∷ [])

-- One packet with the payload `b`, 7, in a slot with two stale bytes. What is queued is `len` bytes.
abbrev pub one_packet : ℕ → ℕ → CQueue
one_packet b len = record {
  max_frames = 2;
  frame_len = 16;
  que = slot len (packet b ++ (1 ∷ 2 ∷ [])) ∷ slot 0 (replicate 16 0) ∷ [];
  in_index = 1;
  out_index = 0;
  effectives = 1;
  sem = 1;
}

pub one_packet-Models : Models 2 16 (packet 0x65 ∷ []) (one_packet 0x65 14)
one_packet-Models = record {
  valid = ground arith;
  capacity = refl;
  slot_width = refl;
  frames = refl;
}

pub odd_packet-Models : Models 2 16 (packet 0x1f ∷ []) (one_packet 0x1f 14)
odd_packet-Models = record {
  valid = ground arith;
  capacity = refl;
  slot_width = refl;
  frames = refl;
}

pub runt-Models : Models 2 16 ((128 ∷ 224 ∷ []) ∷ []) (one_packet 0x65 2)
runt-Models = record { valid = ground arith; capacity = refl; slot_width = refl; frames = refl }

abbrev frame_queue : CQueue
frame_queue = record {
  max_frames = 2;
  frame_len = 4;
  que = slot 0 (replicate 4 0) ∷ slot 0 (replicate 4 0) ∷ [];
  in_index = 0;
  out_index = 0;
  effectives = 0;
  sem = 0;
}

pub frame_queue-Models : Models 2 4 [] frame_queue
frame_queue-Models = record {
  valid = ground arith;
  capacity = refl;
  slot_width = refl;
  frames = refl;
}

-- A client before its first packet.
abbrev pub fresh : RtpClient
fresh = record {
  que_net = one_packet 0x65 14;
  que_h264 = frame_queue;
  rtp_parse = none;
  last_rtp_info = zero_info;
  read = true;
  parsing = true;
  fist_sequence_number = 0;
  lost_count = pos 0;
}

abbrev pub fragment_buffer : FuBuffer
fragment_buffer = record { buffer = replicate 4 0; offset = 0; len = 4 }

-- A client that has seen the packet with the number 6.
abbrev pub running : RtpClient
running = record fresh {
  rtp_parse = some fragment_buffer;
  last_rtp_info = header 6;
  fist_sequence_number = 6;
}

pub is_single : get_nal_type 0x65 ≡ single
unfolding get_nal_type
is_single = refl
