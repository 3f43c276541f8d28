-- ===== src/H264/Tests.antt =====
-- Runs of cH264RTP on small buffers, and its theorems at concrete inputs.
use canok_rtsp_client.Base.{ℕ, ◌+◌, ◌≡◌, refl, false, [], ◌∷◌, arith}
use canok_rtsp_client.Base.Int.{pos}
use canok_rtsp_client.Base.Outcome.{done, fault}
use canok_rtsp_client.Macros.{ret_sucess}
use canok_rtsp_client.H264.{H264Rtp, create, single, fu_a, get_nal_type, parse_payload}
use canok_rtsp_client.H264.Collect.{IsValid}
use canok_rtsp_client.H264.Fragments.{Part, fragments}
use canok_rtsp_client.H264.Reassembly.{parse_all, parse_all-fragments}
use canok_rtsp_client.H264.Safety.{parse_payload-Keeps, parse_payload-overflow}
use canok_rtsp_client.H264.Kept.{Keeps}
use canok_rtsp_client.Queue.{Node, CQueue}
use canok_rtsp_client.Queue.Frames
use canok_rtsp_client.Queue.Frames.{Frames}
use canok_rtsp_client.Queue.Valid.{Models}

abbrev free_slot : Node
free_slot = record { locked = false; datalen = pos 0; bytes = 0 ∷ 0 ∷ 0 ∷ 0 ∷ [] }

-- An empty queue of two slots of four bytes.
abbrev empty_queue : CQueue
empty_queue = record {
  max_frames = 2;
  frame_len = 4;
  que = free_slot ∷ free_slot ∷ [];
  in_index = 0;
  out_index = 0;
  effectives = 0;
  sem = 0;
}

abbrev parser : H264Rtp
parser = record {
  fu_buffer = 0 ∷ 0 ∷ 0 ∷ 0 ∷ [];
  fu_buffer_offset = 0;
  fu_buffer_len = 4;
  que_h264 = empty_queue;
}

-- Three bytes of a unit collected.
abbrev collecting : H264Rtp
collecting = record parser { fu_buffer = 0x65 ∷ 1 ∷ 2 ∷ 0 ∷ []; fu_buffer_offset = 3 }

create_lem : create empty_queue 4 (0 ∷ 0 ∷ 0 ∷ 0 ∷ []) ≡ parser
unfolding create
create_lem = refl

empty-Models : Models 2 4 [] empty_queue
empty-Models = record { valid = ground arith; capacity = refl; slot_width = refl; frames = refl }

parser-IsValid : IsValid parser
parser-IsValid = omega arith

collecting-IsValid : IsValid collecting
collecting-IsValid = omega arith

abbrev one_byte : ℕ → Part
one_byte b = record { bytes = b ∷ []; stale = 9 ∷ 9 ∷ [] }

-- The unit 65 01 02 03 in three packets.
parse_all-fragments_example :
    (t : H264Rtp) × (parse_all (fragments 0x65 (one_byte 1) (one_byte 2 ∷ []) (one_byte 3)) parser
      ≡ done tt t)
    × Models 2 4 (Frames.push 2 4 (0x65 ∷ 1 ∷ 2 ∷ 3 ∷ []) []) t.que_h264
    × IsValid t
    × (t.fu_buffer_offset ≡ 0)
parse_all-fragments_example =
    parse_all-fragments 0x65 (one_byte 1) (one_byte 2 ∷ []) (one_byte 3) parser 2 4 [] (omega arith)
      parser-IsValid refl (omega arith) empty-Models refl

is_single : get_nal_type 0x65 ≡ single
unfolding get_nal_type
is_single = refl

is_fu_a : get_nal_type 0x7c ≡ fu_a
unfolding get_nal_type
is_fu_a = refl

-- A last packet with one byte more.
parse_payload-Keeps_example :
    Keeps 2 4 ret_sucess (parse_payload (0x7c ∷ 0x45 ∷ 3 ∷ []) (pos (1 + 2)) collecting)
parse_payload-Keeps_example =
    parse_payload-Keeps collecting 2 4 [] 0x7c 0x45 (3 ∷ []) 1 collecting-IsValid empty-Models refl
      (omega arith) (omega arith) (λ e. omega arith)

-- A last packet with two bytes more.
parse_payload-overflow_example :
    parse_payload (0x7c ∷ 0x45 ∷ 3 ∷ 4 ∷ []) (pos (2 + 2)) collecting ≡ fault
parse_payload-overflow_example =
    parse_payload-overflow collecting 0x7c 0x45 (3 ∷ 4 ∷ []) 2 collecting-IsValid
      (is_fu_a, refl, refl) (omega arith)
