-- ===== src/RtpClient/Tests.antt =====
-- cRTPClient on small queues: its theorems at concrete inputs, and runs.
use canok_rtsp_client.Base.{
  ◌<◌, ◌≡◌, ◌≢◌, ◌↔◌, ◌⊎◌, refl, inl, Bool, true, false, Bytes, List, [], ◌∷◌, ◌++◌, arith, length,
  some, replicate,
}
use canok_rtsp_client.Base.Int.{pos, negsuc, ◌+ℤ◌, ◌-ℤ◌}
use canok_rtsp_client.Base.Outcome.{done, fault}
use canok_rtsp_client.Macros.{ret_sucess}
use canok_rtsp_client.Queue.{CQueue}
use canok_rtsp_client.Queue.Frames
use canok_rtsp_client.Queue.Frames.{Frames}
use canok_rtsp_client.Queue.Valid.{Models}
use canok_rtsp_client.Queue.Lend.{SameLocks}
use canok_rtsp_client.H264.{parse_payload}
use canok_rtsp_client.RtpClient.{
  RtpClient, zero_info, new_fu_buffer, set_header_info, check_header, count_lost, parse, read_step,
  put_net, load,
}
use canok_rtsp_client.RtpClient.Header.{header_bytes, set_header_info-header_bytes}
use canok_rtsp_client.RtpClient.Loss.{
  check_all, check_all-lost_count, check_all-missing, check_header-verdict,
}
use canok_rtsp_client.RtpClient.Pass.{continues, begins, Passed, parse_passes, parse_drops}
use canok_rtsp_client.RtpClient.Stream.{RtpPacket, wire, parse_rounds, Arrived}
use canok_rtsp_client.RtpClient.Reassembly.{fu_payloads, IsIdle, parse_rounds-fragments}
use canok_rtsp_client.RtpClient.Single.{parse-single, parse_runt}
use canok_rtsp_client.RtpClient.Reader.{read_step-pushes, read_step_overflow}
use canok_rtsp_client.RtpClient.Samples.{
  header, header-IsHeader, slot, one_packet, one_packet-Models, odd_packet-Models, runt-Models,
  frame_queue-Models, fresh, fragment_buffer, running, is_single,
}

parse-single_example :
    (c' : RtpClient) × (parse [] zero_info fresh ≡ done ret_sucess c')
    × Models 2 16 [] c'.que_net
    × Models 2 4 (Frames.push 2 4 (0x65 ∷ 7 ∷ []) []) c'.que_h264
parse-single_example =
    parse-single [] zero_info 2 16 0 (header 7) 0x65 (7 ∷ []) [] fresh (new_fu_buffer []) 2 4 []
      one_packet-Models (omega arith) (header-IsHeader 7 (omega arith)) (begins refl refl refl)
      is_single frame_queue-Models refl

set_header_info-header_bytes_example :
    set_header_info (some (header_bytes 3 (header 300) ++ (1 ∷ []))) zero_info fresh
    ≡ done (ret_sucess, header 300) fresh
set_header_info-header_bytes_example =
    set_header_info-header_bytes 3 (header 300) (1 ∷ []) zero_info fresh (omega arith)
      (header-IsHeader 300 (omega arith))

some_number : running.fist_sequence_number ≢ 0
some_number = λ e. omega arith

-- The packets 9 and 8, in this order.
check_all-lost_count_example :
    (c' : RtpClient) × (check_all [] (header 9 ∷ header 8 ∷ []) running ≡ done tt c')
    × (c'.last_rtp_info ≡ header 8)
    × (c'.lost_count +ℤ pos 2 ≡ pos 0 +ℤ (pos 8 -ℤ pos 6))
check_all-lost_count_example =
    check_all-lost_count [] (header 9 ∷ header 8 ∷ []) running some_number
      (refl, refl, (refl, refl, tt))

-- The packets 6, 7 and 10.
check_all-missing_example :
    (c' : RtpClient) × (check_all [] (header 6 ∷ header 7 ∷ header 10 ∷ []) fresh ≡ done tt c')
    × (c'.lost_count ≡ pos 2)
check_all-missing_example =
    check_all-missing [] (header 6) (header 7 ∷ header 10 ∷ []) fresh refl refl some_number
      (refl, refl, (refl, refl, tt)) (omega arith, (omega arith, tt))

-- The step from the last sequence number to 0 is counted as 65536 packets too many received.
count_lost-wraps : count_lost 0 65535 (pos 3) ≡ negsuc 65532
unfolding count_lost ◌+ℤ◌ ◌-ℤ◌
count_lost-wraps = refl

check_header-verdict_example :
    (ok : Bool) × (c' : RtpClient) × (check_header [] (header 7) running ≡ done ok c')
    × ((ok ≡ true) ↔ (
        (running.fist_sequence_number ≡ 0)
        ⊎ (((header 7).ssrc ≡ running.last_rtp_info.ssrc)
            × ((header 7).payload_type ≡ running.last_rtp_info.payload_type))))
    × (ok ≡ false → c' ≡ running)
    × (ok ≡ true → c'.last_rtp_info ≡ header 7)
    × (c'.que_net ≡ running.que_net)
    × (c'.que_h264 ≡ running.que_h264)
check_header-verdict_example = check_header-verdict [] (header 7) running

abbrev odd : RtpClient
odd = record running { que_net = one_packet 0x1f 14 }

-- A payload of an unknown type.
parse_payload-odd :
    parse_payload (0x1f ∷ 7 ∷ 1 ∷ 2 ∷ []) (pos 2) (load fragment_buffer odd)
    ≡ done ret_sucess (load fragment_buffer odd)
unfolding parse_payload
parse_payload-odd = refl

parse_passes_example :
    (c' : RtpClient) × (parse [] zero_info odd ≡ done ret_sucess c')
    × Passed 2 16 odd (header 7) [] (load fragment_buffer odd) c'
parse_passes_example =
    parse_passes [] zero_info 2 16 0 (header 7) (0x1f ∷ 7 ∷ []) [] odd odd_packet-Models
      (omega arith) (header-IsHeader 7 (omega arith)) fragment_buffer
      (continues fragment_buffer refl refl refl) ret_sucess (load fragment_buffer odd)
      parse_payload-odd

-- The last packet came from another source.
abbrev elsewhere : RtpClient
elsewhere = record running { last_rtp_info = record (header 6) { ssrc = 4 } }

parse_drops_example :
    (q : CQueue) × (parse [] zero_info elsewhere ≡ done ret_sucess (put_net q elsewhere))
    × Models 2 16 [] q
    × SameLocks elsewhere.que_net q
parse_drops_example =
    parse_drops [] zero_info 2 16 0 (header 7) (0x65 ∷ 7 ∷ []) [] elsewhere one_packet-Models
      (omega arith) (header-IsHeader 7 (omega arith)) some_number refl

-- Two bytes received, over an old packet.
parse_runt_example : parse [] zero_info (record running { que_net = one_packet 0x65 2 }) ≡ fault
parse_runt_example =
    parse_runt [] zero_info 2 16 0 (header 7) 0x65 (7 ∷ 1 ∷ 2 ∷ []) (128 ∷ 224 ∷ []) []
      (record running { que_net = one_packet 0x65 2 }) fragment_buffer 2 4 [] runt-Models
      (omega arith) refl (omega arith) (header-IsHeader 7 (omega arith))
      (continues fragment_buffer refl refl refl) is_single frame_queue-Models refl

-- The unit 65 01 02 in two packets.
abbrev start_packet : RtpPacket
start_packet = record { flags = 0; header = header 7; payload = 0x7c ∷ 0x85 ∷ 1 ∷ [] }

abbrev end_packet : RtpPacket
end_packet = record { flags = 0; header = header 8; payload = 0x7c ∷ 0x45 ∷ 2 ∷ [] }

abbrev two_packets : CQueue
two_packets = record (one_packet 0x65 0) {
  que = slot 15 (wire start_packet ++ (1 ∷ [])) ∷ slot 15 (wire end_packet ++ (2 ∷ [])) ∷ [];
  in_index = 0;
  effectives = 2;
  sem = 2;
}

two_packets-Models : Models 2 16 (wire start_packet ∷ wire end_packet ∷ []) two_packets
two_packets-Models = record {
  valid = ground arith;
  capacity = refl;
  slot_width = refl;
  frames = refl;
}

idle : IsIdle 2 4 [] (load fragment_buffer running)
idle = record { valid = omega arith; empty = refl; frames = frame_queue-Models }

cut :
    ◌≡◌ {A = List Bytes}
      (start_packet.payload ∷ end_packet.payload ∷ [])
      (fu_payloads 0x65 (1 ∷ []) [] (2 ∷ []))
cut = refl

parse_rounds-fragments_example :
    (c' : RtpClient) × (parse_rounds [] zero_info 2 (record running { que_net = two_packets })
      ≡ done tt c')
    × Arrived [] zero_info 2 16 [] (IsIdle 2 4 (Frames.push 2 4 (0x65 ∷ 1 ∷ 2 ∷ []) [])) c'
parse_rounds-fragments_example =
    parse_rounds-fragments [] zero_info 2 16 [] start_packet (end_packet ∷ [])
      (record running { que_net = two_packets }) fragment_buffer 0x65 (1 ∷ []) [] (2 ∷ []) 2 4 []
      (omega arith) (header-IsHeader 7 (omega arith)) (continues fragment_buffer refl refl refl)
      (omega arith, header-IsHeader 8 (omega arith), refl, refl, tt) two_packets-Models cut
      (omega arith) idle (omega arith) refl

-- A network queue of one slot, with the width that the program gives it.
abbrev wide_queue : CQueue
wide_queue = record {
  max_frames = 1;
  frame_len = 1500;
  que = slot 0 (replicate 1500 0) ∷ [];
  in_index = 0;
  out_index = 0;
  effectives = 0;
  sem = 0;
}

wide_queue-Models : Models 1 1500 [] wide_queue
wide_queue-Models = record {
  valid = record {
    some_slot = omega arith;
    slots = refl;
    in_range = omega arith;
    out_range = omega arith;
    few = omega arith;
    counts = refl;
    distance = inl refl;
    sized = (refl, tt);
    ready = tt;
  };
  capacity = refl;
  slot_width = refl;
  frames = refl;
}

read_step-pushes_example :
    (q : CQueue) × (read_step
        (replicate 1500 0)
        (some (128 ∷ 224 ∷ []))
        (record fresh { que_net = wide_queue })
      ≡ done tt (put_net q (record fresh { que_net = wide_queue })))
    × Models 1 1500 (Frames.push 1 1500 (128 ∷ 224 ∷ []) []) q
read_step-pushes_example =
    read_step-pushes (replicate 1500 0) (128 ∷ 224 ∷ []) (record fresh { que_net = wide_queue }) 1
      [] refl (omega arith) wide_queue-Models refl

abbrev jumbo : Bytes
jumbo = replicate 1501 1

jumbo_long : 1500 < length jumbo
jumbo_long = ground arith

read_step_overflow_example : read_step (replicate 1500 0) (some jumbo) fresh ≡ fault
read_step_overflow_example = read_step_overflow (replicate 1500 0) jumbo fresh refl jumbo_long
