-- ===== src/RtpClient/Threads/Tests.antt =====
-- The threads of my_rtsp_client/cRTPClient.cpp on a small client.
use canok_rtsp_client.Base.{ℕ, ◌≡◌, refl, true, false, none, Bytes, [], ◌∷◌, replicate, arith}
use canok_rtsp_client.Base.Int.{ℤ, pos}
use canok_rtsp_client.Queue.{create}
use canok_rtsp_client.Queue.Frames
use canok_rtsp_client.Queue.Valid.{Models}
use canok_rtsp_client.Queue.Calls.{create-Models}
use canok_rtsp_client.RtpClient.{RtpClient, zero_info, new_fu_buffer}
use canok_rtsp_client.RtpClient.Pass.{begins}
use canok_rtsp_client.RtpClient.Samples.{header, header-IsHeader, is_single}
use canok_rtsp_client.RtpClient.Threads.{
  Threads, receiving, read_test, read_ended, in_parse, Run, rest, silent, read_off, IsWaiting,
  stop_waits, not_called, joining_parse, stop_returned, stop_calls, join_read,
}
use canok_rtsp_client.RtpClient.Threads.Ending.{stop_ends}

abbrev slots : ℕ → ℤ × Bytes
slots i = (pos 0, replicate 16 0)

-- A client that has been stopped, with no packet in its network queue.
abbrev stopped : RtpClient
stopped = record {
  que_net = create 2 16 slots;
  que_h264 = create 2 16 slots;
  rtp_parse = none;
  last_rtp_info = zero_info;
  read = false;
  parsing = false;
  fist_sequence_number = 0;
  lost_count = pos 0;
}

-- The reading thread tests its flag, and the parsing thread sleeps.
abbrev before : Threads
before = record {
  client = record stopped { read = true; parsing = true };
  buffer = replicate 1500 0;
  reader = read_test;
  parser = in_parse;
  stopper = not_called;
}

abbrev joining : Threads
joining = record before { client = stopped; reader = read_ended; stopper = joining_parse }

stop_waits_example : IsWaiting [] zero_info 2 16 joining
stop_waits_example =
    stop_waits [] zero_info 2 16 {s = before}
      (record {
        parser = refl;
        empty = create-Models 2 16 slots (omega arith) (λ i. refl);
        stopping = λ p. cc p;
      })
      (silent (silent (silent rest (stop_calls refl refl) tt) (read_off refl refl refl) tt)
        (join_read refl refl refl) tt)

-- The same client before it is stopped, with a network queue as the program makes it.
abbrev wide_slots : ℕ → ℤ × Bytes
wide_slots i = (pos 0, replicate 1500 0)

abbrev running : RtpClient
running = record stopped { que_net = create 1 1500 wide_slots; read = true; parsing = true }

abbrev working : Threads
working = record before { client = running; reader = receiving }

stop_ends_example :
    (t : Threads) × Run [] zero_info working t
    × (t.stopper ≡ stop_returned)
    × Models 2 16 (Frames.push 2 16 (0x65 ∷ 7 ∷ []) []) t.client.que_h264
unfolding create
stop_ends_example =
    stop_ends [] zero_info working 1 0 (header 7) 0x65 (7 ∷ []) (new_fu_buffer []) 2 16 [] refl refl
      refl refl (create-Models 1 1500 wide_slots (omega arith) (λ i. refl)) refl (omega arith)
      (omega arith) (header-IsHeader 7 (omega arith)) (begins refl refl refl) is_single
      (create-Models 2 16 slots (omega arith) (λ i. refl)) refl
