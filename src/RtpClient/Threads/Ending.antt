-- ===== src/RtpClient/Threads/Ending.antt =====
-- How the threads of my_rtsp_client/cRTPClient.cpp end after `rtp_stop` has reset their flags.
use canok_rtsp_client.Base.{
  ℕ, ◌≡◌, ◌≤◌, ◌<◌, refl, sym, ap, ◌∙◌, subst, ◌==◌, false, some, Bytes, [], ◌∷◌, ◌++◌, length,
  length-append, Bool-cases, inl, inr, arith, take_all,
}
use canok_rtsp_client.Base.Int.{ℤ}
use canok_rtsp_client.Base.Outcome.{done}
use canok_rtsp_client.Base.Returns.{Leaves}
use canok_rtsp_client.Macros.{ret_sucess}
use canok_rtsp_client.Queue.Frames
use canok_rtsp_client.Queue.Frames.{Frames}
use canok_rtsp_client.Queue.Valid.{Models}
use canok_rtsp_client.Queue.Push.{in_node}
use canok_rtsp_client.H264.{get_nal_type, single}
use canok_rtsp_client.RtpClient.{
  RtpClient, RtpPackHeaderInfo, FuBuffer, put_net, parse, read_step, reset_flags,
}
use canok_rtsp_client.RtpClient.Header.{IsHeader, header_bytes}
use canok_rtsp_client.RtpClient.Pass.{Takes, continues, begins, Takes-put_net}
use canok_rtsp_client.RtpClient.Single.{parse-single}
use canok_rtsp_client.RtpClient.Reader.{pushes_whole}
use canok_rtsp_client.RtpClient.Threads.{
  Threads, read_test, receiving, read_ended, parse_test, in_parse, parse_ended, read_off, receive,
  parse_off, parse_returns, Run, here, next, not_called, joining_read, joining_parse, stop_returned,
  stop_calls, join_read, join_parse,
}
use canok_rtsp_client.RtpClient.Threads.Flags.{SameFlags, parse-SameFlags, read_step-SameFlags}

-- A frame pushed on an empty queue is alone in it.
alone :
    (f : Bytes) (max_frames frame_len : ℕ)
    → length f ≤ frame_len
    → Frames.push max_frames frame_len f [] ≡ f ∷ []
unfolding Frames.push
alone f max_frames frame_len short = elim (Bool-cases (0 == max_frames)) [
  | inl none_fit ↦ rw none_fit (ap (λ g. g ∷ []) (take_all frame_len f short))
  | inr room ↦ rw room (ap (λ g. g ∷ []) (take_all frame_len f short))
]

Takes-reset_flags :
    (raw : Bytes) (h : RtpPackHeaderInfo) (c : RtpClient) (p : FuBuffer)
    → Takes raw h c p
    → Takes raw h (reset_flags c) p
Takes-reset_flags raw h c _ (continues p e ssrc type) = continues p e ssrc type
Takes-reset_flags raw h c _ (begins first e type) = begins first e type

module _ (raw : Bytes) (garbage : RtpPackHeaderInfo) where
  -- Once the flags are reset, the reading thread ends when its datagram has been pushed, the parsing thread
  -- when its round on it has returned, and then `rtp_stop` returns.
  both_end :
      (s : Threads) (datagram : Bytes) (c d : RtpClient) (r : ℤ)
      → s.reader ≡ receiving
      → s.parser ≡ in_parse
      → s.stopper ≡ not_called
      → read_step s.buffer (some datagram) (reset_flags s.client) ≡ done tt c
      → parse raw garbage c ≡ done r d
      → (t : Threads) × Run raw garbage s t × (t.stopper ≡ stop_returned) × (t.client ≡ d)
  both_end s datagram c d r at at' idle got parsed =
      let first =
        subst (Leaves SameFlags (reset_flags s.client)) got
          (read_step-SameFlags s.buffer datagram (reset_flags s.client)) in
      let second = subst (Leaves SameFlags c) parsed (parse-SameFlags raw garbage c) in
      let called = record s { client = reset_flags s.client; stopper = joining_read } in
      let received = record called { client = c; reader = read_test } in
      let ended = record received { reader = read_ended } in
      let joined = record ended { stopper = joining_parse } in
      let after = record joined { client = d; parser = parse_test } in
      let all_ended = record after { parser = parse_ended } in
      let run =
        next
          (next (next (next here (stop_calls idle refl)) (receive datagram c at got refl))
            (read_off refl first.0 refl))
          (join_read refl refl refl) in
      (
        record all_ended { stopper = stop_returned },
        next
            (next (next run (parse_returns r d at' parsed refl))
              (parse_off refl (second.1 ∙ first.1) refl))
            (join_parse refl refl refl),
        refl,
        refl,
      )

  -- With the reading thread in its receive, the parsing thread asleep on an empty network queue and the
  -- next slot of each queue free, a packet of the stream with a single NAL unit, of 1500 bytes at most,
  -- lets `rtp_stop` return: there is a run that calls it, receives the packet, wakes the parsing thread,
  -- ends both threads and joins them, and the unit is in the frame queue at its end.
  pub stop_ends :
      (s : Threads) (cap flags : ℕ) (h : RtpPackHeaderInfo) (b : ℕ) (d : Bytes) (p : FuBuffer)
      (cap_h264 width_h264 : ℕ) (fs : Frames)
      → s.reader ≡ receiving
      → s.parser ≡ in_parse
      → s.stopper ≡ not_called
      → length s.buffer ≡ 1500
      → Models cap 1500 [] s.client.que_net
      → (in_node s.client.que_net).locked ≡ false
      → length (header_bytes flags h ++ (b ∷ d)) ≤ 1500
      → flags < 64
      → IsHeader h
      → Takes raw h s.client p
      → get_nal_type b ≡ single
      → Models cap_h264 width_h264 fs s.client.que_h264
      → (in_node s.client.que_h264).locked ≡ false
      → (t : Threads) × Run raw garbage s t
        × (t.stopper ≡ stop_returned)
        × Models cap_h264 width_h264 (Frames.push cap_h264 width_h264 (b ∷ d) fs) t.client.que_h264
  stop_ends s cap flags h b d p cap_h264 width_h264 fs at at' idle room net free_net short few w
        takes type m free =
      let packet = header_bytes flags h ++ (b ∷ d) in
      let (q, got, net') =
        pushes_whole s.buffer packet (reset_flags s.client) cap [] room short
          (omega (arith, length-append (header_bytes flags h) (b ∷ d))) net free_net in
      let c = put_net q (reset_flags s.client) in
      let (c', parsed, _, m') =
        parse-single raw garbage cap 1500 flags h b d [] c p cap_h264 width_h264 fs
          (subst (λ k. Models cap 1500 k q) (alone packet cap 1500 short) net') few w
          (Takes-put_net raw h (reset_flags s.client) p q
            (Takes-reset_flags raw h s.client p takes))
          type m free in
      let (t, run, returned, same) = both_end s packet c c' ret_sucess at at' idle got parsed in
      (
        t,
        run,
        returned,
        subst
            (λ e.
              Models cap_h264 width_h264 (Frames.push cap_h264 width_h264 (b ∷ d) fs) e.que_h264)
            (sym same) m',
      )
