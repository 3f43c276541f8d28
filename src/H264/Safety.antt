-- ===== src/H264/Safety.antt =====
-- Which payloads cH264RTP takes without undefined behaviour, and which it does not.
use Prim.Native.Nat.{bit_and}
use canok_rtsp_client.Base.{
  ℕ, ◌+◌, ◌==◌, ◌≤◌, ◌<◌, ◌≡◌, refl, ap, ◌∙◌, false, true, Bytes, ◌∷◌, arith, length, take,
}
use canok_rtsp_client.Base.Int.{ℤ, pos, negsuc, ◌-ℤ◌, add-sub_pos}
use canok_rtsp_client.Base.Outcome.{done, fault, bind_done, bind_fault}
use canok_rtsp_client.Macros.{ret_sucess}
use canok_rtsp_client.H264.{
  NalType, fu_a, fu_b, single, undefined, H264Rtp, append, flush, push_h264, fu_branch, fu_nal,
  get_nal_type, parse_fu_a, parse_payload,
}
use canok_rtsp_client.H264.Collect.{IsValid, append_overflow, push_h264_done, push_h264_fault}
use canok_rtsp_client.Queue.{CQueue}
use canok_rtsp_client.Queue.Frames
use canok_rtsp_client.Queue.Frames.{Frames}
use canok_rtsp_client.Queue.Valid.{Models}
use canok_rtsp_client.Queue.Push.{in_node, push-fault}
use canok_rtsp_client.Queue.Refine.{push_refines}
use canok_rtsp_client.H264.Kept.{Keeps, is_other, IsEnd, branch-Keeps, fu-Keeps}

-- A single NAL unit goes to the queue as it is, and the fragment buffer is left alone.
pub parse_payload-single :
    (s : H264Rtp) (cap width : ℕ) (fs : Frames) (b : ℕ) (d : Bytes) (len : ℕ)
    → get_nal_type b ≡ single
    → len ≤ length (b ∷ d)
    → Models cap width fs s.que_h264
    → (in_node s.que_h264).locked ≡ false
    → (q : CQueue) × (parse_payload (b ∷ d) (pos len) s
        ≡ done ret_sucess (record s { que_h264 = q }))
      × Models cap width (Frames.push cap width (take len (b ∷ d)) fs) q
unfolding parse_payload
parse_payload-single s cap width fs b d len type there m free =
    let (q, run, m') = push_refines cap width fs s.que_h264 (b ∷ d) len m (omega arith) free in
    (
      q,
      rw type (bind_done (push_h264 (b ∷ d) (pos len)) _ (push_h264_done s (b ∷ d) (pos len) run)),
      m',
    )

parse_payload_other :
    (s : H264Rtp) (b : ℕ) (d : Bytes) (len : ℤ) (t : NalType)
    → get_nal_type b ≡ t
    → is_other t ≡ true
    → parse_payload (b ∷ d) len s ≡ done ret_sucess s
unfolding parse_payload
parse_payload_other s b d len fu_a e o = cc
parse_payload_other s b d len single e o = cc
parse_payload_other s b d len fu_b e o = rw e
parse_payload_other s b d len undefined e o = rw e

parse_fu_fault :
    (ind hdr : ℕ) (d : Bytes) (n : ℕ) (s : H264Rtp)
    → get_nal_type ind ≡ fu_a
    → fu_branch hdr (fu_nal ind hdr) d (pos n) s ≡ fault
    → parse_payload (ind ∷ hdr ∷ d) (pos (n + 2)) s ≡ fault
unfolding parse_payload
parse_fu_fault ind hdr d n s type e = rw type (
    bind_fault (parse_fu_a (ind ∷ hdr ∷ d) (pos (n + 2))) _ (
      bind_fault (fu_branch hdr (fu_nal ind hdr) d (pos (n + 2) -ℤ pos 2)) _
        (ap (λ len. fu_branch hdr (fu_nal ind hdr) d len s) (add-sub_pos n 2) ∙ e)))

end_fault :
    (s : H264Rtp) (hdr nal : ℕ) (d : Bytes) (n : ℕ)
    → (bit_and hdr 0x80 == 0) ≡ true
    → (bit_and hdr 0x40 == 0) ≡ false
    → append d (pos n) s ≡ fault
    → fu_branch hdr nal d (pos n) s ≡ fault
unfolding fu_branch
end_fault s hdr nal d n later end e = rw (later, end) (bind_fault (append d (pos n)) (λ _. flush) e)

-- While no client holds the frame queue's next slot, no payload of at least two bytes makes the parser
-- read or write out of bounds, as long as it fits in the empty fragment buffer and is not an end packet
-- too long for what is left there. The call returns RET_SUCESS, and the parser and its queue stay valid.
pub parse_payload-Keeps :
    (s : H264Rtp) (cap width : ℕ) (fs : Frames) (ind hdr : ℕ) (d : Bytes) (n : ℕ)
    → IsValid s
    → Models cap width fs s.que_h264
    → (in_node s.que_h264).locked ≡ false
    → n ≤ length d
    → n + 1 ≤ s.fu_buffer_len
    → (IsEnd ind hdr → s.fu_buffer_offset + n ≤ s.fu_buffer_len)
    → Keeps cap width ret_sucess (parse_payload (ind ∷ hdr ∷ d) (pos (n + 2)) s)
parse_payload-Keeps s cap width fs ind hdr d n v m free there room fits =
    by_type (get_nal_type ind) refl
  where
    by_type :
        (t : NalType)
        → get_nal_type ind ≡ t
        → Keeps cap width ret_sucess (parse_payload (ind ∷ hdr ∷ d) (pos (n + 2)) s)
    by_type fu_a e = fu-Keeps s cap width ind hdr d n e (
        branch-Keeps s cap width fs hdr (fu_nal ind hdr) d n v m free there room
          (λ later end. fits (e, later, end)))
    by_type single e =
        let (q, run, m') =
          parse_payload-single s cap width fs ind (hdr ∷ d) (n + 2) e (omega arith) m free in
        (record s { que_h264 = q }, _, run, record { sized = v.sized; inside = v.inside }, m')
    by_type fu_b e = (s, fs, parse_payload_other s ind (hdr ∷ d) (pos (n + 2)) fu_b e refl, v, m)
    by_type undefined e =
        (s, fs, parse_payload_other s ind (hdr ∷ d) (pos (n + 2)) undefined e refl, v, m)

-- An end packet that does not fit behind what has been collected is written past the end of the
-- fragment buffer: the branch has no check.
pub parse_payload-overflow :
    (s : H264Rtp) (ind hdr : ℕ) (d : Bytes) (n : ℕ)
    → IsValid s
    → IsEnd ind hdr
    → s.fu_buffer_len < s.fu_buffer_offset + n
    → parse_payload (ind ∷ hdr ∷ d) (pos (n + 2)) s ≡ fault
parse_payload-overflow s ind hdr d n v end over = parse_fu_fault ind hdr d n s end.0 bad
  where
    bad : fu_branch hdr (fu_nal ind hdr) d (pos n) s ≡ fault
    bad = end_fault s hdr (fu_nal ind hdr) d n end.1 end.2 (append_overflow s d n v over)

-- A packet too short for its header is undefined behaviour too: a single NAL unit of negative length
-- goes to the queue's `memcpy`.
pub parse_payload_runt :
    (s : H264Rtp) (cap width : ℕ) (fs : Frames) (b : ℕ) (d : Bytes) (k : ℕ)
    → get_nal_type b ≡ single
    → Models cap width fs s.que_h264
    → (in_node s.que_h264).locked ≡ false
    → parse_payload (b ∷ d) (negsuc k) s ≡ fault
unfolding parse_payload
parse_payload_runt s cap width fs b d k type m free = rw type (
    bind_fault (push_h264 (b ∷ d) (negsuc k)) _ (
      push_h264_fault s (b ∷ d) (negsuc k)
        (push-fault s.que_h264 (b ∷ d) (negsuc k) m.valid free (ground arith))))
