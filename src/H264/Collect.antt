-- ===== src/H264/Collect.antt =====
-- The fragment buffer of cH264RTP: what has been collected, and the two steps that change it.
use canok_rtsp_client.Base.{
  ℕ, ◌+◌, ◌≤◌, ◌<◌, ◌≡◌, refl, ap, ◌∙◌, min, false, true, Bytes, ◌++◌, arith, length, take, drop,
  take-append, take-append_more, length-take, some,
}
use canok_rtsp_client.Base.Int.{ℤ, pos, negsuc}
use canok_rtsp_client.Base.Memory.{memcpy_in_bounds, length-memcpy}
use canok_rtsp_client.Base.Outcome.{
  done, waits, fault, bind_done, bind_waits, zoom_done, zoom_waits, zoom_fault,
}
use canok_rtsp_client.H264.{H264Rtp, append, flush, push_h264, put_que}
use canok_rtsp_client.Queue.{CQueue, push}
use canok_rtsp_client.Queue.Frames
use canok_rtsp_client.Queue.Frames.{Frames}
use canok_rtsp_client.Queue.Valid.{Models}
use canok_rtsp_client.Queue.Push.{in_node}
use canok_rtsp_client.Queue.Refine.{push_refines, push_sleeps}

-- The array has the size that the object records, and the offset stays inside it.
pub record IsValid (s : H264Rtp) : Type 0 where
  pub sized : length s.fu_buffer ≡ s.fu_buffer_len
  pub inside : s.fu_buffer_offset ≤ s.fu_buffer_len

-- The bytes collected so far.
abbrev pub collected : H264Rtp → Bytes
collected s = take s.fu_buffer_offset s.fu_buffer

abbrev pub appended : Bytes → ℕ → H264Rtp → H264Rtp
appended src n s = record s {
  fu_buffer =
      take s.fu_buffer_offset s.fu_buffer
      ++ (take n src ++ drop (s.fu_buffer_offset + n) s.fu_buffer);
  fu_buffer_offset = s.fu_buffer_offset + n;
}

module _ (s : H264Rtp) (v : IsValid s) (src : Bytes) (n : ℕ)
    (fits : s.fu_buffer_offset + n ≤ s.fu_buffer_len) (there : n ≤ length src) where
  pub append_lem : append src (pos n) s ≡ done tt (appended src n s)
  unfolding append
  append_lem =
      rw (memcpy_in_bounds s.fu_buffer s.fu_buffer_offset src n (omega (arith, v.sized)) there)

  pub appended-IsValid : IsValid (appended src n s)
  appended-IsValid = record {
    sized =
        length-memcpy s.fu_buffer s.fu_buffer_offset src n (omega (arith, v.sized)) there ∙ v.sized;
    inside = fits;
  }

  pub collected-appended : collected (appended src n s) ≡ collected s ++ take n src
  collected-appended =
      take-append_more (collected s) (take n src ++ drop (s.fu_buffer_offset + n) s.fu_buffer)
        s.fu_buffer_offset n
        (omega (arith, length-take s.fu_buffer_offset s.fu_buffer, v.sized, v.inside))
      ∙ ap (λ b. collected s ++ b)
          (take-append (take n src) (drop (s.fu_buffer_offset + n) s.fu_buffer) n
            (omega (arith, length-take n src)))

-- A copy past the end of the array, or of a negative length, is undefined behaviour.
pub append_overflow :
    (s : H264Rtp) (src : Bytes) (n : ℕ)
    → IsValid s
    → s.fu_buffer_len < s.fu_buffer_offset + n
    → append src (pos n) s ≡ fault
unfolding append
append_overflow s src n v over = ground arith

pub append_negative : (s : H264Rtp) (src : Bytes) (n : ℕ) → append src (negsuc n) s ≡ fault
unfolding append
append_negative s src n = refl

module _ (s : H264Rtp) (mem : Bytes) (len : ℤ) where
  pub push_h264_done :
      {n : ℤ} {q : CQueue}
      → push (some mem) len s.que_h264 ≡ done n q
      → push_h264 mem len s ≡ done n (put_que q s)
  unfolding push_h264
  push_h264_done e = zoom_done (λ s. s.que_h264) put_que (push (some mem) len) e

  pub push_h264_waits :
      push (some mem) len s.que_h264 ≡ waits s.que_h264 → push_h264 mem len s ≡ waits s
  unfolding push_h264
  push_h264_waits e = zoom_waits (λ s. s.que_h264) put_que (push (some mem) len) e

  pub push_h264_fault : push (some mem) len s.que_h264 ≡ fault → push_h264 mem len s ≡ fault
  unfolding push_h264
  push_h264_fault e = zoom_fault (λ s. s.que_h264) put_que (push (some mem) len) e

flush_done :
    (s : H264Rtp) (n : ℤ) (q : CQueue)
    → push (some s.fu_buffer) (pos s.fu_buffer_offset) s.que_h264 ≡ done n q
    → flush s ≡ done tt (record s { que_h264 = q; fu_buffer_offset = 0 })
unfolding flush
flush_done s n q e =
    bind_done (push_h264 s.fu_buffer (pos s.fu_buffer_offset)) _
      (push_h264_done s s.fu_buffer (pos s.fu_buffer_offset) e)

-- A flush hands the bytes collected to the queue as one frame, and empties the buffer.
pub flush_lem :
    (s : H264Rtp) (cap width : ℕ) (fs : Frames)
    → IsValid s
    → Models cap width fs s.que_h264
    → (in_node s.que_h264).locked ≡ false
    → (q : CQueue) × (flush s ≡ done tt (record s { que_h264 = q; fu_buffer_offset = 0 }))
      × Models cap width (Frames.push cap width (collected s) fs) q
flush_lem s cap width fs v m free =
    let (q, returns, m') =
      push_refines cap width fs s.que_h264 s.fu_buffer s.fu_buffer_offset m
        (omega (arith, v.sized, v.inside)) free in
    (q, flush_done s (pos (min s.fu_buffer_offset width)) q returns, m')

-- With the next slot of the queue at a client, a flush sleeps before it changes anything.
pub flush_waits :
    (s : H264Rtp) (cap width : ℕ) (fs : Frames)
    → Models cap width fs s.que_h264
    → (in_node s.que_h264).locked ≡ true
    → flush s ≡ waits s
unfolding flush
flush_waits s cap width fs m held = bind_waits (push_h264 s.fu_buffer (pos s.fu_buffer_offset)) _ (
    push_h264_waits s s.fu_buffer (pos s.fu_buffer_offset)
      (push_sleeps cap width fs s.que_h264 (some s.fu_buffer) (pos s.fu_buffer_offset) m held))
