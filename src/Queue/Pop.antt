-- ===== src/Queue/Pop.antt =====
-- `CQueue::pop`, with the frame found, and on an empty queue.
use canok_rtsp_client.Base.{
  ℕ, suc, ◌-◌, ◌==◌, ◌≤◌, ◌≡◌, sym, ap, ap₂, ◌∙◌, min, Option, none, some, false, true, Bytes, [],
  ◌∷◌, ◌++◌, arith, length, get_elem?, set, take, drop, get_elem?-set_self, length-take, take-take,
}
use canok_rtsp_client.Base.Int.{ℤ, pos, pos_part, min_ℤ}
use canok_rtsp_client.Base.Memory.{memcpy_start}
use canok_rtsp_client.Base.Outcome.{done, waits, bind_done, bind_waits}
use canok_rtsp_client.Queue.{
  CQueue, loop_add, lock, unlock, node, pop, take_frame, no_frame, copy_out,
}
use canok_rtsp_client.Queue.Steps.{node_lem, lock_free, lock_held, unlock_lem}
use canok_rtsp_client.Queue.Frames.{Frames}
use canok_rtsp_client.Queue.Valid.{IsValid, Models, length-contents}
use canok_rtsp_client.Queue.Front.{
  out_node, popped, out_slot, length-frame, unlock-lock, left, effectives-left, front_frame,
  front-IsReady,
}

pub zero_eq : (n : ℕ) → n ≡ 0 → (n == 0) ≡ true
zero_eq n e = ground arith

pub zero_ne : (n m : ℕ) → n ≡ suc m → (n == 0) ≡ false
zero_ne n m e = ground arith

module _ (cap width : ℕ) (f : Bytes) (fs : Frames) (q : CQueue)
    (h : Models cap width (f ∷ fs) q) where
  pub datalen-front : (out_node q).datalen ≡ pos (length f)
  datalen-front =
      (front-IsReady cap width f fs q h).counted
      ∙ ap pos (
          length-frame q h.valid (front-IsReady cap width f fs q h)
          ∙ ap length (front_frame cap width f fs q h))

  pub length-front : length f ≤ length (out_node q).bytes
  length-front = omega (
    arith,
    ap length (front_frame cap width f fs q h),
    length-take (pos_part (out_node q).datalen) (out_node q).bytes,
  )

  -- The oldest frame stands at the start of its slot.
  pub front_bytes : take (length f) (out_node q).bytes ≡ f
  front_bytes =
      ap (λ n. take n (out_node q).bytes)
        (ap length (sym (front_frame cap width f fs q h))
          ∙ sym (length-frame q h.valid (front-IsReady cap width f fs q h)))
      ∙ front_frame cap width f fs q h

  take-front : (len : ℕ) → take (min len (length f)) (out_node q).bytes ≡ take len f
  take-front len =
      ap (λ n. take n (out_node q).bytes)
        (omega (
          arith,
          length-frame q h.valid (front-IsReady cap width f fs q h),
          ap length (front_frame cap width f fs q h),
        ))
      ∙ sym (take-take len (pos_part (out_node q).datalen) (out_node q).bytes)
      ∙ ap (take len) (front_frame cap width f fs q h)

-- The queue between the lock of its oldest slot and the unlock.
abbrev pub locked_out : CQueue → CQueue
locked_out q = record q {
  que = set q.que q.out_index (record (out_node q) { locked = true });
  sem = q.sem - 1;
  effectives = q.effectives - 1;
}

pub locked_out_slot :
    (q : CQueue)
    → IsValid q
    → get_elem? (locked_out q).que q.out_index ≡ some (record (out_node q) { locked = true })
locked_out_slot q v =
    get_elem?-set_self q.que q.out_index (record (out_node q) { locked = true }) (omega arith)

unlock_out :
    (q : CQueue) (v : IsValid q) (m k s : ℕ)
    → (out_node q).locked ≡ false
    → unlock q.out_index (record (locked_out q) { out_index = k; effectives = m; sem = s })
      ≡ done tt (record q { out_index = k; effectives = m; sem = s })
unlock_out q v m k s free =
    unlock_lem (record (locked_out q) { out_index = k; effectives = m; sem = s }) q.out_index
      (record (out_node q) { locked = true }) (locked_out_slot q v)
    ∙ ap (λ ns. done tt (record q { que = ns; out_index = k; effectives = m; sem = s }))
        (unlock-lock q v free)

-- A pop of the oldest frame, given what becomes of the caller's buffer.
module _ (cap width : ℕ) (f : Bytes) (fs : Frames) (q : CQueue) (h : Models cap width (f ∷ fs) q)
    (buf copied : Option Bytes) (len : ℕ)
    (copies : copy_out buf (out_node q).bytes (pos (min len (length f))) (locked_out q)
      ≡ done copied (locked_out q)) where
  open q use {out_index as i}

  abbrev after : CQueue
  after = popped (left cap width f fs q h) q

  copylen : min_ℤ (pos len) (out_node q).datalen ≡ pos (min len (length f))
  copylen = rw (datalen-front cap width f fs q h) (ground arith)

  take_frame_lem :
      take_frame buf (pos len) i (locked_out q) ≡ done (pos (min len (length f)), copied) after
  unfolding take_frame
  take_frame_lem =
      bind_done (node i) _ (
        node_lem (locked_out q) i (record (out_node q) { locked = true })
          (locked_out_slot q h.valid))
      ∙ bind_done (copy_out buf (out_node q).bytes (min_ℤ (pos len) (out_node q).datalen)) _
          {t = locked_out q} {a = copied} (rw copylen copies)
      ∙ bind_done (unlock i) _ {t = after} (
          unlock_out q h.valid (q.effectives - 1) (loop_add i q.max_frames) (q.sem - 1)
            (front-IsReady cap width f fs q h).unlocked
          ∙ ap (λ s. done tt (record after { sem = s - 1 })) h.valid.counts)
      ∙ rw copylen

  pop_front : pop buf (pos len) q ≡ done (pos (min len (length f)), copied) after
  unfolding pop
  pop_front =
      bind_done (lock i) _ (
        lock_free (record q { sem = q.sem - 1 }) i (out_node q) (out_slot q h.valid)
          (front-IsReady cap width f fs q h).unlocked)
      ∙ rw (zero_ne q.effectives (left cap width f fs q h) (effectives-left cap width f fs q h))
          take_frame_lem

module _ (cap width : ℕ) (f : Bytes) (fs : Frames) (q : CQueue)
    (h : Models cap width (f ∷ fs) q) where
  copy_lem :
      (buf : Bytes) (len : ℕ)
      → min len (length f) ≤ length buf
      → copy_out (some buf) (out_node q).bytes (pos (min len (length f))) (locked_out q)
        ≡ done (some (take len f ++ drop (min len (length f)) buf)) (locked_out q)
  unfolding copy_out
  copy_lem buf len room = rw (
    memcpy_start buf (out_node q).bytes (min len (length f)) room
        (omega (arith, length-front cap width f fs q h)),
    take-front cap width f fs q h len,
  )

  pub pop_found :
      (buf : Bytes) (len : ℕ)
      → min len (length f) ≤ length buf
      → pop (some buf) (pos len) q
        ≡ done
            (pos (min len (length f)), some (take len f ++ drop (min len (length f)) buf))
            (popped (left cap width f fs q h) q)
  pop_found buf len room =
      pop_front cap width f fs q h (some buf) (some (take len f ++ drop (min len (length f)) buf))
        len (copy_lem buf len room)

  -- With NULL for the buffer the frame is given up unread.
  pub pop_discards :
      (len : ℕ)
      → pop none (pos len) q
        ≡ done (pos (min len (length f)), none) (popped (left cap width f fs q h) q)
  unfolding copy_out
  pop_discards len = pop_front cap width f fs q h none none len (λ i. done none (locked_out q))

-- A pop on an empty queue.
module _ (cap width : ℕ) (q : CQueue) (h : Models cap width [] q) (buf : Option Bytes)
    (len : ℤ) where
  open q use {out_index as i}

  none_there : q.effectives ≡ 0
  none_there = omega (arith, length-contents q, ap length h.frames)

  sem_down : record q { sem = q.sem - 1 } ≡ q
  sem_down = ap (λ s. record q { sem = s }) (omega (arith, none_there, h.valid.counts))

  counts_down : record q { effectives = 0; sem = q.sem - 1 } ≡ q
  counts_down =
      ap₂ (λ n s. record q { effectives = n; sem = s }) (sym none_there)
        (omega (arith, none_there, h.valid.counts))

  no_frame_lem : (out_node q).locked ≡ false → no_frame buf i (locked_out q) ≡ done (pos 0, buf) q
  unfolding no_frame
  no_frame_lem free =
      bind_done (unlock i) _ (unlock_out q h.valid 0 i (q.sem - 1) free)
      ∙ ap (done (pos 0, buf)) counts_down

  pub pop_empty : (out_node q).locked ≡ false → pop buf len q ≡ done (pos 0, buf) q
  unfolding pop
  pop_empty free =
      bind_done (lock i) _
        (lock_free (record q { sem = q.sem - 1 }) i (out_node q) (out_slot q h.valid) free)
      ∙ rw (zero_eq q.effectives none_there) (no_frame_lem free)

  pub pop_blocked : (out_node q).locked ≡ true → pop buf len q ≡ waits q
  unfolding pop
  pop_blocked held =
      bind_waits (lock i) _
        (lock_held (record q { sem = q.sem - 1 }) i (out_node q) (out_slot q h.valid) held)
      ∙ ap waits sem_down
