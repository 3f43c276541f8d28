-- ===== src/Queue/Refine.antt =====
-- CQueue against its specification: each method, and whole sequences of calls.
use canok_rtsp_client.Base.{
  ℕ, ◌≤◌, ◌<◌, ◌≡◌, sym, ap, ◌∙◌, min, false, true, Bytes, [], ◌∷◌, ◌++◌, arith, length, take, drop,
  some, Option, get_or, get_or-set_self, get_or-set_ne, ◌≢◌,
}
use canok_rtsp_client.Base.Int.{ℤ, pos, pos_part}
use canok_rtsp_client.Base.Outcome.{Outcome, done, waits}
use canok_rtsp_client.Queue.{Node, CQueue, Lease, push, pop, getbuffer}
use canok_rtsp_client.Queue.Frames
use canok_rtsp_client.Queue.Frames.{Frames}
use canok_rtsp_client.Queue.Valid.{Models, blank}
use canok_rtsp_client.Queue.Push.{in_node, pushed, push-pushed, push-waits}
use canok_rtsp_client.Queue.Pushed.{pushed-Holds}
use canok_rtsp_client.Queue.Front.{
  out_node, front-IsReady, popped, left, popped-Models, front_frame,
}
use canok_rtsp_client.Queue.Pop.{pop_found, pop_empty, pop_blocked, datalen-front}
use canok_rtsp_client.Queue.Lend.{getbuffer_found, getbuffer_empty, lent, lent-Models}

-- What lending the oldest frame `f` means for the call's outcome.
pub record LendsFrame (cap width : ℕ) (f : Bytes) (fs : Frames) (r : Outcome CQueue Lease)
    (q : CQueue) : Type 0 where
  pub index : ℕ
  pub bytes : Bytes
  pub after : CQueue
  pub returns :
      r ≡ done (record { index = pos index; pdata = some bytes; plen = pos (length f) }) after
  pub in_range : index < cap
  pub reads : take (length f) bytes ≡ f
  pub locked : (get_or after.que index blank).locked ≡ true
  pub others : Models cap width fs after
  pub was_free : (get_or q.que index blank).locked ≡ false
  pub other_locks :
      (j : ℕ) → index ≢ j → (get_or after.que j blank).locked ≡ (get_or q.que j blank).locked

abbrev pub Lends : ℕ → ℕ → Frames → CQueue → Outcome CQueue Lease → Type 0
Lends cap width [] q r = r ≡ waits q
Lends cap width (f ∷ fs) q r = LendsFrame cap width f fs r q

push_cong :
    {a a' b b' : ℕ} {fs fs' : Frames} (f : Bytes)
    → a ≡ a'
    → b ≡ b'
    → fs ≡ fs'
    → Frames.push a b f fs ≡ Frames.push a' b' f fs'
push_cong f p q r = cc

pushed-Models :
    (cap width : ℕ) (fs : Frames) (q : CQueue) (src : Bytes) (len : ℕ)
    → Models cap width fs q
    → min len width ≤ length src
    → Models cap width (Frames.push cap width (take len src) fs) (pushed q src (min len width))
pushed-Models cap width fs q src len h fits =
    let kept =
      pushed-Holds q h.valid src (min len width) fits (omega (arith, h.slot_width)) len
        (ap (min len) (sym h.slot_width)) in
    record {
      valid = kept.0;
      capacity = h.capacity;
      slot_width = h.slot_width;
      frames = kept.1 ∙ push_cong (take len src) h.capacity h.slot_width h.frames;
    }

pub push_done :
    (cap width : ℕ) (fs : Frames) (q : CQueue) (src : Bytes) (len : ℕ)
    → Models cap width fs q
    → min len width ≤ length src
    → (in_node q).locked ≡ false
    → push (some src) (pos len) q ≡ done (pos (min len width)) (pushed q src (min len width))
push_done cap width fs q src len h fits free =
    push-pushed q h.valid src (min len width) fits (omega (arith, h.slot_width)) free (pos len)
      (rw h.slot_width (ground arith))

-- A push to a slot that no client holds returns the length copied. The new frame, cut to the
-- width of a slot, is then the last, and on a full queue the oldest frame is gone.
pub push_refines :
    (cap width : ℕ) (fs : Frames) (q : CQueue) (src : Bytes) (len : ℕ)
    → Models cap width fs q
    → min len width ≤ length src
    → (in_node q).locked ≡ false
    → (q' : CQueue) × (push (some src) (pos len) q ≡ done (pos (min len width)) q')
      × Models cap width (Frames.push cap width (take len src) fs) q'
push_refines cap width fs q src len h fits free = (
  pushed q src (min len width),
  push_done cap width fs q src len h fits free,
  pushed-Models cap width fs q src len h fits,
)

-- A push to a slot that a client holds sleeps, and has changed nothing.
pub push_sleeps :
    (cap width : ℕ) (fs : Frames) (q : CQueue) (src : Option Bytes) (len : ℤ)
    → Models cap width fs q
    → (in_node q).locked ≡ true
    → push src len q ≡ waits q
push_sleeps cap width fs q src len h held = push-waits q h.valid src len held

-- A pop with a frame there copies the start of the oldest frame to the caller's buffer, leaves the
-- rest of the buffer alone, returns the length copied, and gives up the whole frame.
pub pop_refines :
    (cap width : ℕ) (f : Bytes) (fs : Frames) (q : CQueue) (buf : Bytes) (len : ℕ)
    → Models cap width (f ∷ fs) q
    → min len (length f) ≤ length buf
    → (q' : CQueue) × (pop (some buf) (pos len) q
        ≡ done (pos (min len (length f)), some (take len f ++ drop (min len (length f)) buf)) q')
      × Models cap width fs q'
pop_refines cap width f fs q buf len h room = (
  popped (left cap width f fs q h) q,
  pop_found cap width f fs q h buf len room,
  popped-Models cap width f fs q h,
)

-- A pop on an empty queue changes nothing: it returns 0, or sleeps if a client holds the slot that
-- comes next.
pub pop-empty :
    (cap width : ℕ) (q : CQueue) (buf : Option Bytes) (len : ℤ)
    → Models cap width [] q
    → ((out_node q).locked ≡ false → pop buf len q ≡ done (pos 0, buf) q)
      × ((out_node q).locked ≡ true → pop buf len q ≡ waits q)
pop-empty cap width q buf len h =
    (pop_empty cap width q h buf len, pop_blocked cap width q h buf len)

-- With a frame there, `getbuffer` lends the oldest frame: the bytes at `*pdata`, of which `*plen`
-- count, are that frame, its slot, which was free, is locked when the call returns, no other slot's lock
-- changes, and the other frames stay queued. On an empty queue it sleeps, and never returns -1.
pub getbuffer_refines :
    (cap width : ℕ) (fs : Frames) (q : CQueue)
    → Models cap width fs q
    → Lends cap width fs q (getbuffer q)
getbuffer_refines cap width [] q h = getbuffer_empty cap width q h
getbuffer_refines cap width (f ∷ fs) q h = record {
  index = q.out_index;
  bytes = (out_node q).bytes;
  after = lent cap width f fs q h;
  returns = getbuffer_found cap width f fs q h;
  in_range = omega (arith, h.valid.out_range, h.capacity);
  reads =
      ap (λ n. take n (out_node q).bytes) (ap pos_part (sym (datalen-front cap width f fs q h)))
      ∙ front_frame cap width f fs q h;
  locked =
      ap (λ (n : Node). n.locked)
        (get_or-set_self q.que q.out_index (record (out_node q) { locked = true }) blank
          (omega (arith, h.valid.slots, h.valid.out_range)));
  others = lent-Models cap width f fs q h;
  was_free = (front-IsReady cap width f fs q h).unlocked;
  other_locks = λ j ne.
      ap (λ (n : Node). n.locked)
        (get_or-set_ne q.que q.out_index j (record (out_node q) { locked = true }) blank ne);
}
