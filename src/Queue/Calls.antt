-- ===== src/Queue/Calls.antt =====
-- Sequences of calls on one CQueue, by any threads, against the abstract queue.
use canok_rtsp_client.Base.{
  ℕ, zero, suc, ◌≤◌, ◌<◌, ◌≡◌, refl, sym, ap, subst, ◌∙◌, le→leb, Bool-cases, inl, inr, Option,
  none, some, [], ◌∷◌, Bytes, arith, length, take,
}
use canok_rtsp_client.Base.Int.{ℤ, pos, negsuc}
use canok_rtsp_client.Base.Outcome.{Outcome, done}
use canok_rtsp_client.Queue.{
  CQueue, Lease, init_nodes, create, push, pop, getbuffer, releasebuffer, release_index,
}
use canok_rtsp_client.Queue.Frames
use canok_rtsp_client.Queue.Frames.{Frames}
use canok_rtsp_client.Queue.Valid.{Models, AllSized, length-contents}
use canok_rtsp_client.Queue.Push.{in_node}
use canok_rtsp_client.Queue.Front.{out_node, popped-Models}
use canok_rtsp_client.Queue.Pop.{pop_discards}
use canok_rtsp_client.Queue.Refine.{
  push_refines, push_sleeps, pop_refines, pop-empty, getbuffer_refines,
}
use canok_rtsp_client.Queue.Lend.{released-Models, releasebuffer-released}

-- An index that no slot has, such as the -1 of a `getbuffer` without a frame.
abbrev pub NoSlot : ℤ → CQueue → Type 0
NoSlot (pos i) q = q.max_frames ≤ i
NoSlot (negsuc i) q = Unit

-- A call that returns. Its arguments are as the callers' contract wants them: `push` has a pointer that is
-- not NULL, `len` is not below 0, and there are as many bytes at a pointer as it says. `pop` may have NULL for its buffer, and
-- `releasebuffer` may have any index. A push of NULL queues what malloc or an earlier frame left in
-- the slot, and is no call of this kind.
pub data Step (q q' : CQueue) : Type 0 where
  pushes :
      (src : Bytes) (len : ℕ) (n : ℤ)
      → len ≤ length src
      → push (some src) (pos len) q ≡ done n q'
      → Step q q'
  pops :
      (buf : Bytes) (len : ℕ) (r : ℤ × Option Bytes)
      → len ≤ length buf
      → pop (some buf) (pos len) q ≡ done r q'
      → Step q q'
  discards : (len : ℕ) (r : ℤ × Option Bytes) → pop none (pos len) q ≡ done r q' → Step q q'
  lends : (l : Lease) → getbuffer q ≡ done l q' → Step q q'
  releases : (i n : ℕ) → i < q.max_frames → releasebuffer (pos i) q ≡ done n q' → Step q q'
  releases_none : (i : ℤ) (n : ℕ) → NoSlot i q → releasebuffer i q ≡ done n q' → Step q q'

pub data Reach (q : CQueue) : CQueue → Type 0 where
  here : Reach q q
  next : {s t : CQueue} → Reach q s → Step s t → Reach q t

-- One step of the abstract queue.
pub data FrameStep (cap width : ℕ) (fs fs' : Frames) : Type 0 where
  appends : (f : Bytes) → fs' ≡ Frames.push cap width f fs → FrameStep cap width fs fs'
  removes : (f : Bytes) → fs ≡ f ∷ fs' → FrameStep cap width fs fs'
  keeps : fs' ≡ fs → FrameStep cap width fs fs'

pub done-state :
    {A : Type 0} {a b : A} {s t : CQueue} → ◌≡◌ {A = Outcome CQueue A} (done a s) (done b t) → s ≡ t
done-state e = cc e

-- `releasebuffer` on an index that no slot has changes nothing.
pub release_none_lem :
    (q q' : CQueue) (i : ℤ) (n : ℕ) → NoSlot i q → releasebuffer i q ≡ done n q' → q ≡ q'
unfolding releasebuffer release_index
release_none_lem q q' (negsuc i) n out e = done-state e
release_none_lem q q' (pos i) n out e = done-state (sym nothing ∙ e)
  where
    nothing : releasebuffer (pos i) q ≡ done 0 q
    nothing = rw (le→leb q.max_frames i out) refl

abbrev Simulated : ℕ → ℕ → Frames → CQueue → Type 0
Simulated cap width fs q' = (fs' : Frames) × FrameStep cap width fs fs' × Models cap width fs' q'

module _ (cap width : ℕ) (q q' : CQueue) where
  push-Simulated :
      (fs : Frames)
      → Models cap width fs q
      → (src : Bytes) (len : ℕ) (n : ℤ) → len ≤ length src
      → push (some src) (pos len) q ≡ done n q'
      → Simulated cap width fs q'
  push-Simulated fs h src len n fits e = elim (Bool-cases (in_node q).locked) [
    | inl held ↦ cc (push_sleeps cap width fs q (some src) (pos len) h held, e)
    | inr free ↦
        let (t, returns, m) = push_refines cap width fs q src len h (omega arith) free in
        (
          Frames.push cap width (take len src) fs,
          appends (take len src) refl,
          subst (Models cap width _) (done-state (sym returns ∙ e)) m,
        )
  ]

  pop-Simulated :
      (fs : Frames)
      → Models cap width fs q
      → (buf : Bytes) (len : ℕ) (r : ℤ × Option Bytes) → len ≤ length buf
      → pop (some buf) (pos len) q ≡ done r q'
      → Simulated cap width fs q'
  pop-Simulated [] h buf len r fits e = elim (Bool-cases (out_node q).locked) [
    | inl held ↦ cc ((pop-empty cap width q (some buf) (pos len) h).1 held, e)
    | inr free ↦ (
      [],
      keeps refl,
      subst (Models cap width [])
          (done-state (sym ((pop-empty cap width q (some buf) (pos len) h).0 free) ∙ e)) h,
    )
  ]
  pop-Simulated (f ∷ fs) h buf len r fits e =
      let (t, returns, m) = pop_refines cap width f fs q buf len h (omega arith) in
      (fs, removes f refl, subst (Models cap width fs) (done-state (sym returns ∙ e)) m)

  discard-Simulated :
      (fs : Frames)
      → Models cap width fs q
      → (len : ℕ) (r : ℤ × Option Bytes) → pop none (pos len) q ≡ done r q'
      → Simulated cap width fs q'
  discard-Simulated [] h len r e = elim (Bool-cases (out_node q).locked) [
    | inl held ↦ cc ((pop-empty cap width q none (pos len) h).1 held, e)
    | inr free ↦ (
      [],
      keeps refl,
      subst (Models cap width [])
          (done-state (sym ((pop-empty cap width q none (pos len) h).0 free) ∙ e)) h,
    )
  ]
  discard-Simulated (f ∷ fs) h len r e = (
    fs,
    removes f refl,
    subst (Models cap width fs) (done-state (sym (pop_discards cap width f fs q h len) ∙ e))
        (popped-Models cap width f fs q h),
  )

  lend-Simulated :
      (fs : Frames)
      → Models cap width fs q
      → (l : Lease) → getbuffer q ≡ done l q'
      → Simulated cap width fs q'
  lend-Simulated [] h l e = cc (getbuffer_refines cap width [] q h, e)
  lend-Simulated (f ∷ fs) h l e =
      let g = getbuffer_refines cap width (f ∷ fs) q h in
      (fs, removes f refl, subst (Models cap width fs) (done-state (sym g.returns ∙ e)) g.others)

  release-Simulated :
      (fs : Frames)
      → Models cap width fs q
      → (i n : ℕ) → i < q.max_frames
      → releasebuffer (pos i) q ≡ done n q'
      → Simulated cap width fs q'
  release-Simulated fs h i n inside e =
      let lt : i < cap = omega (arith, h.capacity) in
      (
        fs,
        keeps refl,
        subst (Models cap width fs)
            (done-state (sym (releasebuffer-released cap width fs q h i lt) ∙ e))
            (released-Models cap width fs q h i lt),
      )

-- Every call that returns and keeps the contract of `Step` (the pointer of a `push` is not NULL, no
-- length is below 0, and a buffer has as many bytes as the call says) is a step of the abstract queue: it appends a frame as the
-- specification does, takes the oldest frame, or leaves the frames alone; and the queue still
-- implements the abstract one.
pub Step-FrameStep :
    (cap width : ℕ) (fs : Frames) (q q' : CQueue)
    → Models cap width fs q
    → Step q q'
    → (fs' : Frames) × FrameStep cap width fs fs' × Models cap width fs' q'
Step-FrameStep cap width fs q q' h (pushes src len n fits e) =
    push-Simulated cap width q q' fs h src len n fits e
Step-FrameStep cap width fs q q' h (pops buf len r fits e) =
    pop-Simulated cap width q q' fs h buf len r fits e
Step-FrameStep cap width fs q q' h (discards len r e) =
    discard-Simulated cap width q q' fs h len r e
Step-FrameStep cap width fs q q' h (releases_none i n out e) =
    (fs, keeps refl, subst (Models cap width fs) (release_none_lem q q' i n out e) h)
Step-FrameStep cap width fs q q' h (lends l e) = lend-Simulated cap width q q' fs h l e
Step-FrameStep cap width fs q q' h (releases i n inside e) =
    release-Simulated cap width q q' fs h i n inside e

-- What malloc gives: each slot has its bytes.
abbrev pub Allocated : ℕ → (ℕ → ℤ × Bytes) → Type 0
Allocated width raw = (i : ℕ) → length (raw i).1 ≡ width

init_nodes_sized :
    (width : ℕ) (raw : ℕ → ℤ × Bytes)
    → Allocated width raw
    → (i n : ℕ) → AllSized width (init_nodes raw i n) × (length (init_nodes raw i n) ≡ n)
unfolding init_nodes
init_nodes_sized width raw h i zero = (tt, refl)
init_nodes_sized width raw h i (suc n) =
    let rest = init_nodes_sized width raw h (suc i) n in ((h i, rest.0), ap suc rest.1)

pub create-Models :
    (cap width : ℕ) (raw : ℕ → ℤ × Bytes)
    → 0 < cap
    → Allocated width raw
    → Models cap width [] (create cap width raw)
unfolding create
create-Models cap width raw some_slot h =
    let nodes = init_nodes_sized width raw h 0 cap in
    record {
      valid = record {
        some_slot = some_slot;
        slots = nodes.1;
        in_range = some_slot;
        out_range = some_slot;
        few = omega arith;
        counts = refl;
        distance = inl refl;
        sized = nodes.0;
        ready = tt;
      };
      capacity = refl;
      slot_width = refl;
      frames = refl;
    }

pub Reach-Frames :
    {cap width : ℕ} {fs : Frames} {q t : CQueue}
    → Models cap width fs q
    → Reach q t
    → (fs' : Frames) × Models cap width fs' t
Reach-Frames {fs} m here = (fs, m)
Reach-Frames {cap} {width} m (next {s} {t} r st) =
    let (fs', m') = Reach-Frames m r in
    let (fs'', _, m'') = Step-FrameStep cap width fs' s t m' st in (fs'', m'')

-- From a new queue with at least one slot, no sequence of calls that keep the contract of `Step` (no push
-- of NULL, no length below 0, buffers as long as the call says) leaves the invariant: a reachable queue implements some
-- abstract queue of its capacity and width, with at most `cap` frames.
pub Reach-Models :
    (cap width : ℕ) (raw : ℕ → ℤ × Bytes) (q : CQueue)
    → 0 < cap
    → Allocated width raw
    → Reach (create cap width raw) q
    → (fs : Frames) × Models cap width fs q × (length fs ≤ cap)
Reach-Models cap width raw q some_slot h r =
    let (fs, m) = Reach-Frames (create-Models cap width raw some_slot h) r in
    (fs, m, length-frames-le fs m)
  where
    length-frames-le : (fs : Frames) → Models cap width fs q → length fs ≤ cap
    length-frames-le fs m =
        omega (arith, length-contents q, ap length m.frames, m.valid.few, m.capacity)
