-- ===== src/Queue/Front.antt =====
-- The oldest frame of a CQueue, and the queue without it.
use canok_rtsp_client.Base.{
  ℕ, suc, ◌-◌, ◌≡◌, refl, sym, ap, subst, ◌∙◌, some, false, true, Bytes, ◌∷◌, arith, length,
  get_elem?, get_or, set, get_elem?-eq-get_or, set_same, set-set, length-take,
}
use canok_rtsp_client.Base.Int.{pos_part}
use canok_rtsp_client.Queue.{Node, CQueue, loop_add}
use canok_rtsp_client.Queue.Frames.{Frames}
use canok_rtsp_client.Queue.Valid.{
  blank, IsValid, IsReady, AllReady, contents, window, frame, AllSized-get, Models, length-contents,
}

-- The slot that the next `pop` or `getbuffer` reads.
abbrev pub out_node : CQueue → Node
out_node q = get_or q.que q.out_index blank

-- The queue with its oldest frame given up and `m` frames left.
abbrev pub popped : ℕ → CQueue → CQueue
popped m q = record q { out_index = loop_add q.out_index q.max_frames; effectives = m; sem = m }

module _ (q : CQueue) (v : IsValid q) where
  pub out_slot : get_elem? q.que q.out_index ≡ some (out_node q)
  out_slot = get_elem?-eq-get_or q.que q.out_index blank (omega arith)

  module _ (m : ℕ) (e : q.effectives ≡ suc m) where
    all_ready : AllReady q.que q.max_frames q.frame_len q.out_index (suc m)
    all_ready = subst (AllReady q.que q.max_frames q.frame_len q.out_index) e v.ready

    pub out_node-IsReady : IsReady q.frame_len (out_node q)
    out_node-IsReady = all_ready.0

    pub popped-IsValid : IsValid (popped m q)
    popped-IsValid = record {
      some_slot = v.some_slot;
      slots = v.slots;
      in_range = v.in_range;
      out_range = ground arith;
      few = omega arith;
      counts = refl;
      distance = ground arith;
      sized = v.sized;
      ready = all_ready.1;
    }

    pub contents-popped : contents q ≡ frame (out_node q) ∷ contents (popped m q)
    contents-popped = ap (window q.que q.max_frames q.out_index) e

  -- The length recorded in a slot is that of its frame.
  pub length-frame :
      IsReady q.frame_len (out_node q) → pos_part (out_node q).datalen ≡ length (frame (out_node q))
  length-frame r = omega (
    arith,
    length-take (pos_part (out_node q).datalen) (out_node q).bytes,
    AllSized-get q.frame_len q.que q.out_index v.sized,
  )

  -- Locking the slot and unlocking it again changes nothing.
  pub unlock-lock :
      (out_node q).locked ≡ false
      → set
          (set q.que q.out_index (record (out_node q) { locked = true }))
          q.out_index
          (record (out_node q) { locked = false })
        ≡ q.que
  unlock-lock free =
      set-set q.que q.out_index (record (out_node q) { locked = true })
        (record (out_node q) { locked = false })
      ∙ set_same q.que q.out_index (record (out_node q) { locked = false })
          (out_slot ∙ ap some (ground arith))

-- A frame that the queue holds comes with the facts that its readers need.
module _ (cap width : ℕ) (f : Bytes) (fs : Frames) (q : CQueue)
    (h : Models cap width (f ∷ fs) q) where
  abbrev pub left : ℕ
  left = q.effectives - 1

  pub effectives-left : q.effectives ≡ suc left
  effectives-left = omega (arith, length-contents q, ap length h.frames)

  split_frames : frame (out_node q) ∷ contents (popped left q) ≡ f ∷ fs
  split_frames = sym (contents-popped q h.valid left effectives-left) ∙ h.frames

  pub front_frame : frame (out_node q) ≡ f
  front_frame = cc split_frames

  pub front-IsReady : IsReady q.frame_len (out_node q)
  front-IsReady = out_node-IsReady q h.valid left effectives-left

  pub popped-Models : Models cap width fs (popped left q)
  popped-Models = record {
    valid = popped-IsValid q h.valid left effectives-left;
    capacity = h.capacity;
    slot_width = h.slot_width;
    frames = cc split_frames;
  }
