-- ===== src/Queue/Pushed.antt =====
-- What `CQueue::push` leaves behind is valid, and holds the frames of the specification.
use canok_rtsp_client.Base.{
  ℕ, suc, ◌-◌, ◌≤◌, ◌<◌, ◌≡◌, refl, sym, ap, subst, ◌∙◌, min, ◌==◌, [], ◌∷◌, ◌++◌, Bytes, arith,
  length, set, take, drop, tail, length-set, take-append, take-take, lt→ne, length-take, ==_iff,
  Bool-cases, inl, inr,
}
use canok_rtsp_client.Base.Memory.{length-memcpy_start}
use canok_rtsp_client.Queue.{Node, CQueue, loop_add}
use canok_rtsp_client.Queue.Frames
use canok_rtsp_client.Queue.Push.{in_node, written, pushed}
use canok_rtsp_client.Queue.Valid.{
  IsValid, Holds, IsReady, contents, frame, length-contents, AllSized-get, AllSized-set,
  window-set_next, window, IsNext, AllReady, AllReady-set_next,
}

-- What a push leaves behind is valid, and holds the frames of the specification.
module _ (q : CQueue) (v : IsValid q) (src : Bytes) (c : ℕ) (fits : c ≤ length src)
    (small : c ≤ q.frame_len) where
  open q use {in_index as i, max_frames as cap}

  abbrev slot_now : Node
  slot_now = written (in_node q) src c

  written-IsReady : IsReady q.frame_len slot_now
  written-IsReady = record { unlocked = refl; counted = refl; short = small }

  length-written : length slot_now.bytes ≡ q.frame_len
  length-written = omega (
    arith,
    length-memcpy_start (in_node q).bytes src c
        (omega (arith, AllSized-get q.frame_len q.que i v.sized)) fits,
    AllSized-get q.frame_len q.que i v.sized,
  )

  frame-written : frame slot_now ≡ take c src
  frame-written =
      take-append (take c src) (drop c (in_node q).bytes) c (omega (arith, length-take c src))

  window-pushed :
      (h n : ℕ)
      → h < cap
      → n < cap
      → IsNext cap i h n
      → window (set q.que i slot_now) cap h (suc n) ≡ window q.que cap h n ++ (take c src ∷ [])
  window-pushed h n hh hn e =
      window-set_next q.que cap i slot_now h n v.slots hh hn e
      ∙ ap (λ f. window q.que cap h n ++ (f ∷ [])) frame-written

  abbrev room_left : CQueue
  room_left = record q {
    que = set q.que i slot_now;
    in_index = loop_add i cap;
    effectives = suc q.effectives;
    sem = suc q.sem;
  }

  pushed-room_left : q.effectives < cap → pushed q src c ≡ room_left
  pushed-room_left room = ground arith

  room_left-IsValid : q.effectives < cap → IsValid room_left
  room_left-IsValid room = record {
    some_slot = v.some_slot;
    slots = omega (arith, length-set q.que i slot_now, v.slots);
    in_range = ground arith;
    out_range = v.out_range;
    few = room;
    counts = ap suc v.counts;
    distance = ground arith;
    sized = AllSized-set q.frame_len q.que i slot_now v.sized length-written;
    ready =
        AllReady-set_next q.que cap i slot_now q.frame_len q.out_index q.effectives v.slots
          v.out_range room (ground arith) written-IsReady v.ready;
  }

  -- On a full queue, with `m` frames besides the oldest.
  abbrev none_left : CQueue
  none_left = record q {
    que = set q.que i slot_now;
    in_index = loop_add i cap;
    out_index = loop_add q.out_index cap;
  }

  pushed-none_left : q.effectives ≡ cap → pushed q src c ≡ none_left
  pushed-none_left full = ground arith

  module _ (m : ℕ) (full : q.effectives ≡ suc m) (all : suc m ≡ cap) where
    others_ready : AllReady q.que cap q.frame_len (loop_add q.out_index cap) m
    others_ready = (subst (AllReady q.que cap q.frame_len q.out_index) full v.ready).1

    next : IsNext cap i (loop_add q.out_index cap) m
    next = ground arith

    none_left-IsValid : IsValid none_left
    none_left-IsValid = record {
      some_slot = v.some_slot;
      slots = omega (arith, length-set q.que i slot_now, v.slots);
      in_range = ground arith;
      out_range = ground arith;
      few = v.few;
      counts = v.counts;
      distance = ground arith;
      sized = AllSized-set q.frame_len q.que i slot_now v.sized length-written;
      ready =
          subst (AllReady (set q.que i slot_now) cap q.frame_len (loop_add q.out_index cap))
            (sym full)
            (AllReady-set_next q.que cap i slot_now q.frame_len (loop_add q.out_index cap) m v.slots
              (ground arith) (omega arith) next written-IsReady others_ready);
    }

    contents-none_left : contents none_left ≡ tail (contents q) ++ (take c src ∷ [])
    contents-none_left =
        rw (full) (window-pushed (loop_add q.out_index cap) m (ground arith) (omega arith) next)

  pushed_full : q.effectives ≡ cap → Holds (tail (contents q) ++ (take c src ∷ [])) (pushed q src c)
  pushed_full full =
      subst (Holds (tail (contents q) ++ (take c src ∷ []))) (sym (pushed-none_left full)) (
        none_left-IsValid (cap - 1) (omega arith) (omega arith),
        contents-none_left (cap - 1) (omega arith) (omega arith),
      )

  pushed_room : q.effectives < cap → Holds (contents q ++ (take c src ∷ [])) (pushed q src c)
  pushed_room room = subst (Holds (contents q ++ (take c src ∷ []))) (sym (pushed-room_left room)) (
    room_left-IsValid room,
    window-pushed q.out_index q.effectives v.out_range room (ground arith),
  )

  module _ (len : ℕ) (e : c ≡ min len q.frame_len) where
    cut : take q.frame_len (take len src) ≡ take c src
    cut = take-take q.frame_len len src ∙ ap (λ k. take k src) (sym e)

    push_full :
        q.effectives ≡ cap
        → tail (contents q) ++ (take c src ∷ [])
          ≡ Frames.push cap q.frame_len (take len src) (contents q)
    unfolding Frames.push
    push_full full = rw (cut, length-contents q, (==_iff _ _).1 full)

    push_room :
        q.effectives < cap
        → contents q ++ (take c src ∷ []) ≡ Frames.push cap q.frame_len (take len src) (contents q)
    unfolding Frames.push
    push_room room = rw (cut, length-contents q, lt→ne q.effectives cap room)

    pub pushed-Holds :
        Holds (Frames.push cap q.frame_len (take len src) (contents q)) (pushed q src c)
    pushed-Holds = elim (Bool-cases (q.effectives == cap)) [
      | inl full ↦
          let e' = (==_iff q.effectives cap).0 full in
          subst (λ fs. Holds fs (pushed q src c)) (push_full e') (pushed_full e')
      | inr room ↦
          let lt : q.effectives < cap = ground arith in
          subst (λ fs. Holds fs (pushed q src c)) (push_room lt) (pushed_room lt)
    ]
