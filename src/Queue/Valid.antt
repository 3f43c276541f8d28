-- ===== src/Queue/Valid.antt =====
-- The invariant of CQueue and the frames that it holds.
use canok_rtsp_client.Base.{
  ℕ, zero, suc, ◌+◌, ◌≤◌, ◌<◌, ◌≡◌, refl, ap, ap₂, ◌⊎◌, false, List, [], ◌∷◌, ◌++◌, Bytes, arith,
  length, get_or, set, take, get_or-set_self, get_or-set_ne,
}
use canok_rtsp_client.Base.Int.{pos, pos_part}
use canok_rtsp_client.Queue.{Node, CQueue, loop_add}
use canok_rtsp_client.Queue.Frames.{Frames}

abbrev pub blank : Node
blank = record { locked = false; datalen = pos 0; bytes = [] }

-- The frame in a slot.
abbrev pub frame : Node → Bytes
frame n = take (pos_part n.datalen) n.bytes

-- A slot that holds a frame: nobody has it locked, and its length was set by a push.
pub record IsReady (frame_len : ℕ) (n : Node) : Type 0 where
  pub unlocked : n.locked ≡ false
  pub counted : n.datalen ≡ pos (pos_part n.datalen)
  pub short : pos_part n.datalen ≤ frame_len

module _ (que : List Node) (cap : ℕ) where
  -- The `n` frames from slot `h` on.
  abbrev pub window : ℕ → ℕ → Frames
  window h zero = []
  window h (suc n) = frame (get_or que h blank) ∷ window (loop_add h cap) n

  abbrev pub AllReady : ℕ → ℕ → ℕ → Type 0
  AllReady frame_len h zero = Unit
  AllReady frame_len h (suc n) =
      IsReady frame_len (get_or que h blank) × AllReady frame_len (loop_add h cap) n

  pub length-window : (h n : ℕ) → length (window h n) ≡ n
  length-window h zero = refl
  length-window h (suc n) = ap suc (length-window (loop_add h cap) n)

-- Every slot has its `frame_len` bytes.
abbrev pub AllSized : ℕ → List Node → Type 0
AllSized frame_len [] = Unit
AllSized frame_len (n ∷ ns) = (length n.bytes ≡ frame_len) × AllSized frame_len ns

pub record IsValid (q : CQueue) : Type 0 where
  pub some_slot : 0 < q.max_frames
  pub slots : length q.que ≡ q.max_frames
  pub in_range : q.in_index < q.max_frames
  pub out_range : q.out_index < q.max_frames
  pub few : q.effectives ≤ q.max_frames
  pub counts : q.sem ≡ q.effectives
  pub distance :
      (q.in_index ≡ q.out_index + q.effectives)
      ⊎ (q.in_index + q.max_frames ≡ q.out_index + q.effectives)
  pub sized : AllSized q.frame_len q.que
  pub ready : AllReady q.que q.max_frames q.frame_len q.out_index q.effectives

abbrev pub contents : CQueue → Frames
contents q = window q.que q.max_frames q.out_index q.effectives

-- A valid queue that holds these frames, oldest first.
abbrev pub Holds : Frames → CQueue → Type 0
Holds fs q = IsValid q × (contents q ≡ fs)

-- The queue implements the abstract queue `fs` of capacity `cap` and width `width`.
pub record Models (cap width : ℕ) (fs : Frames) (q : CQueue) : Type 0 where
  pub valid : IsValid q
  pub capacity : q.max_frames ≡ cap
  pub slot_width : q.frame_len ≡ width
  pub frames : contents q ≡ fs

pub length-contents : (q : CQueue) → length (contents q) ≡ q.effectives
length-contents q = length-window q.que q.max_frames q.out_index q.effectives

pub AllSized-get :
    (w : ℕ) (que : List Node) (i : ℕ)
    → AllSized w que
    → i < length que
    → length (get_or que i blank).bytes ≡ w
AllSized-get w [] i h lt = absurd (omega arith)
AllSized-get w (n ∷ ns) zero h lt = h.0
AllSized-get w (n ∷ ns) (suc i) h lt = AllSized-get w ns i h.1 (omega arith)

pub AllSized-set :
    (w : ℕ) (que : List Node) (i : ℕ) (n : Node)
    → AllSized w que
    → length n.bytes ≡ w
    → AllSized w (set que i n)
AllSized-set w [] i n h e = tt
AllSized-set w (m ∷ ns) zero n h e = (e, h.1)
AllSized-set w (m ∷ ns) (suc i) n h e = (h.0, AllSized-set w ns i n h.1 e)

-- Slot `i` is none of the `n` slots from `h` on, going round at `cap`.
abbrev pub Outside : ℕ → ℕ → ℕ → ℕ → Type 0
Outside cap i h n = (i < cap) × ((h + n ≤ i) ⊎ ((i < h) × (h + n ≤ i + cap)))

Outside-next :
    (cap i h n : ℕ) → h < cap → Outside cap i h (suc n) → Outside cap i (loop_add h cap) n
Outside-next cap i h n hh out = ground arith

-- A write outside a window changes neither its frames nor their readiness.
module _ (que : List Node) (cap i : ℕ) (v : Node) where
  get_or-set-Outside :
      (h n : ℕ) → Outside cap i h (suc n) → get_or (set que i v) h blank ≡ get_or que h blank
  get_or-set-Outside h n out = get_or-set_ne que i h v blank (λ e. grind arith)

  pub window-set-Outside :
      (h n : ℕ) → h < cap → Outside cap i h n → window (set que i v) cap h n ≡ window que cap h n
  window-set-Outside h zero hh out = refl
  window-set-Outside h (suc n) hh out =
      ap₂ (λ a b. frame a ∷ b) (get_or-set-Outside h n out)
        (window-set-Outside (loop_add h cap) n (ground arith) (Outside-next cap i h n hh out))

  pub AllReady-set-Outside :
      (w h n : ℕ)
      → h < cap
      → Outside cap i h n
      → AllReady que cap w h n
      → AllReady (set que i v) cap w h n
  AllReady-set-Outside w h zero hh out r = tt
  AllReady-set-Outside w h (suc n) hh out r = (
    rw (get_or-set-Outside h n out) (r.0),
    AllReady-set-Outside w (loop_add h cap) n (ground arith) (Outside-next cap i h n hh out) r.1,
  )

-- The slot behind the `n` from `h` on.
abbrev pub IsNext : ℕ → ℕ → ℕ → ℕ → Type 0
IsNext cap i h n = (i < cap) × ((i ≡ h + n) ⊎ (i + cap ≡ h + n))

IsNext-IsNext :
    (cap i h n : ℕ) → h < cap → n < cap → IsNext cap i h (suc n) → IsNext cap i (loop_add h cap) n
IsNext-IsNext cap i h n hh hn e = ground arith

IsNext-Outside : (cap i h n : ℕ) → h < cap → n < cap → IsNext cap i h n → Outside cap i h n
IsNext-Outside cap i h n hh hn e = ground arith

-- A frame written just behind a window extends it.
module _ (que : List Node) (cap i : ℕ) (v : Node) where
  pub window-set_next :
      (h n : ℕ)
      → length que ≡ cap
      → h < cap
      → n < cap
      → IsNext cap i h n
      → window (set que i v) cap h (suc n) ≡ window que cap h n ++ (frame v ∷ [])
  window-set_next h zero sized hh hn e =
      rw (the_slot) (ap (λ (m : Node). frame m ∷ []) (get_or-set_self que h v blank (omega arith)))
    where
      the_slot : i ≡ h
      the_slot = ground arith
  window-set_next h (suc n) sized hh hn e =
      ap₂ (λ a b. frame a ∷ b) (get_or-set_ne que i h v blank (λ q. grind arith))
        (window-set_next (loop_add h cap) n sized (ground arith) (omega arith)
          (IsNext-IsNext cap i h n hh (omega arith) e))

  pub AllReady-set_next :
      (w h n : ℕ)
      → length que ≡ cap
      → h < cap
      → n < cap
      → IsNext cap i h n
      → IsReady w v
      → AllReady que cap w h n
      → AllReady (set que i v) cap w h (suc n)
  AllReady-set_next w h zero sized hh hn e v_ready r =
      (rw (the_slot, get_or-set_self que h v blank (omega arith)) v_ready, tt)
    where
      the_slot : i ≡ h
      the_slot = ground arith
  AllReady-set_next w h (suc n) sized hh hn e v_ready r = (
    rw (get_or-set_ne que i h v blank (λ q. grind arith)) r.0,
    AllReady-set_next w (loop_add h cap) n sized (ground arith) (omega arith)
        (IsNext-IsNext cap i h n hh (omega arith) e) v_ready r.1,
  )
