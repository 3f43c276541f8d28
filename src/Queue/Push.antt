-- ===== src/Queue/Push.antt =====
-- `CQueue::push`: when it returns, what it leaves behind, and that it keeps the invariant.
use canok_rtsp_client.Base.{
  ℕ, ◌+◌, ◌≤◌, ◌≡◌, ap, ◌∙◌, true, false, ◌==◌, ◌++◌, Bytes, arith, length, get_or, get_elem?, set,
  take, drop, leb, if◌then◌else◌, Option, some, none, length-set, get_elem?-eq-get_or,
  get_elem?-set_self, set-set,
}
use canok_rtsp_client.Base.Int.{ℤ, pos, min_ℤ}
use canok_rtsp_client.Base.Memory.{memcpy}
use canok_rtsp_client.Base.Outcome.{done, waits, fault, bind_done, bind_waits, bind_fault}
use canok_rtsp_client.Queue.Steps.{lock_free, lock_held, unlock_lem, copy_in-some, copy_in-none}
use canok_rtsp_client.Queue.{
  Node, CQueue, loop_add, push, set_node, cover_oldest, lock, unlock, copy_in,
}
use canok_rtsp_client.Queue.Valid.{blank, IsValid, AllSized-get}

-- The slot that the next push writes.
abbrev pub in_node : CQueue → Node
in_node q = get_or q.que q.in_index blank

-- The slot's bytes after a copy of `c` bytes.
abbrev pub written : Node → Bytes → ℕ → Node
written n src c = record { locked = false; datalen = pos c; bytes = take c src ++ drop c n.bytes }

abbrev pub pushed : CQueue → Bytes → ℕ → CQueue
pushed q src c = record q {
  que = set q.que q.in_index (written (in_node q) src c);
  in_index = loop_add q.in_index q.max_frames;
  out_index =
      if q.effectives == q.max_frames then loop_add q.out_index q.max_frames else q.out_index;
  effectives = if q.effectives == q.max_frames then q.max_frames else q.effectives + 1;
  sem = if q.effectives == q.max_frames then q.sem else q.sem + 1;
}

module _ (q : CQueue) (v : IsValid q) where
  pub in_slot : get_elem? q.que q.in_index ≡ some (in_node q)
  in_slot = get_elem?-eq-get_or q.que q.in_index blank (omega arith)

  -- While a client holds the slot, a push sleeps, and has changed nothing.
  pub push-waits :
      (src : Option Bytes) (len : ℤ) → (in_node q).locked ≡ true → push src len q ≡ waits q
  unfolding push
  push-waits src len h =
      bind_waits (lock q.in_index) _ (lock_held q q.in_index (in_node q) in_slot h)

-- The slot with `c` bytes of `src`, still locked.
abbrev filled : Node → Bytes → ℕ → Node
filled n src c = record (written n src c) { locked = true }

module _ (q : CQueue) (v : IsValid q) (src : Bytes) (c : ℕ) (fits : c ≤ length src)
    (small : c ≤ q.frame_len) (free : (in_node q).locked ≡ false) where
  open q use {in_index as i}

  abbrev held : CQueue
  held = set_node i (record (in_node q) { locked = true }) q

  abbrev copied : CQueue
  copied = set_node i (filled (in_node q) src c) held

  held_slot : get_elem? held.que i ≡ some (record (in_node q) { locked = true })
  held_slot = get_elem?-set_self q.que i (record (in_node q) { locked = true }) (omega arith)

  copy_in-held : copy_in i (some src) (pos c) held ≡ done tt copied
  copy_in-held =
      copy_in-some held i (record (in_node q) { locked = true }) held_slot src c
        (omega (arith, AllSized-get q.frame_len q.que i v.sized)) fits

  abbrev before_unlock : CQueue
  before_unlock = record (pushed q src c) { que = copied.que }

  -- The state after `IncreaseEffectives`.
  abbrev counted : CQueue
  counted = record copied {
    in_index = loop_add i q.max_frames;
    sem = q.sem + 1;
    effectives = if leb (q.effectives + 1) q.max_frames then q.effectives + 1 else q.max_frames;
  }

  cover_counted : cover_oldest q.effectives counted ≡ done tt before_unlock
  unfolding cover_oldest
  cover_counted = ground arith

  unlock_last : unlock i before_unlock ≡ done tt (pushed q src c)
  unlock_last =
      unlock_lem before_unlock i (filled (in_node q) src c) (
        get_elem?-set_self held.que i (filled (in_node q) src c)
          (omega (arith, length-set q.que i (record (in_node q) { locked = true }))))
      ∙ ap (λ ns. done tt (record (pushed q src c) { que = ns }))
          (set-set held.que i (filled (in_node q) src c) (written (in_node q) src c)
            ∙ set-set q.que i (record (in_node q) { locked = true }) (written (in_node q) src c))

  pub push-pushed :
      (len : ℤ)
      → min_ℤ len (pos q.frame_len) ≡ pos c
      → push (some src) len q ≡ done (pos c) (pushed q src c)
  unfolding push
  push-pushed len e =
      bind_done (lock q.in_index) _ (lock_free q q.in_index (in_node q) (in_slot q v) free)
      ∙ bind_done (copy_in i (some src) (min_ℤ len (pos q.frame_len))) _ {t = copied}
          (rw e copy_in-held)
      ∙ bind_done (cover_oldest q.effectives) _ {s = counted} cover_counted
      ∙ bind_done (unlock i) _ unlock_last
      ∙ ap (λ n. done n (pushed q src c)) e

-- A copy out of bounds, or of a negative length, is a fault of the push.
pub push-fault :
    (q : CQueue) (src : Bytes) (len : ℤ)
    → IsValid q
    → (in_node q).locked ≡ false
    → memcpy (in_node q).bytes 0 src (min_ℤ len (pos q.frame_len)) ≡ none
    → push (some src) len q ≡ fault
unfolding push
push-fault q src len v free bad =
    bind_done (lock q.in_index) _ (lock_free q q.in_index (in_node q) (in_slot q v) free)
    ∙ bind_fault (copy_in q.in_index (some src) (min_ℤ len (pos q.frame_len))) _ (
        copy_in-none (set_node q.in_index (record (in_node q) { locked = true }) q) q.in_index
          (record (in_node q) { locked = true })
          (get_elem?-set_self q.que q.in_index (record (in_node q) { locked = true }) (omega arith))
          src (min_ℤ len (pos q.frame_len)) bad)
