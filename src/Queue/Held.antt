-- ===== src/Queue/Held.antt =====
-- A lent slot: nothing but `releasebuffer` on its index changes it.
use canok_rtsp_client.Base.{
  ℕ, ◌≤◌, ◌<◌, ◌≡◌, ◌≢◌, refl, sym, ap, subst, ◌∙◌, min, true, false, Bool-cases, inl, inr, Option,
  none, some, [], ◌∷◌, Bytes, arith, length, take, get_elem?, get_or, set, get_elem?-set_ne,
  get_elem?-set_self, get_or-eq_of_get_elem?,
}
use canok_rtsp_client.Base.Int.{ℤ, pos, pos_part}
use canok_rtsp_client.Base.Outcome.{done}
use canok_rtsp_client.Queue.{Node, CQueue, Lease, push, pop, getbuffer, releasebuffer}
use canok_rtsp_client.Queue.Frames.{Frames}
use canok_rtsp_client.Queue.Valid.{blank, Models}
use canok_rtsp_client.Queue.Push.{in_node, in_slot, pushed}
use canok_rtsp_client.Queue.Front.{out_node, out_slot, front-IsReady, front_frame}
use canok_rtsp_client.Queue.Pop.{pop_found, pop_discards, pop_empty, pop_blocked, datalen-front}
use canok_rtsp_client.Queue.Lend.{
  lent, getbuffer_found, getbuffer_empty, lent-Models, released, releasebuffer-released,
}
use canok_rtsp_client.Queue.Refine.{push_done, push_sleeps}
use canok_rtsp_client.Queue.Calls.{
  Step, pushes, pops, discards, lends, releases, releases_none, release_none_lem, Step-FrameStep,
  done-state,
}

-- Slot `i` is locked and holds `n`.
abbrev pub Holding : ℕ → Node → CQueue → Type 0
Holding i n q = (get_elem? q.que i ≡ some n) × (n.locked ≡ true)

-- A call other than `releasebuffer(i)`.
abbrev pub Spares : ℕ → {q q' : CQueue} → Step q q' → Type 0
Spares i (pushes src len n fits e) = Unit
Spares i (pops buf len r fits e) = Unit
Spares i (discards len r e) = Unit
Spares i (releases_none j n out e) = Unit
Spares i (lends l e) = Unit
Spares i (releases j n inside e) = j ≢ i

-- A slot that is unlocked is another one.
other_slot :
    (q : CQueue) (i j : ℕ) (n m : Node)
    → Holding i n q
    → get_elem? q.que j ≡ some m
    → m.locked ≡ false
    → j ≢ i
other_slot q i j n m h e free p = cc (subst (λ k. get_elem? q.que k ≡ some m) p e, h.0, h.1, free)

module _ (cap width : ℕ) (q q' : CQueue) (i : ℕ) (n : Node) (held : Holding i n q) where
  kept : (j : ℕ) (v : Node) → j ≢ i → (t : CQueue) → t.que ≡ set q.que j v → t ≡ q' → Holding i n q'
  kept j v ne t e p =
      subst (Holding i n) p
        (ap (λ ns. get_elem? ns i) e ∙ get_elem?-set_ne q.que j i v ne ∙ held.0, held.1)

  push-Holding :
      (fs : Frames)
      → Models cap width fs q
      → (src : Bytes) (len : ℕ) (k : ℤ) → len ≤ length src
      → push (some src) (pos len) q ≡ done k q'
      → Holding i n q'
  push-Holding fs h src len k fits e = elim (Bool-cases (in_node q).locked) [
    | inl busy ↦ cc (push_sleeps cap width fs q (some src) (pos len) h busy, e)
    | inr free ↦
        kept q.in_index _ (other_slot q i q.in_index n (in_node q) held (in_slot q h.valid) free)
          (pushed q src (min len width)) refl
          (done-state (sym (push_done cap width fs q src len h (omega arith) free) ∙ e))
  ]

  pop-Holding :
      (fs : Frames)
      → Models cap width fs q
      → (buf : Bytes) (len : ℕ) (r : ℤ × Option Bytes) → len ≤ length buf
      → pop (some buf) (pos len) q ≡ done r q'
      → Holding i n q'
  pop-Holding [] h buf len r fits e = elim (Bool-cases (out_node q).locked) [
    | inl busy ↦ cc (pop_blocked cap width q h (some buf) (pos len) busy, e)
    | inr free ↦
        subst (Holding i n)
          (done-state (sym (pop_empty cap width q h (some buf) (pos len) free) ∙ e)) held
  ]
  pop-Holding (f ∷ fs) h buf len r fits e =
      subst (Holding i n)
        (done-state (sym (pop_found cap width f fs q h buf len (omega arith)) ∙ e)) held

  discard-Holding :
      (fs : Frames)
      → Models cap width fs q
      → (len : ℕ) (r : ℤ × Option Bytes) → pop none (pos len) q ≡ done r q'
      → Holding i n q'
  discard-Holding [] h len r e = elim (Bool-cases (out_node q).locked) [
    | inl busy ↦ cc (pop_blocked cap width q h none (pos len) busy, e)
    | inr free ↦
        subst (Holding i n) (done-state (sym (pop_empty cap width q h none (pos len) free) ∙ e))
          held
  ]
  discard-Holding (f ∷ fs) h len r e =
      subst (Holding i n) (done-state (sym (pop_discards cap width f fs q h len) ∙ e)) held

  lend-Holding :
      (fs : Frames) → Models cap width fs q → (l : Lease) → getbuffer q ≡ done l q' → Holding i n q'
  lend-Holding [] h l e = cc (getbuffer_empty cap width q h, e)
  lend-Holding (f ∷ fs) h l e =
      kept q.out_index _
        (other_slot q i q.out_index n (out_node q) held (out_slot q h.valid)
          (front-IsReady cap width f fs q h).unlocked)
        (lent cap width f fs q h) refl (done-state (sym (getbuffer_found cap width f fs q h) ∙ e))

  release-Holding :
      (fs : Frames)
      → Models cap width fs q
      → (j k : ℕ) → j < q.max_frames
      → j ≢ i
      → releasebuffer (pos j) q ≡ done k q'
      → Holding i n q'
  release-Holding fs h j k inside ne e =
      kept j _ ne (released j q) refl (
        done-state
          (sym (releasebuffer-released cap width fs q h j (omega (arith, h.capacity))) ∙ e))

pub Step-Holding :
    (cap width : ℕ) (fs : Frames) (q q' : CQueue) (i : ℕ) (n : Node)
    → Models cap width fs q
    → Holding i n q
    → (st : Step q q') → Spares i st
    → Holding i n q'
Step-Holding cap width fs q q' i n h held (pushes src len k fits e) _ =
    push-Holding cap width q q' i n held fs h src len k fits e
Step-Holding cap width fs q q' i n h held (pops buf len r fits e) _ =
    pop-Holding cap width q q' i n held fs h buf len r fits e
Step-Holding cap width fs q q' i n h held (discards len r e) _ =
    discard-Holding cap width q q' i n held fs h len r e
Step-Holding cap width fs q q' i n h held (releases_none j k out e) _ =
    subst (Holding i n) (release_none_lem q q' j k out e) held
Step-Holding cap width fs q q' i n h held (lends l e) _ =
    lend-Holding cap width q q' i n held fs h l e
Step-Holding cap width fs q q' i n h held (releases j k inside e) ne =
    release-Holding cap width q q' i n held fs h j k inside ne e

-- Sequences of calls in which nobody releases slot `i`.
pub data Sparing (i : ℕ) (q : CQueue) : CQueue → Type 0 where
  here : Sparing i q q
  next : {s t : CQueue} → Sparing i q s → (st : Step s t) → Spares i st → Sparing i q t

Sparing-Holding :
    {cap width : ℕ} {fs : Frames} {i : ℕ} {n : Node} {q t : CQueue}
    → Models cap width fs q
    → Holding i n q
    → Sparing i q t
    → ((fs' : Frames) × Models cap width fs' t) × Holding i n t
Sparing-Holding {fs} m held here = ((fs, m), held)
Sparing-Holding {cap} {width} {i} {n} m held (next {s} {t} r st spare) =
    let ((fs', m'), held') = Sparing-Holding m held r in
    let (fs'', _, m'') = Step-FrameStep cap width fs' s t m' st in
    ((fs'', m''), Step-Holding cap width fs' s t i n m' held' st spare)

-- The frame that `getbuffer` lends stays in its slot, locked and byte for byte, through any calls of
-- any threads that keep the contract of `Step`, as long as none releases that slot; pushes that would
-- overwrite it sleep.
pub lease_stable :
    (cap width : ℕ) (f : Bytes) (fs : Frames) (q q' t : CQueue) (l : Lease)
    → Models cap width (f ∷ fs) q
    → getbuffer q ≡ done l q'
    → Sparing q.out_index q' t
    → (l.index ≡ pos q.out_index)
      × (take (length f) (get_or t.que q.out_index blank).bytes ≡ f)
      × ((get_or t.que q.out_index blank).locked ≡ true)
lease_stable cap width f fs q q' t l h e r =
    let returned = sym (getbuffer_found cap width f fs q h) ∙ e in
    let after = done-state returned in
    let m = subst (Models cap width fs) after (lent-Models cap width f fs q h) in
    let held = subst (Holding q.out_index now) after (lent_slot, refl) in
    let there = get_or-eq_of_get_elem? t.que q.out_index now blank (Sparing-Holding m held r).1.0 in
    (
      cc returned,
      ap (λ (n : Node). take (length f) n.bytes) there ∙ lent_bytes,
      ap (λ (n : Node). n.locked) there,
    )
  where
    now : Node
    now = record (out_node q) { locked = true }

    lent_slot : get_elem? (lent cap width f fs q h).que q.out_index ≡ some now
    lent_slot =
        get_elem?-set_self q.que q.out_index now (omega (arith, h.valid.slots, h.valid.out_range))

    lent_bytes : take (length f) (out_node q).bytes ≡ f
    lent_bytes =
        ap (λ n. take n (out_node q).bytes) (ap pos_part (sym (datalen-front cap width f fs q h)))
        ∙ front_frame cap width f fs q h
