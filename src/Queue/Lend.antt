-- ===== src/Queue/Lend.antt =====
-- `CQueue::getbuffer` and `CQueue::releasebuffer`: a frame lent to a client, and given back.
use canok_rtsp_client.Base.{
  ℕ, zero, suc, ◌-◌, ◌<◌, ◌≡◌, ◌≢◌, refl, sym, subst, ap, ap₂, ◌∙◌, some, false, true, Bytes, List,
  [], ◌∷◌, arith, length, get_or, set, length-set, get_or-set_self, get_or-set_ne,
  get_elem?-eq-get_or, lt→leb, ℕ_discrete,
}
use canok_rtsp_client.Base.Int.{pos}
use canok_rtsp_client.Base.Outcome.{done, waits, pure, bind_done, bind_waits}
use canok_rtsp_client.Queue.{
  Node, CQueue, Lease, loop_add, set_node, lock, unlock, node, sem_wait, getbuffer, releasebuffer,
  lease_frame, release_index,
}
use canok_rtsp_client.Queue.Steps.{node_lem, lock_free, unlock_lem, sem_wait_zero, sem_wait-suc}
use canok_rtsp_client.Queue.Frames.{Frames}
use canok_rtsp_client.Queue.Valid.{
  blank, IsReady, AllReady, Models, window, frame, AllSized-get, AllSized-set, length-contents,
  Outside, window-set-Outside, AllReady-set-Outside,
}
use canok_rtsp_client.Queue.Front.{
  out_node, popped, out_slot, left, effectives-left, front-IsReady, popped-Models,
}
use canok_rtsp_client.Queue.Pop.{locked_out, locked_out_slot, zero_ne, datalen-front}

module _ (cap width : ℕ) (f : Bytes) (fs : Frames) (q : CQueue)
    (h : Models cap width (f ∷ fs) q) where
  open q use {out_index as i}

  abbrev pub lent : CQueue
  lent = record (popped (left cap width f fs q h) q) {
    que = set q.que i (record (out_node q) { locked = true });
  }

  abbrev lease : Lease
  lease = record { index = pos i; pdata = some (out_node q).bytes; plen = pos (length f) }

  lease_frame_lem : lease_frame i (locked_out q) ≡ done lease lent
  unfolding lease_frame
  lease_frame_lem =
      bind_done (node i) _ (
        node_lem (locked_out q) i (record (out_node q) { locked = true })
          (locked_out_slot q h.valid))
      ∙ ap₂ (λ n s. done (record lease { plen = n }) (record lent { sem = s - 1 }))
          (datalen-front cap width f fs q h) h.valid.counts

  pub getbuffer_found : getbuffer q ≡ done lease lent
  unfolding getbuffer
  getbuffer_found =
      bind_done sem_wait _ (
        sem_wait-suc q (left cap width f fs q h)
          (h.valid.counts ∙ effectives-left cap width f fs q h))
      ∙ bind_done (lock i) _ (
          lock_free (record q { sem = q.sem - 1 }) i (out_node q) (out_slot q h.valid)
            (front-IsReady cap width f fs q h).unlocked)
      ∙ rw (zero_ne q.effectives (left cap width f fs q h) (effectives-left cap width f fs q h))
          lease_frame_lem

  behind : Outside q.max_frames i (loop_add i q.max_frames) (left cap width f fs q h)
  behind = ground (arith, effectives-left cap width f fs q h, h.valid.few, h.valid.out_range)

  -- The queue goes on with the other frames; the slot lent is none of theirs.
  pub lent-Models : Models cap width fs lent
  lent-Models =
      let p = popped-Models cap width f fs q h in
      record {
        valid = record {
          some_slot = p.valid.some_slot;
          slots = length-set q.que i (record (out_node q) { locked = true }) ∙ p.valid.slots;
          in_range = p.valid.in_range;
          out_range = p.valid.out_range;
          few = p.valid.few;
          counts = p.valid.counts;
          distance = p.valid.distance;
          sized =
              AllSized-set q.frame_len q.que i (record (out_node q) { locked = true }) h.valid.sized
                (AllSized-get q.frame_len q.que i h.valid.sized
                  (omega (arith, h.valid.slots, h.valid.out_range)));
          ready =
              AllReady-set-Outside q.que q.max_frames i (record (out_node q) { locked = true })
                q.frame_len (loop_add i q.max_frames) (left cap width f fs q h) p.valid.out_range
                behind p.valid.ready;
        };
        capacity = p.capacity;
        slot_width = p.slot_width;
        frames =
            window-set-Outside q.que q.max_frames i (record (out_node q) { locked = true })
              (loop_add i q.max_frames) (left cap width f fs q h) p.valid.out_range behind
            ∙ p.frames;
      }

-- The queue after slot `i` is unlocked.
abbrev pub released : ℕ → CQueue → CQueue
released i q = set_node i (record (get_or q.que i blank) { locked = false }) q

-- Unlocking a slot changes no frame.
module _ (que : List Node) (cap i : ℕ) (inside : i < length que) where
  abbrev free_node : Node
  free_node = record (get_or que i blank) { locked = false }

  frame-free : (j : ℕ) → frame (get_or (set que i free_node) j blank) ≡ frame (get_or que j blank)
  frame-free j = elim (ℕ_discrete i j) [
    | yes e ↦ rw (← e) (ap frame (get_or-set_self que i free_node blank inside))
    | no ne ↦ ap frame (get_or-set_ne que i j free_node blank ne)
  ]

  IsReady-unlocked : (w : ℕ) (n : Node) → IsReady w n → IsReady w (record n { locked = false })
  IsReady-unlocked w n r = record { unlocked = refl; counted = r.counted; short = r.short }

  IsReady-free :
      (w j : ℕ) → IsReady w (get_or que j blank) → IsReady w (get_or (set que i free_node) j blank)
  IsReady-free w j r = elim (ℕ_discrete i j) [
    | yes e ↦
        let r' = IsReady-unlocked w (get_or que i blank) (rw e r) in
        rw (← e, get_or-set_self que i free_node blank inside) r'
    | no ne ↦ rw (get_or-set_ne que i j free_node blank ne) r
  ]

  window-free : (h n : ℕ) → window (set que i free_node) cap h n ≡ window que cap h n
  window-free h zero = refl
  window-free h (suc n) = ap₂ ◌∷◌ (frame-free h) (window-free (loop_add h cap) n)

  AllReady-free : (w h n : ℕ) → AllReady que cap w h n → AllReady (set que i free_node) cap w h n
  AllReady-free w h zero r = tt
  AllReady-free w h (suc n) r = (IsReady-free w h r.0, AllReady-free w (loop_add h cap) n r.1)

-- The same slots are locked.
abbrev pub SameLocks : CQueue → CQueue → Type 0
SameLocks q t = (j : ℕ) → (get_or t.que j blank).locked ≡ (get_or q.que j blank).locked

-- A slot that was free, lent and given back: all locks are as before.
pub released-SameLocks :
    (q t : CQueue) (i : ℕ)
    → i < length t.que
    → (get_or q.que i blank).locked ≡ false
    → ((j : ℕ) → i ≢ j → (get_or t.que j blank).locked ≡ (get_or q.que j blank).locked)
    → SameLocks q (released i t)
released-SameLocks q t i inside free others j = elim (ℕ_discrete i j) [
  | yes e ↦
      subst (λ k. (get_or (released i t).que k blank).locked ≡ (get_or q.que k blank).locked) e
        (ap (λ (n : Node). n.locked)
            (get_or-set_self t.que i (free_node t.que t.max_frames i inside) blank inside)
          ∙ sym free)
  | no ne ↦
      ap (λ (n : Node). n.locked)
        (get_or-set_ne t.que i j (free_node t.que t.max_frames i inside) blank ne)
      ∙ others j ne
]

pub getbuffer_empty : (max width : ℕ) (q : CQueue) → Models max width [] q → getbuffer q ≡ waits q
unfolding getbuffer
getbuffer_empty max width q h =
    bind_waits sem_wait _
      (sem_wait_zero q (omega (arith, length-contents q, ap length h.frames, h.valid.counts)))

-- Giving a slot back keeps the invariant and the frames.
module _ (max width : ℕ) (fs : Frames) (q : CQueue) (h : Models max width fs q) (i : ℕ)
    (inside : i < max) where
  in_que : i < length q.que
  in_que = omega (arith, h.capacity, h.valid.slots)

  pub released-Models : Models max width fs (released i q)
  released-Models = record {
    valid = record {
      some_slot = h.valid.some_slot;
      slots = length-set q.que i (free_node q.que q.max_frames i in_que) ∙ h.valid.slots;
      in_range = h.valid.in_range;
      out_range = h.valid.out_range;
      few = h.valid.few;
      counts = h.valid.counts;
      distance = h.valid.distance;
      sized =
          AllSized-set q.frame_len q.que i (free_node q.que q.max_frames i in_que) h.valid.sized
            (AllSized-get q.frame_len q.que i h.valid.sized in_que);
      ready =
          AllReady-free q.que q.max_frames i in_que q.frame_len q.out_index q.effectives
            h.valid.ready;
    };
    capacity = h.capacity;
    slot_width = h.slot_width;
    frames = window-free q.que q.max_frames i in_que q.out_index q.effectives ∙ h.frames;
  }

  pub releasebuffer-released : releasebuffer (pos i) q ≡ done 0 (released i q)
  unfolding releasebuffer
  releasebuffer-released =
      rw (lt→leb q.max_frames i (omega (arith, h.capacity)), release_index)
        (bind_done (unlock i) (λ _. pure 0)
          (unlock_lem q i (get_or q.que i blank) (get_elem?-eq-get_or q.que i blank in_que)))
