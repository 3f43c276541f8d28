-- ===== src/Queue/Tests.antt =====
-- Runs of CQueue on concrete queues, and its theorems at concrete inputs.
use canok_rtsp_client.Base.{
  ℕ, ◌≤◌, ◌≡◌, refl, true, false, Bytes, [], ◌∷◌, arith, length, take, some, get_or,
}
use canok_rtsp_client.Base.Int.{ℤ, pos}
use canok_rtsp_client.Base.Outcome.{done, waits}
use canok_rtsp_client.Queue.{Node, CQueue, Lease, create, push, pop, getbuffer}
use canok_rtsp_client.Queue.Frames
use canok_rtsp_client.Queue.Frames.{Frames}
use canok_rtsp_client.Queue.Valid.{Models, blank}
use canok_rtsp_client.Queue.Refine.{push_refines, pop_refines, getbuffer_refines, Lends}
use canok_rtsp_client.Queue.Calls.{
  here, next, pushes, pops, FrameStep, Step-FrameStep, Reach-Models,
}
use canok_rtsp_client.Queue.Held.{lease_stable, Sparing}

-- A slot that holds `b`, in three bytes.
abbrev holds_two : ℕ → Node
holds_two b = record { locked = false; datalen = pos 2; bytes = b ∷ b ∷ 0 ∷ [] }

-- Two slots of three bytes, both with a frame of two bytes; the older one is in slot 1.
abbrev full : CQueue
full = record {
  max_frames = 2;
  frame_len = 3;
  que = holds_two 8 ∷ holds_two 7 ∷ [];
  in_index = 1;
  out_index = 1;
  effectives = 2;
  sem = 2;
}

-- The same with both frames taken, and slot 1 still with a client.
abbrev lent_out : CQueue
lent_out = record full {
  que = holds_two 8 ∷ record (holds_two 7) { locked = true } ∷ [];
  effectives = 0;
  sem = 0;
}

full-Models : Models 2 3 ((7 ∷ 7 ∷ []) ∷ (8 ∷ 8 ∷ []) ∷ []) full
full-Models = record { valid = ground arith; capacity = refl; slot_width = refl; frames = refl }

lent_out-Models : Models 2 3 [] lent_out
lent_out-Models = record { valid = ground arith; capacity = refl; slot_width = refl; frames = refl }

-- `push` on the full queue covers the oldest frame.
push_covers :
    push (some (1 ∷ 2 ∷ 3 ∷ 4 ∷ [])) (pos 4) full
    ≡ done (pos 3) (record full {
      que = holds_two 8 ∷ record { locked = false; datalen = pos 3; bytes = 1 ∷ 2 ∷ 3 ∷ [] } ∷ [];
      in_index = 0;
      out_index = 0;
    })
unfolding push
push_covers = refl

-- `getbuffer` with nothing queued.
getbuffer_sleeps : getbuffer lent_out ≡ waits lent_out
unfolding getbuffer
getbuffer_sleeps = refl

push_refines_example :
    (q' : CQueue) × (push (some (1 ∷ 2 ∷ 3 ∷ 4 ∷ [])) (pos 4) full ≡ done (pos 3) q')
    × Models 2 3 (Frames.push 2 3 (1 ∷ 2 ∷ 3 ∷ 4 ∷ []) ((7 ∷ 7 ∷ []) ∷ (8 ∷ 8 ∷ []) ∷ [])) q'
push_refines_example = push_refines 2 3 _ full (1 ∷ 2 ∷ 3 ∷ 4 ∷ []) 4 full-Models (omega arith) refl

pop_refines_example :
    (q' : CQueue) × (pop (some (0 ∷ 0 ∷ 0 ∷ [])) (pos 3) full
      ≡ done (pos 2, some (7 ∷ 7 ∷ 0 ∷ [])) q')
    × Models 2 3 ((8 ∷ 8 ∷ []) ∷ []) q'
pop_refines_example =
    pop_refines 2 3 (7 ∷ 7 ∷ []) ((8 ∷ 8 ∷ []) ∷ []) full (0 ∷ 0 ∷ 0 ∷ []) 3 full-Models
      (omega arith)

getbuffer_refines_example : Lends 2 3 ((7 ∷ 7 ∷ []) ∷ (8 ∷ 8 ∷ []) ∷ []) full (getbuffer full)
getbuffer_refines_example = getbuffer_refines 2 3 _ full full-Models

popped_once : CQueue
popped_once = record full { out_index = 0; effectives = 1; sem = 1 }

pop-full : pop (some (0 ∷ 0 ∷ [])) (pos 2) full ≡ done (pos 2, some (7 ∷ 7 ∷ [])) popped_once
unfolding pop popped_once
pop-full = refl

Step-FrameStep_example :
    (fs' : Frames) × FrameStep 2 3 ((7 ∷ 7 ∷ []) ∷ (8 ∷ 8 ∷ []) ∷ []) fs'
    × Models 2 3 fs' popped_once
Step-FrameStep_example =
    Step-FrameStep 2 3 _ full popped_once full-Models
      (pops (0 ∷ 0 ∷ []) 2 (pos 2, some (7 ∷ 7 ∷ [])) (omega arith) pop-full)

abbrev raw : ℕ → ℤ × Bytes
raw i = (pos 9, 0 ∷ 0 ∷ 0 ∷ [])

pushed_once : CQueue
pushed_once = record {
  max_frames = 2;
  frame_len = 3;
  que =
      record { locked = false; datalen = pos 2; bytes = 5 ∷ 6 ∷ 0 ∷ [] }
      ∷ record { locked = false; datalen = pos 9; bytes = 0 ∷ 0 ∷ 0 ∷ [] }
      ∷ [];
  in_index = 1;
  out_index = 0;
  effectives = 1;
  sem = 1;
}

push-create : push (some (5 ∷ 6 ∷ [])) (pos 2) (create 2 3 raw) ≡ done (pos 2) pushed_once
unfolding push create pushed_once
push-create = refl

Reach-Models_example : (fs : Frames) × Models 2 3 fs pushed_once × (length fs ≤ 2)
Reach-Models_example =
    Reach-Models 2 3 raw pushed_once (omega arith) (λ i. refl)
      (next here (pushes (5 ∷ 6 ∷ []) 2 (pos 2) (omega arith) push-create))

-- The first frame of `full` is lent, and the other one is popped meanwhile.
abbrev lent_first : CQueue
lent_first = record full {
  que = holds_two 8 ∷ record (holds_two 7) { locked = true } ∷ [];
  out_index = 0;
  effectives = 1;
  sem = 1;
}

abbrev lent_and_popped : CQueue
lent_and_popped = record lent_first { out_index = 1; effectives = 0; sem = 0 }

abbrev first_lease : Lease
first_lease = record { index = pos 1; pdata = some (7 ∷ 7 ∷ 0 ∷ []); plen = pos 2 }

getbuffer_first : getbuffer full ≡ done first_lease lent_first
unfolding getbuffer
getbuffer_first = refl

pop_meanwhile :
    pop (some (0 ∷ 0 ∷ [])) (pos 2) lent_first ≡ done (pos 2, some (8 ∷ 8 ∷ [])) lent_and_popped
unfolding pop
pop_meanwhile = refl

lease_stable_example :
    (first_lease.index ≡ pos 1)
    × (take 2 (get_or lent_and_popped.que 1 blank).bytes ≡ 7 ∷ 7 ∷ [])
    × ((get_or lent_and_popped.que 1 blank).locked ≡ true)
lease_stable_example =
    lease_stable 2 3 (7 ∷ 7 ∷ []) _ full lent_first lent_and_popped first_lease full-Models
      getbuffer_first
      (Sparing.next Sparing.here
        (pops (0 ∷ 0 ∷ []) 2 (pos 2, some (8 ∷ 8 ∷ [])) (omega arith) pop_meanwhile) tt)
