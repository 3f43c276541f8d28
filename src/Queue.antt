-- ===== src/Queue.antt =====
-- The class CQueue of my_rtsp_client/com_queue.h and my_rtsp_client/com_queue.cpp: a ring of
-- frames with a mutex in each slot, an index mutex and a counting semaphore. One call runs at a
-- time; where it must sleep the outcome is `waits`.
pub mod Frames
mod Steps
pub mod Valid
pub mod Push
pub mod Pushed
pub mod Front
pub mod Pop
pub mod Lend
pub mod Refine
pub mod Calls
pub mod Held
mod Tests
use canok_rtsp_client.Base.{
  ℕ, zero, suc, ◌+◌, ◌-◌, ◌==◌, leb, if◌then◌else◌, Bool, true, false, Option, none, some, List, [],
  ◌∷◌, Bytes, get_elem?, set,
}
use canok_rtsp_client.Base.Int.{ℤ, pos, negsuc, min_ℤ}
use canok_rtsp_client.Base.Memory.{memcpy}
use canok_rtsp_client.Base.Outcome.{done, waits, M, ◌>>=◌, ◌>>◌, pure, get, modify, or_fault}

-- `QUEUE_NODE`: `locked` is the state of `mlock`, `bytes` the `mframeLen` bytes at `data`.
pub record Node : Type 0 where
  pub locked : Bool
  pub datalen : ℤ
  pub bytes : Bytes

pub record CQueue : Type 0 where
  pub max_frames : ℕ
  pub frame_len : ℕ
  pub que : List Node
  pub in_index : ℕ
  pub out_index : ℕ
  pub effectives : ℕ
  pub sem : ℕ

-- The constructor's loop over `n` slots from slot `i` on. `raw` is what malloc left in a slot.
pub init_nodes : (ℕ → ℤ × Bytes) → ℕ → ℕ → List Node
init_nodes raw i zero = []
init_nodes raw i (suc n) =
    let (len, bytes) = raw i in
    record { locked = false; datalen = len; bytes = bytes } ∷ init_nodes raw (suc i) n

unfoldable pub create : ℕ → ℕ → (ℕ → ℤ × Bytes) → CQueue
unfolding init_nodes
create frames single_frame_len raw = record {
  max_frames = frames;
  frame_len = single_frame_len;
  que = init_nodes raw 0 frames;
  in_index = 0;
  out_index = 0;
  effectives = 0;
  sem = 0;
}

-- The macro LOOP_ADD.
abbrev pub loop_add : ℕ → ℕ → ℕ
loop_add i r = if leb r (i + 1) then 0 else i + 1

abbrev pub set_node : ℕ → Node → CQueue → CQueue
set_node i n q = record q { que = set q.que i n }

-- `que[i]`; an index out of range is a fault.
pub node : ℕ → M CQueue Node
node i q = or_fault (get_elem? q.que i) q

pub lock_node : ℕ → Node → M CQueue (Unit {0})
lock_node i n q = if n.locked then waits q else done tt (set_node i (record n { locked = true }) q)

-- `pthread_mutex_lock(&que[i].mlock)`.
pub lock : ℕ → M CQueue (Unit {0})
unfolding node lock_node
lock i = node i >>= lock_node i

-- `pthread_mutex_unlock(&que[i].mlock)`.
pub unlock : ℕ → M CQueue (Unit {0})
unfolding node
unlock i = do n ← node i; modify (set_node i (record n { locked = false }))

pub sem_post : M CQueue (Unit {0})
sem_post = modify λ q. record q { sem = q.sem + 1 }

-- It does not sleep: a semaphore at 0 stays there.
pub sem_trywait : M CQueue (Unit {0})
sem_trywait = modify λ q. record q { sem = q.sem - 1 }

pub sem_wait : M CQueue (Unit {0})
sem_wait q = if q.sem == 0 then waits q else done tt (record q { sem = q.sem - 1 })

-- `mIndexlock` is held only inside the next four methods, none of which sleeps.
pub add_in_index : M CQueue (Unit {0})
add_in_index = modify λ q. record q { in_index = loop_add q.in_index q.max_frames }

pub add_out_index : M CQueue (Unit {0})
add_out_index = modify λ q. record q { out_index = loop_add q.out_index q.max_frames }

-- The old count is returned.
pub increase_effectives : M CQueue ℕ
increase_effectives q =
    let n = q.effectives + 1 in
    done q.effectives (record q { effectives = if leb n q.max_frames then n else q.max_frames })

-- The old count is returned. Below 0 the count is set back to 0, which is the subtraction on ℕ.
pub reduce_effectives : M CQueue ℕ
reduce_effectives q = done q.effectives (record q { effectives = q.effectives - 1 })

-- `if(data != NULL) memcpy(data, src, n)`.
pub copy_out : Option Bytes → Bytes → ℤ → M CQueue (Option Bytes)
copy_out none src n = pure none
copy_out (some buf) src n = do b ← or_fault (memcpy buf 0 src n); pure (some b)

pub take_frame : Option Bytes → ℤ → ℕ → M CQueue (ℤ × Option Bytes)
unfolding node copy_out add_out_index unlock
take_frame buf len iout = do
  n ← node iout
  let copylen = min_ℤ len n.datalen
  buf' ← copy_out buf n.bytes copylen
  add_out_index
  unlock iout
  pure (copylen, buf')

pub no_frame : Option Bytes → ℕ → M CQueue (ℤ × Option Bytes)
unfolding unlock
no_frame buf iout = do modify (λ q. record q { effectives = 0 }); unlock iout; pure (pos 0, buf)

-- `pop(data, len)` returns the length copied; with it comes the buffer at `data` (`none` for NULL).
unfoldable pub pop : Option Bytes → ℤ → M CQueue (ℤ × Option Bytes)
unfolding sem_trywait lock reduce_effectives take_frame no_frame
pop buf len = do
  sem_trywait
  q ← get
  lock q.out_index
  n ← reduce_effectives
  if n == 0 then no_frame buf q.out_index else take_frame buf len q.out_index

-- `if(data != NULL) { memcpy(que[i].data, data, copylen); que[i].datalen = copylen; }`.
pub copy_in : ℕ → Option Bytes → ℤ → M CQueue (Unit {0})
unfolding node
copy_in i none copylen = pure tt
copy_in i (some src) copylen = do
  n ← node i
  b ← or_fault (memcpy n.bytes 0 src copylen)
  modify (set_node i (record n { bytes = b; datalen = copylen }))

-- `if(IncreaseEffectives() == maxFrames)`: the oldest frame is given up.
pub cover_oldest : ℕ → M CQueue (Unit {0})
unfolding sem_trywait add_out_index
cover_oldest n q = if n == q.max_frames then (sem_trywait >> add_out_index) q else done tt q

-- `push(data, len)`, with `none` for a NULL pointer.
unfoldable pub push : Option Bytes → ℤ → M CQueue ℤ
unfolding lock copy_in add_in_index sem_post increase_effectives cover_oldest unlock
push src len = do
  q ← get
  lock q.in_index
  let copylen = min_ℤ len (pos q.frame_len)
  copy_in q.in_index src copylen
  add_in_index
  sem_post
  n ← increase_effectives
  cover_oldest n
  unlock q.in_index
  pure copylen

-- What `getbuffer` hands out: the index, and `*pdata` (`none` for NULL) with `*plen`.
pub record Lease : Type 0 where
  pub index : ℤ
  pub pdata : Option Bytes
  pub plen : ℤ

pub no_lease : ℕ → M CQueue Lease
unfolding unlock
no_lease iout = do unlock iout; pure (record { index = negsuc 0; pdata = none; plen = pos 0 })

-- The slot stays locked.
pub lease_frame : ℕ → M CQueue Lease
unfolding node add_out_index
lease_frame iout = do
  n ← node iout
  add_out_index
  pure (record { index = pos iout; pdata = some n.bytes; plen = n.datalen })

unfoldable pub getbuffer : M CQueue Lease
unfolding sem_wait lock reduce_effectives no_lease lease_frame
getbuffer = do
  sem_wait
  q ← get
  lock q.out_index
  n ← reduce_effectives
  if n == 0 then no_lease q.out_index else lease_frame q.out_index

pub release_index : ℕ → M CQueue ℕ
unfolding unlock
release_index i q = if leb q.max_frames i then done 0 q else (unlock i >> pure 0) q

unfoldable pub releasebuffer : ℤ → M CQueue ℕ
unfolding release_index
releasebuffer (negsuc n) = pure 0
releasebuffer (pos i) = release_index i
