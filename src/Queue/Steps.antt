-- ===== src/Queue/Steps.antt =====
-- What the private steps of CQueue's methods do, for the proofs about the methods.
use canok_rtsp_client.Base.{
  ℕ, suc, ◌-◌, ◌≤◌, ◌≡◌, refl, ◌∙◌, true, false, some, none, ◌++◌, Bytes, arith, length, get_elem?,
  take, drop,
}
use canok_rtsp_client.Base.Int.{ℤ, pos}
use canok_rtsp_client.Base.Memory.{memcpy, memcpy_start}
use canok_rtsp_client.Base.Outcome.{done, waits, fault, or_fault, modify, bind_done}
use canok_rtsp_client.Queue.{
  Node, CQueue, set_node, node, lock_node, lock, unlock, copy_in, sem_wait,
}

module _ (q : CQueue) (i : ℕ) (n : Node) (here : get_elem? q.que i ≡ some n) where
  pub node_lem : node i q ≡ done n q
  unfolding node
  node_lem = rw (here, or_fault)

  pub lock_free : n.locked ≡ false → lock i q ≡ done tt (set_node i (record n { locked = true }) q)
  unfolding lock
  lock_free free = bind_done (node i) (lock_node i) node_lem ∙ ground arith

  pub lock_held : n.locked ≡ true → lock i q ≡ waits q
  unfolding lock
  lock_held held = bind_done (node i) (lock_node i) node_lem ∙ ground arith

  pub unlock_lem : unlock i q ≡ done tt (set_node i (record n { locked = false }) q)
  unfolding unlock
  unlock_lem = bind_done (node i) (λ m. modify (set_node i (record m { locked = false }))) node_lem

  pub copy_in-some :
      (src : Bytes) (c : ℕ)
      → c ≤ length n.bytes
      → c ≤ length src
      → copy_in i (some src) (pos c) q
        ≡ done tt
            (set_node i (record n { bytes = take c src ++ drop c n.bytes; datalen = pos c }) q)
  unfolding copy_in
  copy_in-some src c room enough =
      bind_done (node i) _ node_lem ∙ rw (memcpy_start n.bytes src c room enough) refl

  pub copy_in-none :
      (src : Bytes) (c : ℤ) → memcpy n.bytes 0 src c ≡ none → copy_in i (some src) c q ≡ fault
  unfolding copy_in
  copy_in-none src c bad = bind_done (node i) _ node_lem ∙ rw (bad, or_fault)

pub sem_wait_zero : (q : CQueue) → q.sem ≡ 0 → sem_wait q ≡ waits q
unfolding sem_wait
sem_wait_zero q e = ground arith

pub sem_wait-suc :
    (q : CQueue) (m : ℕ) → q.sem ≡ suc m → sem_wait q ≡ done tt (record q { sem = q.sem - 1 })
unfolding sem_wait
sem_wait-suc q m e = ground arith
