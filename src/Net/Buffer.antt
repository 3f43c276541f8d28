-- ===== src/Net/Buffer.antt =====
-- `increaseReceiveBufferTo` of my_rtsp_client/com_net.cpp ends, and what it returns.
use canok_rtsp_client.Base.{
  ℕ, zero, suc, ◌+◌, ◌/◌, ◌%◌, ◌^◌, ◌<◌, ◌≤◌, ◌≡◌, refl, ap, ltb, ltb→lt, true, Bool-cases, inl,
  inr, ◌⊎◌, some, arith,
}
use canok_rtsp_client.Base.Int.{ℤ}
use canok_rtsp_client.Net.{Kernel, get_receive_buffer_size, try_sizes, increase_receive_buffer_to}

module _ {K : Type 0} (kernel : Kernel K) (fd : ℤ) where
  -- A size that the kernel has just taken, or the size that it reports.
  abbrev pub IsAnswer : ℕ → ℕ → ℕ × K → Type 0
  IsAnswer cur requested r =
      ((cur < r.0)
        × (r.0 ≤ requested)
        × ((before : K) × (kernel.set_rcvbuf fd r.0 before ≡ (true, r.1))))
      ⊎ (r.0 ≡ get_receive_buffer_size kernel fd r.1)

  smaller : (requested cur : ℕ) → cur < requested → (requested + cur) % 2 ^ 32 / 2 < requested
  smaller requested cur h = omega arith

  IsAnswer-weaken :
      (cur small requested : ℕ) (r : ℕ × K)
      → small ≤ requested
      → IsAnswer cur small r
      → IsAnswer cur requested r
  IsAnswer-weaken cur small requested r h (inl (a, b, c)) = inl (a, omega arith, c)
  IsAnswer-weaken cur small requested r h (inr e) = inr e

  try_sizes_lem :
      (n requested cur : ℕ) (k : K)
      → requested < n
      → (r : ℕ × K) × (try_sizes kernel n fd requested cur k ≡ some r) × IsAnswer cur requested r
  unfolding try_sizes
  try_sizes_lem zero requested cur k h = absurd (omega arith)
  try_sizes_lem (suc n) requested cur k h = elim (Bool-cases (ltb cur requested)) [
    | inr enough ↦ ((get_receive_buffer_size kernel fd k, k), rw enough, inr refl)
    | inl more ↦ elim (Bool-cases (kernel.set_rcvbuf fd requested k).0) [
      | inl taken ↦ (
        (requested, (kernel.set_rcvbuf fd requested k).1),
        rw (more, taken),
        inl (
          ltb→lt cur requested more,
          omega arith,
          (k, ap (λ b. (b, (kernel.set_rcvbuf fd requested k).1)) taken),
        ),
      )
      | inr refused ↦
          let lt = smaller requested cur (ltb→lt cur requested more) in
          let (r, run, ok) =
            try_sizes_lem n ((requested + cur) % 2 ^ 32 / 2) cur
              (kernel.set_rcvbuf fd requested k).1 (omega arith) in
          (
            r,
            rw (more, refused) run,
            IsAnswer-weaken cur ((requested + cur) % 2 ^ 32 / 2) requested r (omega arith) ok,
          )
    ]
  ]

  -- The search for a buffer size ends, whatever the kernel answers. It returns a size above the first
  -- one, at most the size asked for, that the kernel has just taken; or else the size that the kernel
  -- reports at the end.
  pub increase_receive_buffer_to-IsAnswer :
      (requested : ℕ) (k : K)
      → (r : ℕ × K) × (increase_receive_buffer_to kernel fd requested k ≡ some r)
        × IsAnswer (get_receive_buffer_size kernel fd k) requested r
  unfolding increase_receive_buffer_to
  increase_receive_buffer_to-IsAnswer requested k =
      try_sizes_lem (suc requested) requested (get_receive_buffer_size kernel fd k) k (omega arith)
