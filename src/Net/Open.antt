-- ===== src/Net/Open.antt =====
-- The descriptors that `udp_net_setup` and `tcp_net_conncet` of my_rtsp_client/com_net.cpp leave open.
use canok_rtsp_client.Base.{
  ℕ, ◌≡◌, ◌≢◌, refl, sym, ap, ◌∙◌, Bool, true, false, Bool-cases, inl, inr, ◌⊎◌, Bytes, ℕ_discrete,
}
use canok_rtsp_client.Base.Int.{ℤ, pos, negsuc}
use canok_rtsp_client.Net.{Kernel, fails, bound, udp_net_setup, connected, tcp_net_conncet, htons}

pub ℤ-cases : (a b : ℤ) → (a ≡ b) ⊎ (a ≢ b)
ℤ-cases (pos m) (pos n) = elim (ℕ_discrete m n) [
  | yes e ↦ inl (ap pos e)
  | no ne ↦ inr (λ e. ne (cc e))
]
ℤ-cases (pos m) (negsuc n) = inr (λ e. cc e)
ℤ-cases (negsuc m) (pos n) = inr (λ e. cc e)
ℤ-cases (negsuc m) (negsuc n) = elim (ℕ_discrete m n) [
  | yes e ↦ inl (ap negsuc e)
  | no ne ↦ inr (λ e. ne (cc e))
]

-- What the kernel documents about open descriptors.
pub record Descriptors {K : Type 0} (kernel : Kernel K) (is_open : ℤ → K → Bool) : Type 0 where
  pub socket_new :
      (k : K)
      → fails (kernel.socket k).0 ≡ false
      → (is_open (kernel.socket k).0 k ≡ false)
        × (is_open (kernel.socket k).0 (kernel.socket k).1 ≡ true)
  pub socket_others :
      (k : K) (d : ℤ) → d ≢ (kernel.socket k).0 → is_open d (kernel.socket k).1 ≡ is_open d k
  pub socket_fails :
      (k : K) (d : ℤ)
      → fails (kernel.socket k).0 ≡ true
      → is_open d (kernel.socket k).1 ≡ is_open d k
  pub signal_keeps : (fd d : ℤ) (k : K) → is_open d (kernel.set_no_signal fd k) ≡ is_open d k
  pub bind_keeps : (fd d : ℤ) (k : K) → is_open d (kernel.bind_any fd k).1 ≡ is_open d k
  pub connect_keeps :
      (fd d : ℤ) (host : Bytes) (port : ℕ) (k : K)
      → is_open d (kernel.connect fd host port k).1 ≡ is_open d k
  pub close_closes : (fd : ℤ) (k : K) → is_open fd (kernel.close fd k).1 ≡ false
  pub close_others : (fd d : ℤ) (k : K) → d ≢ fd → is_open d (kernel.close fd k).1 ≡ is_open d k

module _ {K : Type 0} (kernel : Kernel K) (is_open : ℤ → K → Bool)
    (laws : Descriptors kernel is_open) where
  -- From `k`, a call returns -1 and leaves the descriptors as they were, or returns a new one, the only
  -- change.
  abbrev pub NoLeak : K → ℤ × K → Type 0
  NoLeak k r =
      ((r.0 ≡ negsuc 0) × ((d : ℤ) → is_open d r.1 ≡ is_open d k))
      ⊎ ((fails r.0 ≡ false)
          × (is_open r.0 k ≡ false)
          × (is_open r.0 r.1 ≡ true)
          × ((d : ℤ) → d ≢ r.0 → is_open d r.1 ≡ is_open d k))

  -- Closing the new socket undoes its opening.
  closed :
      (k k' : K)
      → fails (kernel.socket k).0 ≡ false
      → ((d : ℤ) → is_open d k' ≡ is_open d (kernel.socket k).1)
      → (d : ℤ) → is_open d (kernel.close (kernel.socket k).0 k').1 ≡ is_open d k
  closed k k' new same d = elim (ℤ-cases d (kernel.socket k).0) [
    | inl e ↦
        ap (λ d. is_open d (kernel.close (kernel.socket k).0 k').1) e
        ∙ laws.close_closes (kernel.socket k).0 k'
        ∙ sym (ap (λ d. is_open d k) e ∙ (laws.socket_new k new).0)
    | inr ne ↦ laws.close_others (kernel.socket k).0 d k' ne ∙ same d ∙ laws.socket_others k d ne
  ]

  kept :
      (k k' : K)
      → fails (kernel.socket k).0 ≡ false
      → ((d : ℤ) → is_open d k' ≡ is_open d (kernel.socket k).1)
      → NoLeak k ((kernel.socket k).0, k')
  kept k k' new same = inr (
    new,
    (laws.socket_new k new).0,
    same (kernel.socket k).0 ∙ (laws.socket_new k new).1,
    (λ d ne. same d ∙ laws.socket_others k d ne),
  )

  -- Neither set-up leaks a descriptor: where it fails, also after the socket was opened, all descriptors
  -- are as before; where it succeeds, the one returned is the only new one.
  pub net_setup-NoLeak :
      (host : Bytes) (port : ℕ) (k : K)
      → NoLeak k (udp_net_setup kernel k) × NoLeak k (tcp_net_conncet kernel host port k)
  unfolding udp_net_setup tcp_net_conncet
  net_setup-NoLeak host port k = elim (Bool-cases (fails (kernel.socket k).0)) [
    | inl failed ↦ rw failed (
      inl (refl, (λ d. laws.socket_fails k d failed)),
      inl (refl, (λ d. laws.socket_fails k d failed)),
    )
    | inr new ↦ (rw new (udp new), rw new (tcp new))
  ]
    where
      fd : ℤ
      fd = (kernel.socket k).0

      after : K
      after = kernel.set_no_signal fd (kernel.socket k).1

      udp : fails (kernel.socket k).0 ≡ false → NoLeak k (bound kernel fd (kernel.socket k).1)
      udp new = elim (Bool-cases (fails (kernel.bind_any fd after).0)) [
        | inl failed ↦ rw failed (
            inl (
              refl,
              closed k (kernel.bind_any fd after).1 new
                  (λ d. laws.bind_keeps fd d after ∙ laws.signal_keeps fd d (kernel.socket k).1),
            ))
        | inr good ↦ rw good (
            kept k (kernel.bind_any fd after).1 new
              (λ d. laws.bind_keeps fd d after ∙ laws.signal_keeps fd d (kernel.socket k).1))
      ]

      tcp :
          fails (kernel.socket k).0 ≡ false
          → NoLeak k (connected kernel fd host port (kernel.socket k).1)
      tcp new = elim (Bool-cases (fails (kernel.connect fd host (htons port) after).0)) [
        | inl failed ↦ rw failed (
            inl (
              refl,
              closed k (kernel.connect fd host (htons port) after).1 new (λ d.
                  laws.connect_keeps fd d host (htons port) after
                  ∙ laws.signal_keeps fd d (kernel.socket k).1),
            ))
        | inr good ↦ rw good (
            kept k (kernel.connect fd host (htons port) after).1 new (λ d.
              laws.connect_keeps fd d host (htons port) after
              ∙ laws.signal_keeps fd d (kernel.socket k).1))
      ]
