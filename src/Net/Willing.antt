-- ===== src/Net/Willing.antt =====
-- The functions of my_rtsp_client/com_net.cpp on a system that refuses nothing.
use canok_rtsp_client.Base.{ℕ, ◌≤◌, ◌<◌, ◌≡◌, refl, ap, true, false, none, some, Bytes, arith}
use canok_rtsp_client.Base.Int.{ℤ, pos, pos_part, neg_part}
use canok_rtsp_client.Macros.{ret_sucess, ret_err}
use canok_rtsp_client.Net.{
  Kernel, fails, bound, udp_net_setup, connected, tcp_net_conncet, udp_connected, udp_connect,
  udp_get_port, to_int16, htons,
}

-- Calls succeed; a port is a number of 16 bits.
pub record Willing {K : Type 0} (kernel : Kernel K) : Type 0 where
  pub opens_log : (k : K) → (kernel.open_log k).0 ≡ true
  pub has_sockets : (k : K) → (n : ℕ) × ((kernel.socket k).0 ≡ pos n)
  pub binds : (fd : ℤ) (k : K) → (kernel.bind_any fd k).0 ≡ pos 0
  pub connects :
      (fd : ℤ) (host : Bytes) (port : ℕ) (k : K) → (kernel.connect fd host port k).0 ≡ pos 0
  pub knows_port : (fd : ℤ) (k : K) → (p : ℕ) × (kernel.sock_port fd k ≡ some p) × (p < 65536)
  pub creates : (k : K) → (kernel.create_thread k).0 ≡ true

no_failure : (n : ℕ) → fails (pos n) ≡ false
no_failure n = ground arith

-- A port in an int16_t.
abbrev pub IsPort : ℤ → Type 0
IsPort p = (pos_part p ≤ 32767) × (neg_part p ≤ 32768)

to_int16-IsPort : (p : ℕ) → p < 65536 → IsPort (to_int16 p)
unfolding to_int16
to_int16-IsPort p h = ground arith

module _ {K : Type 0} (kernel : Kernel K) (willing : Willing kernel) where
  pub tcp_net_conncet_lem :
      (host : Bytes) (port : ℕ) (k : K) → (n : ℕ) × ((tcp_net_conncet kernel host port k).0 ≡ pos n)
  unfolding tcp_net_conncet connected
  tcp_net_conncet_lem host port k =
      let (n, e) = willing.has_sockets k in
      (
        n,
        rw
            (
              e,
              no_failure n,
              willing.connects (pos n) host (htons port)
                  (kernel.set_no_signal (pos n) (kernel.socket k).1),
            )
            refl,
      )

  pub udp_net_setup_lem : (k : K) → (n : ℕ) × ((udp_net_setup kernel k).0 ≡ pos n)
  unfolding udp_net_setup bound
  udp_net_setup_lem k =
      let (n, e) = willing.has_sockets k in
      (
        n,
        rw
            (
              e,
              no_failure n,
              willing.binds (pos n) (kernel.set_no_signal (pos n) (kernel.socket k).1),
            )
            refl,
      )

  pub udp_connect_lem :
      (n : ℕ) (host : Bytes) (port : ℕ) (k : K)
      → (udp_connect kernel (pos n) host port k).0 ≡ ret_sucess
  unfolding udp_connect udp_connected
  udp_connect_lem n host port k =
      rw (no_failure n, willing.connects (pos n) host (htons port) k) refl

  pub udp_get_port_lem :
      (fd : ℤ) (k : K) → (p : ℤ) × (udp_get_port kernel fd (pos 0) k ≡ (ret_sucess, p)) × IsPort p
  unfolding udp_get_port
  udp_get_port_lem fd k =
      let (p, e, h) = willing.knows_port fd k in
      (
        to_int16 p,
        ap (λ o. elim o [ none ↦ (ret_err, pos 0) | some p ↦ (ret_sucess, to_int16 p) ]) e,
        to_int16-IsPort p h,
      )
