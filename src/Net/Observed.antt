-- ===== src/Net/Observed.antt =====
-- What a program sees of a kernel that it cannot look into: a view of the system's state, such as the open
-- sockets or the bytes sent, that the calls of my_rtsp_client/com_net.cpp keep or change in a known way.
use canok_rtsp_client.Base.{
  ℕ, zero, suc, ◌+◌, ◌/◌, ◌%◌, ◌^◌, ◌≡◌, refl, sym, ap, ◌∙◌, ltb, if◌then◌else◌, Bool, true, false,
  Bool-cases, inl, inr, some, Bytes,
}
use canok_rtsp_client.Base.Int.{ℤ, negsuc}
use canok_rtsp_client.Net.{
  Kernel, fails, bound, udp_net_setup, connected, tcp_net_conncet, udp_connected, udp_connect,
  make_socket_blocking, try_sizes, increase_receive_buffer_to, htons,
}
use canok_rtsp_client.Macros.{ret_sucess, ret_err}

-- The calls that neither open nor close anything. A call of `send` changes the view by `sends`.
pub record Quiet {K V : Type 0} (kernel : Kernel K) (view : K → V) (sends : Bytes → V → V)
    : Type 0 where
  pub send_adds : (fd : ℤ) (b : Bytes) (k : K) → view (kernel.send fd b k).1 ≡ sends b (view k)
  pub recv_keeps : (fd : ℤ) (n : ℕ) (k : K) → view (kernel.recv fd n k).1 ≡ view k
  pub flags_keep : (fd : ℤ) (n : ℕ) (k : K) → view (kernel.set_flags fd n k).1 ≡ view k
  pub timeouts_keep : (fd : ℤ) (a b : ℕ) (k : K) → view (kernel.set_timeouts fd a b k) ≡ view k
  pub rcvbuf_keeps : (fd : ℤ) (n : ℕ) (k : K) → view (kernel.set_rcvbuf fd n k).1 ≡ view k
  pub log_keeps : (k : K) → view (kernel.open_log k).1 ≡ view k
  pub create_keeps : (k : K) → view (kernel.create_thread k).1 ≡ view k
  pub join_keeps : (reads : Bool) (k : K) → view (kernel.join_thread reads k).1 ≡ view k

-- The calls that make, use up or end sockets do not change the view either.
pub record Fixed {K V : Type 0} (kernel : Kernel K) (view : K → V) : Type 0 where
  pub socket_keeps : (k : K) → view (kernel.socket k).1 ≡ view k
  pub signal_keeps : (fd : ℤ) (k : K) → view (kernel.set_no_signal fd k) ≡ view k
  pub bind_keeps : (fd : ℤ) (k : K) → view (kernel.bind_any fd k).1 ≡ view k
  pub connect_keeps :
      (fd : ℤ) (host : Bytes) (port : ℕ) (k : K) → view (kernel.connect fd host port k).1 ≡ view k
  pub close_keeps : (fd : ℤ) (k : K) → view (kernel.close fd k).1 ≡ view k

module _ {K V : Type 0} (kernel : Kernel K) (view : K → V) (sends : Bytes → V → V)
    (quiet : Quiet kernel view sends) where
  pub make_socket_blocking_keeps :
      (fd : ℤ) (ms : ℕ) (k : K) → view (make_socket_blocking kernel fd ms k).1 ≡ view k
  unfolding make_socket_blocking
  make_socket_blocking_keeps fd ms k = elim (Bool-cases (ltb 0 ms)) [
    | inl some_time ↦ rw some_time (quiet.timeouts_keep fd _ _ _ ∙ quiet.flags_keep fd _ k)
    | inr no_time ↦ rw no_time (quiet.flags_keep fd _ k)
  ]

  try_sizes_keeps :
      (n : ℕ) (fd : ℤ) (requested cur : ℕ) (k : K) {r : ℕ × K}
      → try_sizes kernel n fd requested cur k ≡ some r
      → view r.1 ≡ view k
  unfolding try_sizes
  try_sizes_keeps zero fd requested cur k e = cc e
  try_sizes_keeps (suc n) fd requested cur k {r} e = elim (Bool-cases (ltb cur requested)) [
    | inr enough ↦ ap view (sym (cc (rw enough at e)))
    | inl more ↦ elim (Bool-cases (kernel.set_rcvbuf fd requested k).0) [
      | inl taken ↦
          let same : (requested, (kernel.set_rcvbuf fd requested k).1) ≡ r =
            cc (rw (more, taken) at e) in
          ap (λ (x : ℕ × K). view x.1) (sym same) ∙ quiet.rcvbuf_keeps fd requested k
      | inr refused ↦
          try_sizes_keeps n fd ((requested + cur) % 2 ^ 32 / 2) cur
            (kernel.set_rcvbuf fd requested k).1 (rw (more, refused) at e)
          ∙ quiet.rcvbuf_keeps fd requested k
    ]
  ]

  pub increase_receive_buffer_to_keeps :
      (fd : ℤ) (requested : ℕ) (k : K) {r : ℕ × K}
      → increase_receive_buffer_to kernel fd requested k ≡ some r
      → view r.1 ≡ view k
  unfolding increase_receive_buffer_to
  increase_receive_buffer_to_keeps fd requested k e =
      try_sizes_keeps (suc requested) fd requested _ k e

either :
    {A K V : Type 0} (view : K → V) (t : Bool) (a b : A × K) {v : V}
    → view a.1 ≡ v
    → view b.1 ≡ v
    → view (if t then a else b).1 ≡ v
either view true a b p q = p
either view false a b p q = q

module _ {K V : Type 0} (kernel : Kernel K) (view : K → V) (fixed : Fixed kernel view) where
  bound_keeps : (fd : ℤ) (k : K) → view (bound kernel fd k).1 ≡ view k
  unfolding bound
  bound_keeps fd k =
      let made = fixed.bind_keeps fd (kernel.set_no_signal fd k) ∙ fixed.signal_keeps fd k in
      either view (fails (kernel.bind_any fd (kernel.set_no_signal fd k)).0) (negsuc 0, _) (fd, _)
        (fixed.close_keeps fd _ ∙ made) made

  connected_keeps :
      (fd : ℤ) (host : Bytes) (port : ℕ) (k : K) → view (connected kernel fd host port k).1 ≡ view k
  unfolding connected
  connected_keeps fd host port k =
      let made =
        fixed.connect_keeps fd host (htons port) (kernel.set_no_signal fd k)
        ∙ fixed.signal_keeps fd k in
      either view (fails (kernel.connect fd host (htons port) (kernel.set_no_signal fd k)).0)
        (negsuc 0, _) (fd, _) (fixed.close_keeps fd _ ∙ made) made

  pub udp_net_setup_keeps : (k : K) → view (udp_net_setup kernel k).1 ≡ view k
  unfolding udp_net_setup
  udp_net_setup_keeps k =
      either view (fails (kernel.socket k).0) (negsuc 0, (kernel.socket k).1)
        (bound kernel (kernel.socket k).0 (kernel.socket k).1) (fixed.socket_keeps k)
        (bound_keeps (kernel.socket k).0 (kernel.socket k).1 ∙ fixed.socket_keeps k)

  pub tcp_net_conncet_keeps :
      (host : Bytes) (port : ℕ) (k : K) → view (tcp_net_conncet kernel host port k).1 ≡ view k
  unfolding tcp_net_conncet
  tcp_net_conncet_keeps host port k =
      either view (fails (kernel.socket k).0) (negsuc 0, (kernel.socket k).1)
        (connected kernel (kernel.socket k).0 host port (kernel.socket k).1) (fixed.socket_keeps k)
        (connected_keeps (kernel.socket k).0 host port (kernel.socket k).1 ∙ fixed.socket_keeps k)

  pub udp_connect_keeps :
      (fd : ℤ) (host : Bytes) (port : ℕ) (k : K)
      → view (udp_connect kernel fd host port k).1 ≡ view k
  unfolding udp_connect
  udp_connect_keeps fd host port k =
      either view (fails fd) (ret_err, k) (udp_connected kernel fd host port k) refl
        (either view (fails (kernel.connect fd host (htons port) k).0) (ret_err, _) (ret_sucess, _)
          (fixed.close_keeps fd _ ∙ fixed.connect_keeps fd host (htons port) k)
          (fixed.connect_keeps fd host (htons port) k))
