-- ===== src/Net.antt =====
-- The socket helpers of my_rtsp_client/com_net.h and my_rtsp_client/com_net.cpp. The kernel is a
-- parameter: its calls are functions on a state `K` of the system.
pub mod Willing
pub mod Buffer
pub mod Open
pub mod Observed
mod Tests
use Prim.Native.Nat.{bit_and, bit_or}
use canok_rtsp_client.Base.{
  ℕ, zero, suc, ◌+◌, ◌-◌, ◌*◌, ◌/◌, ◌%◌, ◌^◌, ltb, leb, if◌then◌else◌, Bool, true, false, Option,
  none, some, Bytes, length,
}
use canok_rtsp_client.Base.Int.{ℤ, pos, negsuc, ltb_ℤ}
use canok_rtsp_client.Macros.{ret_sucess, ret_err}

-- The system calls. A result below 0, `none` or `false` is a failure. The address families and flags
-- are fixed. `recv` gives the bytes received; `get_flags` is the int as 32 bits; `set_timeouts` takes
-- seconds and microseconds, for sending and receiving. `join_thread` takes `true` for the thread that
-- reads and `false` for the one that parses; it fails where the thread does not end.
pub record Kernel (K : Type 0) : Type 0 where
  pub socket : K → ℤ × K
  pub set_no_signal : ℤ → K → K
  pub bind_any : ℤ → K → ℤ × K
  pub connect : ℤ → Bytes → ℕ → K → ℤ × K
  pub close : ℤ → K → ℤ × K
  pub sock_port : ℤ → K → Option ℕ
  pub rcvbuf : ℤ → K → Option ℕ
  pub set_rcvbuf : ℤ → ℕ → K → Bool × K
  pub recv : ℤ → ℕ → K → Option Bytes × K
  pub send : ℤ → Bytes → K → ℤ × K
  pub get_flags : ℤ → K → ℕ
  pub set_flags : ℤ → ℕ → K → Bool × K
  pub set_timeouts : ℤ → ℕ → ℕ → K → K
  pub open_log : K → Bool × K
  pub create_thread : K → Bool × K
  pub join_thread : Bool → K → Bool × K

abbrev pub fails : ℤ → Bool
fails r = ltb_ℤ r (pos 0)

-- `htons` on the low 16 bits of a port; `connect` is given the number that stands in the address.
unfoldable pub htons : ℕ → ℕ
htons p = p % 256 * 256 + p / 256 % 256

-- An unsigned 16-bit number stored in an int16_t.
unfoldable pub to_int16 : ℕ → ℤ
to_int16 n = if ltb n 32768 then pos n else negsuc (65535 - n)

module _ {K : Type 0} (kernel : Kernel K) where
  -- What `udp_net_setup` does with its socket.
  pub bound : ℤ → K → ℤ × K
  bound fd k =
      let r = kernel.bind_any fd (kernel.set_no_signal fd k) in
      if fails r.0 then (negsuc 0, (kernel.close fd r.1).1) else (fd, r.1)

  unfoldable pub udp_net_setup : K → ℤ × K
  unfolding bound
  udp_net_setup k = let s = kernel.socket k in if fails s.0 then (negsuc 0, s.1) else bound s.0 s.1

  -- What `tcp_net_conncet` does with its socket.
  pub connected : ℤ → Bytes → ℕ → K → ℤ × K
  unfolding htons
  connected fd host port k =
      let r = kernel.connect fd host (htons port) (kernel.set_no_signal fd k) in
      if fails r.0 then (negsuc 0, (kernel.close fd r.1).1) else (fd, r.1)

  unfoldable pub tcp_net_conncet : Bytes → ℕ → K → ℤ × K
  unfolding connected
  tcp_net_conncet host port k =
      let s = kernel.socket k in if fails s.0 then (negsuc 0, s.1) else connected s.0 host port s.1

  pub udp_connected : ℤ → Bytes → ℕ → K → ℤ × K
  unfolding htons
  udp_connected fd host port k =
      let r = kernel.connect fd host (htons port) k in
      if fails r.0 then (ret_err, (kernel.close fd r.1).1) else (ret_sucess, r.1)

  unfoldable pub udp_connect : ℤ → Bytes → ℕ → K → ℤ × K
  unfolding udp_connected
  udp_connect fd host port k = if fails fd then (ret_err, k) else udp_connected fd host port k

  -- `udp_get_port(socket, &port)`, with the value of `port` before the call: the number in the address,
  -- in network order, goes into the int16_t as it is.
  unfoldable pub udp_get_port : ℤ → ℤ → K → ℤ × ℤ
  unfolding to_int16
  udp_get_port fd before k = elim (kernel.sock_port fd k) [
    | none ↦ (ret_err, before)
    | some p ↦ (ret_sucess, to_int16 p)
  ]

  -- `readSocket`, with the bytes at `buffer`; `none` is the result -1.
  unfoldable pub read_socket : ℤ → ℕ → K → Option Bytes × K
  read_socket fd size k = kernel.recv fd size k

  unfoldable pub write_socket : ℤ → Bytes → K → ℤ × K
  write_socket fd buffer k = kernel.send fd buffer k

  unfoldable pub close_socket : ℤ → K → ℤ × K
  close_socket fd k = kernel.close fd k

  -- O_NONBLOCK is 2048.
  unfoldable pub make_socket_non_blocking : ℤ → K → Bool × K
  make_socket_non_blocking fd k = kernel.set_flags fd (bit_or (kernel.get_flags fd k) 2048) k

  -- `makeSocketBlocking(sock, ms)`.
  unfoldable pub make_socket_blocking : ℤ → ℕ → K → Bool × K
  make_socket_blocking fd ms k =
      let r = kernel.set_flags fd (bit_and (kernel.get_flags fd k) (2 ^ 32 - 1 - 2048)) k in
      if ltb 0 ms then (r.0, kernel.set_timeouts fd (ms / 1000) (ms % 1000 * 1000) r.1) else r

  unfoldable pub get_receive_buffer_size : ℤ → K → ℕ
  get_receive_buffer_size fd k = elim (kernel.rcvbuf fd k) [ none ↦ 0 | some n ↦ n ]

  -- The loop of `increaseReceiveBufferTo`, on fuel; without fuel the result is `none`. Unsigned sums
  -- wrap at 2 ^ 32.
  pub try_sizes : ℕ → ℤ → ℕ → ℕ → K → Option (ℕ × K)
  unfolding get_receive_buffer_size
  try_sizes zero fd requested cur k = none
  try_sizes (suc n) fd requested cur k =
      let r = kernel.set_rcvbuf fd requested k in
      let rest = try_sizes n fd ((requested + cur) % 2 ^ 32 / 2) cur r.1 in
      if ltb cur requested
      then (if r.0 then some (requested, r.1) else rest)
      else some (get_receive_buffer_size fd k, k)

  unfoldable pub increase_receive_buffer_to : ℤ → ℕ → K → Option (ℕ × K)
  unfolding try_sizes
  increase_receive_buffer_to fd requested k =
      try_sizes (suc requested) fd requested (get_receive_buffer_size fd k) k
