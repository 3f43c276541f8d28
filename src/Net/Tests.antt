-- ===== src/Net/Tests.antt =====
-- A small kernel with one descriptor, and the theorems on com_net over it.
use canok_rtsp_client.Base.{
  ℕ, ◌==◌, ◌≡◌, ◌≢◌, refl, ap, leb, ◌&&◌, if◌then◌else◌, Bool, true, false, [], none, some, arith,
}
use canok_rtsp_client.Base.Int.{ℤ, pos, negsuc}
use canok_rtsp_client.Macros.{ret_sucess}
use canok_rtsp_client.Net.{
  Kernel, fails, udp_net_setup, tcp_net_conncet, get_receive_buffer_size,
  increase_receive_buffer_to, udp_get_port, make_socket_blocking,
}
use canok_rtsp_client.Net.Buffer.{IsAnswer, increase_receive_buffer_to-IsAnswer}
use canok_rtsp_client.Net.Open.{Descriptors, NoLeak, net_setup-NoLeak}

-- The state says whether the descriptor 3 is open. Every bind fails; receive buffers go up to 500.
abbrev small_close : ℤ → Bool → ℤ × Bool
small_close (pos n) k = if n == 3 then (pos 0, false) else (negsuc 0, k)
small_close (negsuc n) k = (negsuc 0, k)

abbrev small_socket : Bool → ℤ × Bool
small_socket false = (pos 3, true)
small_socket true = (negsuc 0, true)

abbrev small : Kernel Bool
small = record {
  socket = small_socket;
  set_no_signal = λ fd k. k;
  bind_any = λ fd k. (negsuc 0, k);
  connect = λ fd host port k. (pos 0, k);
  close = small_close;
  sock_port = λ fd k. some 14875;
  rcvbuf = λ fd k. some 212;
  set_rcvbuf = λ fd n k. (leb n 500, k);
  recv = λ fd n k. (none, k);
  send = λ fd b k. (pos 0, k);
  get_flags = λ fd k. 2050;
  set_flags = λ fd n k. (n == 2, k);
  set_timeouts = λ fd seconds micros k. k;
  open_log = λ k. (true, k);
  create_thread = λ k. (true, k);
  join_thread = λ reads k. (true, k);
}

abbrev is_open : ℤ → Bool → Bool
is_open (pos n) k = n == 3 && k
is_open (negsuc n) k = false

others : (k : Bool) (d : ℤ) → d ≢ (small_socket k).0 → is_open d (small_socket k).1 ≡ is_open d k
others true d ne = refl
others false (negsuc n) ne = refl
others false (pos n) ne = other_number n (λ e. ne (ap pos e))
  where
    other_number : (n : ℕ) → n ≢ 3 → (n == 3 && true) ≡ (n == 3 && false)
    other_number n ne = ground arith

socket_failed :
    (k : Bool) (d : ℤ)
    → fails (small_socket k).0 ≡ true
    → is_open d (small_socket k).1 ≡ is_open d k
socket_failed true d h = refl
socket_failed false d h = cc h

socket_opened :
    (k : Bool)
    → fails (small_socket k).0 ≡ false
    → (is_open (small_socket k).0 k ≡ false)
      × (is_open (small_socket k).0 (small_socket k).1 ≡ true)
socket_opened true h = cc h
socket_opened false h = (refl, refl)

closes : (fd : ℤ) (k : Bool) → is_open fd (small_close fd k).1 ≡ false
closes (pos n) k = ground arith
closes (negsuc n) k = refl

closes_others : (fd d : ℤ) (k : Bool) → d ≢ fd → is_open d (small_close fd k).1 ≡ is_open d k
closes_others (negsuc n) d k ne = refl
closes_others (pos n) (negsuc m) k ne = refl
closes_others (pos n) (pos m) k ne = other_number n m k (λ e. ne (ap pos e))
  where
    other_number :
        (n m : ℕ) (k : Bool) → m ≢ n → is_open (pos m) (small_close (pos n) k).1 ≡ is_open (pos m) k
    other_number n m k ne = ground arith

small-Descriptors : Descriptors small is_open
small-Descriptors = record {
  socket_new = socket_opened;
  socket_others = others;
  socket_fails = socket_failed;
  signal_keeps = λ fd d k. refl;
  bind_keeps = λ fd d k. refl;
  connect_keeps = λ fd d host port k. refl;
  close_closes = closes;
  close_others = closes_others;
}

net_setup-NoLeak_example :
    NoLeak small is_open small-Descriptors false (udp_net_setup small false)
    × NoLeak small is_open small-Descriptors false (tcp_net_conncet small [] 554 false)
net_setup-NoLeak_example = net_setup-NoLeak small is_open small-Descriptors [] 554 false

increase_receive_buffer_to-IsAnswer_example :
    (r : ℕ × Bool) × (increase_receive_buffer_to small (pos 3) 2000 true ≡ some r)
    × IsAnswer small (pos 3) (get_receive_buffer_size small (pos 3) true) 2000 r
increase_receive_buffer_to-IsAnswer_example =
    increase_receive_buffer_to-IsAnswer small (pos 3) 2000 true

-- 2000, 1106 and 659 are refused, 435 is taken.
increase_run : increase_receive_buffer_to small (pos 3) 2000 true ≡ some (435, true)
unfolding increase_receive_buffer_to
increase_run = refl

-- The port 6970 as it stands in the address, and what the caller gets.
udp_get_port_swapped : udp_get_port small (pos 3) (pos 0) true ≡ (ret_sucess, pos 14875)
unfolding udp_get_port
udp_get_port_swapped = refl

-- O_NONBLOCK is taken off.
make_blocking_run : make_socket_blocking small (pos 3) 50 true ≡ (true, true)
unfolding make_socket_blocking
make_blocking_run = refl
