-- ===== src/RtpClient/Lifecycle.antt =====
-- The socket and the threads of the class cRTPClient, my_rtsp_client/cRTPClient.cpp: `rtp_init`, `rtp_start`,
-- `rtp_stop`, `rtp_deinit`, `rtp_getUDPPort` and `rtp_UDPConnect`, over the kernel of my_rtsp_client/com_net.cpp.
pub mod View
pub mod Success
use canok_rtsp_client.Base.{ℕ, if◌then◌else◌, Bool, true, false, Option, none, some, Bytes}
use canok_rtsp_client.Base.Int.{ℤ, pos}
use canok_rtsp_client.Base.Outcome.{
  M, done, waits, fault, ◌>>=◌, ◌>>◌, pure, get, modify, or_fault, zoom,
}
use canok_rtsp_client.Macros.{ret_sucess, ret_err}
use canok_rtsp_client.Net.{
  Kernel, udp_net_setup, udp_connect, udp_get_port, close_socket, increase_receive_buffer_to,
}
use canok_rtsp_client.RtpClient.{RtpClient, new_queues, set_running, reset_flags}

-- The whole object. `read_started` and `parse_started`: `mpth_read` and `mpth_parse` name a thread that
-- has not been joined; otherwise they are uninitialised or stale.
pub record RtpObject : Type 0 where
  pub client : RtpClient
  pub ser_ip : Option Bytes
  pub socket : ℤ
  pub port : ℤ
  pub read_started : Bool
  pub parse_started : Bool

-- The object and the system that it runs on.
pub record Device (K : Type 0) : Type 0 where
  pub object : RtpObject
  pub system : K

-- What malloc gives to the slots of the two queues.
pub record RawMemory : Type 0 where
  pub raw_net : ℕ → ℤ × Bytes
  pub raw_h264 : ℕ → ℤ × Bytes

abbrev pub on_object : {K : Type 0} → (RtpObject → RtpObject) → Device K → Device K
on_object f d = record d { object = f d.object }

-- A call of the kernel.
abbrev pub call : {K A : Type 0} → (K → A × K) → M K A
call f k = done (f k).0 (f k).1

abbrev pub on_system : {K A : Type 0} → M K A → M (Device K) A
on_system = zoom (λ d. d.system) (λ k d. record d { system = k })

module _ {K : Type 0} (kernel : Kernel K) where
  -- `new cRTPClient()`, then `rtp_init(serip)` on it: the result and the object.
  unfoldable pub rtp_init : RawMemory → Bytes → M K (ℤ × RtpObject)
  rtp_init raw serip = do
    fd ← call (udp_net_setup kernel)
    k ← get
    (size, k') ← or_fault (increase_receive_buffer_to kernel fd 2000000 k)
    modify (λ k. k')
    let (ret, port) = udp_get_port kernel fd (pos 0) k'
    pure (
      ret,
      record {
        client = new_queues raw.raw_net raw.raw_h264;
        ser_ip = some serip;
        socket = fd;
        port = port;
        read_started = false;
        parse_started = false;
      },
    )

  pub started_read : Bool → RtpObject → RtpObject
  started_read ok o = record o { read_started = ok }

  pub started_parse : Bool → RtpObject → RtpObject
  started_parse ok o = record o { parse_started = ok }

  -- `rtp_start()`. Where one thread cannot be created the other one is left running.
  unfoldable pub rtp_start : M (Device K) ℤ
  unfolding started_read started_parse
  rtp_start = do
    modify (on_object (λ o. record o { client = set_running true o.client }))
    read_ok ← on_system (call kernel.create_thread)
    modify (on_object (started_read read_ok))
    parse_ok ← on_system (call kernel.create_thread)
    modify (on_object (started_parse parse_ok))
    pure (if read_ok then (if parse_ok then ret_sucess else ret_err) else ret_err)

  -- What `pthread_join` says of its thread.
  pub joined : Bool → M (Device K) (Unit {0})
  joined true = pure tt
  joined false = waits

  -- `pthread_join` on a thread's name, which a thread must stand behind.
  unfoldable pub join : Bool → Bool → M (Device K) (Unit {0})
  unfolding joined
  join reads false = λ d. fault
  join reads true = on_system (call (kernel.join_thread reads)) >>= joined

  -- `rtp_stop()`.
  unfoldable pub rtp_stop : M (Device K) ℤ
  unfolding join started_read started_parse
  rtp_stop = do
    modify (on_object (λ o. record o { client = reset_flags o.client }))
    d ← get
    join true d.object.read_started
    modify (on_object (started_read false))
    join false d.object.parse_started
    modify (on_object (started_parse false))
    pure ret_sucess

  -- `rtp_deinit()`. The queues and the parser are freed, so nothing may use the object afterwards.
  unfoldable pub rtp_deinit : M (Device K) ℤ
  unfolding rtp_stop close_socket
  rtp_deinit = do
    _ ← rtp_stop
    d ← get
    _ ← on_system (call (close_socket kernel d.object.socket))
    modify (on_object (λ o. record o { ser_ip = none }))
    pure ret_sucess

  unfoldable pub rtp_get_udp_port : M (Device K) ℤ
  rtp_get_udp_port = do d ← get; pure d.object.port

  pub connect_to : Option Bytes → ℕ → M (Device K) ℤ
  unfolding udp_connect
  connect_to none port = λ d. fault
  connect_to (some ip) port = do
    d ← get
    on_system (call (udp_connect kernel d.object.socket ip port))

  -- `rtp_UDPConnect(serPort)`.
  unfoldable pub rtp_udp_connect : ℕ → M (Device K) ℤ
  unfolding connect_to
  rtp_udp_connect port = do d ← get; connect_to d.object.ser_ip port
