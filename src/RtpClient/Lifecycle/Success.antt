-- ===== src/RtpClient/Lifecycle/Success.antt =====
-- The methods of my_rtsp_client/cRTPClient.cpp that call the kernel, on a system that refuses nothing.
use canok_rtsp_client.Base.{
  ℕ, ◌≡◌, refl, ap, ap₂, ◌∙◌, Bool, if◌then◌else◌, true, false, some, Bytes,
}
use canok_rtsp_client.Base.Int.{ℤ, pos}
use canok_rtsp_client.Base.Outcome.{Outcome, M, done, ◌>>=◌, ◌>>◌, pure, modify, or_fault}
use canok_rtsp_client.Macros.{ret_sucess, ret_err}
use canok_rtsp_client.Net.{Kernel, udp_net_setup, udp_connect, udp_get_port}
use canok_rtsp_client.Net.Buffer.{increase_receive_buffer_to-IsAnswer}
use canok_rtsp_client.Net.Willing.{
  Willing, IsPort, udp_net_setup_lem, udp_connect_lem, udp_get_port_lem,
}
use canok_rtsp_client.RtpClient.{new_queues, set_running}
use canok_rtsp_client.RtpClient.Lifecycle.{
  RtpObject, Device, RawMemory, started_read, started_parse, rtp_init, rtp_start, rtp_udp_connect,
  connect_to,
}

-- An RTP client that can be connected and asked for its port.
pub record IsSetUp (o : RtpObject) : Type 0 where
  pub number : ℕ
  pub ip : Bytes
  pub socket : o.socket ≡ pos number
  pub ser_ip : o.ser_ip ≡ some ip
  pub port : IsPort o.port

-- What `rtp_init` makes.
abbrev made : RawMemory → Bytes → ℤ → ℤ → RtpObject
made raw ip fd port = record {
  client = new_queues raw.raw_net raw.raw_h264;
  ser_ip = some ip;
  socket = fd;
  port = port;
  read_started = false;
  parse_started = false;
}

module _ {K : Type 0} (kernel : Kernel K) (willing : Willing kernel) where
  pub rtp_init_lem :
      (raw : RawMemory) (ip : Bytes) (k : K)
      → (o : RtpObject) × (k' : K) × (rtp_init kernel raw ip k ≡ done (ret_sucess, o) k')
        × IsSetUp o
  unfolding rtp_init
  rtp_init_lem raw ip k =
      let fd = (udp_net_setup kernel k).0 in
      let opened = (udp_net_setup kernel k).1 in
      let (n, number) = udp_net_setup_lem kernel willing k in
      let (r, sized, _) = increase_receive_buffer_to-IsAnswer kernel fd 2000000 opened in
      let (p, port, is_port) = udp_get_port_lem kernel willing fd r.1 in
      (
        made raw ip fd p,
        r.1,
        ap (λ x. (or_fault x >>= rest fd) opened) sized
            ∙ ap (λ y. done (y.0, made raw ip fd y.1) r.1) port,
        record { number = n; ip = ip; socket = number; ser_ip = refl; port = is_port },
      )
    where
      rest : ℤ → ℕ × K → M K (ℤ × RtpObject)
      rest fd (size, k') =
          modify (λ k. k')
          >> pure (
            (udp_get_port kernel fd (pos 0) k').0,
            made raw ip fd (udp_get_port kernel fd (pos 0) k').1,
          )

  pub rtp_udp_connect_lem :
      (port : ℕ) (d : Device K)
      → IsSetUp d.object
      → (k : K) × (rtp_udp_connect kernel port d ≡ done ret_sucess (record d { system = k }))
  unfolding rtp_udp_connect connect_to
  rtp_udp_connect_lem port d set = (
    (udp_connect kernel (pos set.number) set.ip port d.system).1,
    ap (λ ip. connect_to kernel ip port d) set.ser_ip
        ∙ ap (λ fd. connected (udp_connect kernel fd set.ip port d.system)) set.socket
        ∙ ap
            (λ r.
              done r (record d {
                system = (udp_connect kernel (pos set.number) set.ip port d.system).1;
              }))
            (udp_connect_lem kernel willing set.number set.ip port d.system),
  )
    where
      connected : ℤ × K → Outcome (Device K) ℤ
      connected r = done r.0 (record d { system = r.1 })

  pub rtp_start_lem : (d : Device K) → (e : Device K) × (rtp_start kernel d ≡ done ret_sucess e)
  unfolding rtp_start started_read started_parse
  rtp_start_lem d = (
    started,
    ap₂ (λ a b. done (if a then (if b then ret_sucess else ret_err) else ret_err) started)
        (willing.creates d.system) (willing.creates first.1),
  )
    where
      first : Bool × K
      first = kernel.create_thread d.system

      started : Device K
      started = record {
        object = record (d.object) {
          client = set_running true d.object.client;
          read_started = first.0;
          parse_started = (kernel.create_thread first.1).0;
        };
        system = (kernel.create_thread first.1).1;
      }
