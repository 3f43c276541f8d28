-- ===== src/RtpClient/Lifecycle/View.antt =====
-- The methods of my_rtsp_client/cRTPClient.cpp that call the kernel, seen through a view that these calls
-- keep, and what a started client looks like.
use canok_rtsp_client.Base.{
  ℕ, ◌≡◌, refl, ◌∙◌, if◌then◌else◌, Bool, true, false, Option, none, some, Bytes,
}
use canok_rtsp_client.Base.Int.{ℤ, pos, negsuc}
use canok_rtsp_client.Base.Outcome.{M, ◌>>=◌, ◌>>◌, pure, modify, or_fault}
use canok_rtsp_client.Base.Returns.{Returns}
use canok_rtsp_client.Net.{Kernel, udp_net_setup, udp_get_port, increase_receive_buffer_to}
use canok_rtsp_client.Net.Observed.{
  Quiet, Fixed, udp_net_setup_keeps, udp_connect_keeps, increase_receive_buffer_to_keeps,
}
use canok_rtsp_client.RtpClient.{new_queues}
use canok_rtsp_client.RtpClient.Lifecycle.{
  RtpObject, Device, RawMemory, rtp_init, rtp_start, rtp_udp_connect, connect_to,
}

-- Both threads run and are told to go on.
pub record IsRunning (o : RtpObject) : Type 0 where
  pub read : o.client.read ≡ true
  pub parsing : o.client.parsing ≡ true
  pub read_started : o.read_started ≡ true
  pub parse_started : o.parse_started ≡ true

module _ {K V : Type 0} (kernel : Kernel K) (view : K → V) (sends : Bytes → V → V)
    (quiet : Quiet kernel view sends) where
  pub rtp_start-IsRunning :
      (d : Device K)
      → Returns
          (λ r e.
            (view e.system ≡ view d.system)
            × ((e.object.port ≡ d.object.port) × (r ≡ pos 0 → IsRunning e.object)))
          (rtp_start kernel d)
  unfolding rtp_start
  rtp_start-IsRunning d = (
    quiet.create_keeps (kernel.create_thread d.system).1 ∙ quiet.create_keeps d.system,
    (
      refl,
      both (kernel.create_thread d.system).0
          (kernel.create_thread (kernel.create_thread d.system).1).0,
    ),
  )
    where
      both :
          (a b : Bool)
          → (if a then (if b then pos 0 else negsuc 0) else negsuc 0) ≡ pos 0
          → IsRunning (record (d.object) {
            client = record (d.object.client) { read = true; parsing = true };
            read_started = a;
            parse_started = b;
          })
      both true true e = record {
        read = refl;
        parsing = refl;
        read_started = refl;
        parse_started = refl;
      }
      both true false e = cc e
      both false b e = cc e

  module _ (fixed : Fixed kernel view) where
    pub rtp_init_keeps :
        (raw : RawMemory) (ip : Bytes) (k : K)
        → Returns (λ r k'. view k' ≡ view k) (rtp_init kernel raw ip k)
    unfolding rtp_init
    rtp_init_keeps raw ip k =
        let fd = (udp_net_setup kernel k).0 in
        let k' = (udp_net_setup kernel k).1 in
        by_size (increase_receive_buffer_to kernel fd 2000000 k') refl
      where
        finish : ℕ × K → M K (ℤ × RtpObject)
        finish r =
            modify (λ k. r.1)
            >> pure (
              (udp_get_port kernel (udp_net_setup kernel k).0 (pos 0) r.1).0,
              record {
                client = new_queues raw.raw_net raw.raw_h264;
                ser_ip = some ip;
                socket = (udp_net_setup kernel k).0;
                port = (udp_get_port kernel (udp_net_setup kernel k).0 (pos 0) r.1).1;
                read_started = false;
                parse_started = false;
              },
            )

        by_size :
            (o : Option (ℕ × K))
            → increase_receive_buffer_to kernel
                (udp_net_setup kernel k).0
                2000000
                (udp_net_setup kernel k).1
              ≡ o
            → Returns
                (λ r k'. view k' ≡ view k)
                ((or_fault o >>= finish) (udp_net_setup kernel k).1)
        by_size none e = tt
        by_size (some r) e =
            increase_receive_buffer_to_keeps kernel view sends quiet (udp_net_setup kernel k).0
              2000000 (udp_net_setup kernel k).1 e
            ∙ udp_net_setup_keeps kernel view fixed k

    pub rtp_udp_connect_keeps :
        (port : ℕ) (d : Device K)
        → Returns
            (λ r e. (view e.system ≡ view d.system) × (e.object ≡ d.object))
            (rtp_udp_connect kernel port d)
    unfolding rtp_udp_connect
    rtp_udp_connect_keeps port d = by_host d.object.ser_ip
      where
        by_host :
            (o : Option Bytes)
            → Returns
                (λ r e. (view e.system ≡ view d.system) × (e.object ≡ d.object))
                (connect_to kernel o port d)
        by_host none = tt
        by_host (some ip) =
            (udp_connect_keeps kernel view fixed d.object.socket ip port d.system, refl)
