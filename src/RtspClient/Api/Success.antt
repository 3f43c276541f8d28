-- ===== src/RtspClient/Api/Success.antt =====
-- `api_init` of my_rtsp_client/cRTSPClient.cpp succeeds where the system and the server do their part.
use canok_rtsp_client.Base.{
  ◌+◌, ◌<◌, ◌≤◌, ◌≡◌, refl, ap, ◌∙◌, inl, inr, if◌then◌else◌, true, Option, none, some, Bytes, [],
  arith, length,
}
use canok_rtsp_client.Base.Int.{ℤ}
use canok_rtsp_client.Base.Outcome.{done, ◌>>◌, pure, modify, bind_done, zoom_done}
use canok_rtsp_client.Base.Returns.{Returns-done}
use canok_rtsp_client.Macros.{ret_sucess, ret_err}
use canok_rtsp_client.Net.{Kernel, tcp_net_conncet}
use canok_rtsp_client.Net.Willing.{Willing, tcp_net_conncet_lem}
use canok_rtsp_client.RtpClient.Lifecycle.{RawMemory}
use canok_rtsp_client.RtspClient.{Server, parse_rtsp_url}
use canok_rtsp_client.RtspClient.Address.{Stores, parse_rtsp_url-Stores}
use canok_rtsp_client.RtspClient.Session.{Session, on_server}
use canok_rtsp_client.RtspClient.Requests.{
  request_options, request_describe_media, request_setup_video, request_play_stream,
}
use canok_rtsp_client.RtspClient.Api.{
  is_minus_one, with_buffer, open_log, connect, run_session, api_init,
}
use canok_rtsp_client.RtspClient.Api.Steps.{
  Obliging, and_then-done, request_options-IsReady, request_describe-IsReady, request_setup-IsReady,
  request_play_lem,
}

with_buffer_lem :
    (raw : Bytes) (o : Option Bytes) → (b : Bytes) × (with_buffer (some raw) o ≡ some b)
unfolding with_buffer
with_buffer_lem raw none = (raw, refl)
with_buffer_lem raw (some b) = (b, refl)

stored_short : (url : Bytes) (v : Server) → Stores url ret_sucess v → length v.url ≤ 127
stored_short url v (inl e) = cc e
stored_short url v (inr (e, h)) = omega (arith, ap length e, h)

module _ {K : Type 0} (kernel : Kernel K) (willing : Willing kernel)
    (server : Obliging kernel) where
  open_log_lem :
      (o : Option Bytes) (s : Session K)
      → s.log ≡ o
      → (log : Option Bytes) × (k : K) × (open_log kernel o s
          ≡ done true (record s { log = log; system = k }))
  unfolding open_log
  open_log_lem none s e = (
    if (kernel.open_log s.system).0 then some [] else none,
    (kernel.open_log s.system).1,
    ap
        (λ ok. done ok (record s {
          log = if (kernel.open_log s.system).0 then some [] else none;
          system = (kernel.open_log s.system).1;
        }))
        (willing.opens_log s.system),
  )
  open_log_lem (some text) s e = (some text, s.system, ap (λ l. done true (record s { log = l })) e)

  connect_lem :
      (s : Session K)
      → (fd : ℤ) × (k : K) × (connect kernel s
          ≡ done ret_sucess (record s { socket = fd; system = k }))
  unfolding connect is_minus_one
  connect_lem s =
      let r = tcp_net_conncet kernel s.server.server_ip s.server.server_port s.system in
      let (n, e) =
        tcp_net_conncet_lem kernel willing s.server.server_ip s.server.server_port s.system in
      (
        r.0,
        r.1,
        ap
            (λ fd.
              done (if is_minus_one fd then ret_err else ret_sucess)
                (record s { socket = r.0; system = r.1 }))
            e,
      )

  run_session_lem :
      (raw : RawMemory) (url : Bytes) (s : Session K) (v : Server) {b : Bytes}
      → parse_rtsp_url url s.server ≡ done ret_sucess v
      → s.send.send_len ≡ 256
      → s.rtsp_buffer ≡ some b
      → s.cseq + 4 < 4294967296
      → (t : Session K) × (run_session kernel raw url s ≡ done ret_sucess t)
  unfolding run_session
  run_session_lem raw url s v {b} parsed room ready small =
      let addressed = record s { server = v } in
      let (fd, k, connects) = connect_lem addressed in
      let connected = record addressed { socket = fd; system = k } in
      let (a, options, a_ready) =
        request_options-IsReady kernel willing server {n = 3} connected (record {
          short = stored_short url v (
              Returns-done (Stores url) (parse_rtsp_url url s.server) ret_sucess v
                (parse_rtsp_url-Stores url s.server) parsed);
          room = room;
          buffer = b;
          ready = ready;
          small = small;
        }) in
      let (d, describe, d_ready, track, (o, rtp, set)) =
        request_describe-IsReady kernel willing server {n = 2} raw a a_ready in
      let (p, setup, p_ready, named, rtp') =
        request_setup-IsReady kernel willing server {n = 1} d o d_ready track rtp set in
      let (t, play) = request_play_lem kernel willing server {n = 0} p o p_ready named rtp' in
      (
        t,
        and_then-done (on_server (parse_rtsp_url url)) _ {s = s} (
              zoom_done (λ s. s.server) (λ v s. record s { server = v }) (parse_rtsp_url url)
                {s = s} parsed)
            ∙ and_then-done (connect kernel) _ {s = addressed} connects
            ∙ and_then-done (request_options kernel) _ {s = connected} options
            ∙ and_then-done (request_describe_media kernel raw) _ {s = a} describe
            ∙ and_then-done (request_setup_video kernel) (request_play_stream kernel) {s = d} setup
            ∙ play,
      )

  -- On a system that refuses nothing, with a server that answers the four requests within the five reads
  -- of each, a control path of at most 150 bytes and a session's name of at most 63, and where malloc gives
  -- the buffer for replies, `api_init` returns RET_SUCESS for every URL that `parse_rtsp_url` takes: no
  -- call in it waits or is undefined. The object has its 256 bytes for requests, and m_cseq is below
  -- 2 ^ 32 - 4.
  pub api_init_succeeds :
      (raw : RawMemory) (buffer url : Bytes) (s : Session K) (v : Server)
      → parse_rtsp_url url s.server ≡ done ret_sucess v
      → s.send.send_len ≡ 256
      → s.cseq + 4 < 4294967296
      → (t : Session K) × (api_init kernel raw (some buffer) url s ≡ done ret_sucess t)
  unfolding api_init
  api_init_succeeds raw buffer url s v parsed room small =
      let (log, k, opened) = open_log_lem s.log s refl in
      let (b, ready) = with_buffer_lem buffer s.rtsp_buffer in
      let started = record s {
        log = log;
        system = k;
        rtsp_buffer = with_buffer (some buffer) s.rtsp_buffer;
      } in
      let (t, run) = run_session_lem raw url started v parsed room ready small in
      (
        t,
        bind_done (open_log kernel s.log)
              (λ opened.
                if opened
                then (modify
                      (λ s. record s { rtsp_buffer = with_buffer (some buffer) s.rtsp_buffer })
                    >> run_session kernel raw url)
                else pure ret_err)
              {s = s} opened
            ∙ run,
      )
