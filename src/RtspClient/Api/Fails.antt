-- ===== src/RtspClient/Api/Fails.antt =====
-- An `api_init` of my_rtsp_client/cRTSPClient.cpp that fails has not started both threads of its RTP client.
use canok_rtsp_client.Base.{
  ◌≡◌, ◌⊎◌, inl, inr, refl, if◌then◌else◌, Bool, true, false, Option, none, some, Bytes,
}
use canok_rtsp_client.Base.Int.{ℤ, pos, negsuc}
use canok_rtsp_client.Base.Outcome.{M, done, ◌>>◌, pure, modify}
use canok_rtsp_client.Base.Returns.{Returns, Returns-bind, Returns-zoom, Returns-done}
use canok_rtsp_client.Macros.{ret_err}
use canok_rtsp_client.Net.{Kernel}
use canok_rtsp_client.RtpClient.Lifecycle.{RtpObject, RawMemory, rtp_start}
use canok_rtsp_client.RtspClient.{parse_rtsp_url}
use canok_rtsp_client.RtspClient.Session.{Session, on_server, on_object, load, store}
use canok_rtsp_client.RtspClient.Requests.{
  is_sucess, and_then, after_play, request_options, request_describe_media, request_setup_video,
  request_play_stream,
}
use canok_rtsp_client.RtspClient.Api.{with_buffer, open_log, connect, run_session, api_init}
use canok_rtsp_client.RtspClient.Api.Idle.{
  LacksThread, Idle, any-Returns, same_object, StaysIdle, send_lines-StaysIdle,
  request_options-StaysIdle, request_describe-StaysIdle, request_setup-StaysIdle,
}

module _ {K : Type 0} (kernel : Kernel K) where
  -- A call that has not started both threads when it fails.
  abbrev FailsIdle : M (Session K) ℤ → Type 0
  FailsIdle m = (s : Session K) → Idle s → Returns (λ r t. r ≡ ret_err → Idle t) (m s)

  and_then-FailsIdle :
      (m next : M (Session K) ℤ) → StaysIdle kernel m → FailsIdle next → FailsIdle (and_then m next)
  and_then-FailsIdle m next h g s idle =
      Returns-bind (λ _ t. Idle t) (λ r t. r ≡ ret_err → Idle t) m
        (λ r. if is_sucess r then next else pure ret_err) s (h s idle)
        (λ r t i. by_result (is_sucess r) t i)
    where
      by_result :
          (ok : Bool) (t : Session K)
          → Idle t
          → Returns (λ r t. r ≡ ret_err → Idle t) ((if ok then next else pure ret_err) t)
      by_result true t i = g t i
      by_result false t i = λ _. i

  -- `rtp_start` that fails has not started both.
  after_play-FailsIdle : FailsIdle (after_play kernel)
  unfolding after_play rtp_start
  after_play-FailsIdle s idle = by_object s.rtp
    where
      both :
          (a b : Bool)
          → (if a then (if b then pos 0 else negsuc 0) else negsuc 0) ≡ negsuc 0
          → (a ≡ false) ⊎ (b ≡ false)
      both true true e = cc e
      both true false e = inr refl
      both false b e = inl refl

      by_object :
          (o : Option RtpObject)
          → Returns (λ r t. r ≡ ret_err → Idle t) (on_object o (rtp_start kernel) s)
      by_object none = tt
      by_object (some x) =
          Returns-zoom (λ r t. r ≡ ret_err → Idle t) (λ r d. r ≡ ret_err → LacksThread d.object)
            (load x) store (rtp_start kernel) s (λ r d h bad o e. same_object d.object o e (h bad))
            (both (kernel.create_thread s.system).0
              (kernel.create_thread (kernel.create_thread s.system).1).0)

  request_play-FailsIdle : FailsIdle (request_play_stream kernel)
  unfolding request_play_stream
  request_play-FailsIdle s =
      and_then-FailsIdle _ (after_play kernel) (send_lines-StaysIdle kernel _ _)
        after_play-FailsIdle s

  connect-StaysIdle : StaysIdle kernel (connect kernel)
  unfolding connect
  connect-StaysIdle s idle = idle

  run_session-FailsIdle : (raw : RawMemory) (url : Bytes) → FailsIdle (run_session kernel raw url)
  unfolding run_session
  run_session-FailsIdle raw url =
      and_then-FailsIdle (on_server (parse_rtsp_url url)) _ server-StaysIdle (
        and_then-FailsIdle (connect kernel) _ connect-StaysIdle (
          and_then-FailsIdle (request_options kernel) _ (request_options-StaysIdle kernel) (
            and_then-FailsIdle (request_describe_media kernel raw) _
              (request_describe-StaysIdle kernel raw)
              (and_then-FailsIdle (request_setup_video kernel) (request_play_stream kernel)
                (request_setup-StaysIdle kernel) request_play-FailsIdle))))
    where
      server-StaysIdle : StaysIdle kernel (on_server (parse_rtsp_url url))
      server-StaysIdle s idle =
          Returns-zoom (λ _ t. Idle t) (λ _ _. Unit) (λ s. s.server)
            (λ v s. record s { server = v }) (parse_rtsp_url url) s (λ a v _. idle)
            (any-Returns (parse_rtsp_url url s.server))

  open_log-StaysIdle : (l : Option Bytes) → StaysIdle kernel (open_log kernel l)
  unfolding open_log
  open_log-StaysIdle (some text) s idle = idle
  open_log-StaysIdle none s idle = idle

  pub api_init-Idle :
      (raw : RawMemory) (buffer : Option Bytes) (url : Bytes) (s t : Session K)
      → s.rtp ≡ none
      → api_init kernel raw buffer url s ≡ done ret_err t
      → Idle t
  unfolding api_init
  api_init-Idle raw buffer url s t fresh failed =
      Returns-done (λ r t. r ≡ ret_err → Idle t) (api_init kernel raw buffer url s) ret_err t
        (Returns-bind (λ _ t. Idle t) (λ r t. r ≡ ret_err → Idle t) (open_log kernel s.log) opened s
          (open_log-StaysIdle s.log s (λ o e. cc (fresh, e))) (λ ok t i. by_log ok t i))
        failed refl
    where
      opened : Bool → M (Session K) ℤ
      opened ok =
          if ok
          then (modify (λ s. record s { rtsp_buffer = with_buffer buffer s.rtsp_buffer })
              >> run_session kernel raw url)
          else pure ret_err

      by_log :
          (ok : Bool) (t : Session K) → Idle t → Returns (λ r t. r ≡ ret_err → Idle t) (opened ok t)
      by_log true t i = run_session-FailsIdle raw url _ i
      by_log false t i = λ _. i
