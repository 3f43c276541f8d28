-- ===== src/RtspClient/Api/End.antt =====
-- `api_deinit` of my_rtsp_client/cRTSPClient.cpp after an `api_init` that failed.
use canok_rtsp_client.Base.{
  ◌≡◌, ◌≢◌, ◌⊎◌, inl, inr, refl, sym, ◌∙◌, subst, Bool, true, false, Option, none, some, Bytes,
}
use canok_rtsp_client.Base.Int.{ℤ}
use canok_rtsp_client.Base.Outcome.{M, done, ◌>>=◌, ◌>>◌, pure, modify}
use canok_rtsp_client.Base.Returns.{Returns, Returns-bind, Returns-zoom, Returns-done}
use canok_rtsp_client.Macros.{ret_sucess, ret_err}
use canok_rtsp_client.Net.{Kernel}
use canok_rtsp_client.RtpClient.{reset_flags}
use canok_rtsp_client.RtpClient.Lifecycle.{
  RtpObject, Device, RawMemory, on_object as on_obj, started_parse, started_read, join, rtp_stop,
  rtp_deinit,
}
use canok_rtsp_client.RtspClient.Session.{Session, on_object, on_rtp, load, store}
use canok_rtsp_client.RtspClient.Api.{api_init, api_deinit, close_log, end_rtp}
use canok_rtsp_client.RtspClient.Api.Idle.{LacksThread, any-Returns}
use canok_rtsp_client.RtspClient.Api.Fails.{api_init-Idle}

module _ {K : Type 0} (kernel : Kernel K) where
  -- Of two joins, the one of a thread that was not created is a fault.
  rtp_stop_lem : (d : Device K) → LacksThread d.object → Returns (λ _ _. ⊥) (rtp_stop kernel d)
  unfolding rtp_stop join
  rtp_stop_lem d = by_threads d.object.read_started d.object.parse_started
    where
      parse_joined : Bool → M (Device K) ℤ
      parse_joined b = do
        modify (on_obj (started_read kernel false))
        join kernel false b
        modify (on_obj (started_parse kernel false))
        pure ret_sucess

      by_threads :
          (a b : Bool)
          → (a ≡ false) ⊎ (b ≡ false)
          → Returns
              (λ _ _. ⊥)
              ((join kernel true a >>= λ _. parse_joined b)
                (record d { object = record (d.object) { client = reset_flags d.object.client } }))
      by_threads false b h = tt
      by_threads true false h =
          Returns-bind (λ _ _. Unit) (λ _ _. ⊥) (join kernel true true) (λ _. parse_joined false) _
            (any-Returns (join kernel true true _)) (λ _ e _. tt)
      by_threads true true (inl e) = cc e
      by_threads true true (inr e) = cc e

  rtp_deinit_lem : (d : Device K) → LacksThread d.object → Returns (λ _ _. ⊥) (rtp_deinit kernel d)
  unfolding rtp_deinit
  rtp_deinit_lem d lacks =
      Returns-bind (λ _ _. ⊥) (λ _ _. ⊥) (rtp_stop kernel) _ d (rtp_stop_lem d lacks)
        (λ _ _ never. absurd never)

  end_rtp_lem :
      (o : RtpObject) (s : Session K)
      → s.rtp ≡ some o
      → LacksThread o
      → Returns (λ _ _. ⊥) (end_rtp kernel (some o) s)
  unfolding end_rtp
  end_rtp_lem o s e lacks =
      Returns-bind (λ _ _. ⊥) (λ _ _. ⊥) (on_rtp (rtp_deinit kernel)) _ s
        (subst (λ x. Returns (λ _ _. ⊥) (on_object x (rtp_deinit kernel) s)) (sym e)
          (Returns-zoom (λ _ _. ⊥) (λ _ _. ⊥) (load o) store (rtp_deinit kernel) s
            (λ _ _ never. never) (rtp_deinit_lem (load o s) lacks)))
        (λ _ _ never. absurd never)

  close_log_lem :
      (l : Option Bytes) (s : Session K) → Returns (λ _ t. t.rtp ≡ s.rtp) (close_log kernel l s)
  unfolding close_log
  close_log_lem none s = tt
  close_log_lem (some text) s = refl

  api_deinit_lem :
      (s : Session K) (o : RtpObject)
      → s.rtp ≡ some o
      → LacksThread o
      → Returns (λ _ _. ⊥) (api_deinit kernel s)
  unfolding api_deinit
  api_deinit_lem s o e lacks =
      Returns-bind (λ _ t. t.rtp ≡ s.rtp) (λ _ _. ⊥) (close_log kernel s.log) ended closed
        (close_log_lem s.log closed)
        (λ _ t same.
          Returns-bind (λ _ _. ⊥) (λ _ _. ⊥) (end_rtp kernel s.rtp) (λ _. pure ret_sucess)
            (record t { rtsp_buffer = none })
            (subst (λ x. Returns (λ _ _. ⊥) (end_rtp kernel x (record t { rtsp_buffer = none })))
              (sym e) (end_rtp_lem o (record t { rtsp_buffer = none }) (same ∙ e) lacks))
            (λ _ _ never. never))
    where
      closed : Session K
      closed = record s { system = (kernel.close s.socket s.system).1 }

      ended : Unit {0} → M (Session K) ℤ
      ended _ = do
        modify (λ s. record s { rtsp_buffer = none })
        end_rtp kernel s.rtp
        pure ret_sucess

  -- When `api_init` fails on a session without an RTP client and leaves one, as after a failed SETUP or PLAY,
  -- one of the two threads that `api_deinit` joins has not been created, and `api_deinit` never returns.
  pub api_deinit-api_init :
      (raw : RawMemory) (buffer : Option Bytes) (url : Bytes) (s t : Session K) (o : RtpObject)
      → s.rtp ≡ none
      → api_init kernel raw buffer url s ≡ done ret_err t
      → t.rtp ≡ some o
      → (r : ℤ) (u : Session K) → LacksThread o × (api_deinit kernel t ≢ done r u)
  api_deinit-api_init raw buffer url s t o fresh failed left r u = (lacks, never)
    where
      lacks : LacksThread o
      lacks = api_init-Idle kernel raw buffer url s t fresh failed o left

      never : api_deinit kernel t ≢ done r u
      never = Returns-done (λ _ _. ⊥) (api_deinit kernel t) r u (api_deinit_lem t o left lacks)
