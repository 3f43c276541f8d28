-- ===== src/RtspClient/Requests/Progress.antt =====
-- What a request of my_rtsp_client/cRTSPClient.cpp changes of the session, and what a method of the RTP client
-- beside it does.
use canok_rtsp_client.Base.{◌+◌, ◌≡◌, refl, sym, ap, ◌∙◌, subst, some, Bytes}
use canok_rtsp_client.Base.Int.{ℤ}
use canok_rtsp_client.Base.Outcome.{M, ◌>>=◌, pure}
use canok_rtsp_client.Base.Returns.{Returns, Returns-bind, Returns-zoom}
use canok_rtsp_client.Macros.{ret_sucess}
use canok_rtsp_client.Net.{Kernel}
use canok_rtsp_client.Net.Observed.{Quiet}
use canok_rtsp_client.Protocol.{RequestType, request_option}
use canok_rtsp_client.RtpClient.Lifecycle.{RtpObject, Device}
use canok_rtsp_client.RtspClient.Session.{Session, on_rtp, on_object, send_lines}
use canok_rtsp_client.RtspClient.Session.Exchange.{Requested, send_lines-Requested}
use canok_rtsp_client.RtspClient.Session.Same.{is_some}
use canok_rtsp_client.RtspClient.Requests.{after_options, request_options}
use canok_rtsp_client.RtspClient.Requests.Good.{Written, options_lines}

module _ {K V : Type 0} (kernel : Kernel K) (view : K → V) (sends : Bytes → V → V)
    (quiet : Quiet kernel view sends) where
  -- One request has been sent, with the text `text`, and the session's other parts are as before.
  pub record Progress (text : Bytes) (s t : Session K) : Type 0 where
    pub server : t.server ≡ s.server
    pub cseq : t.cseq ≡ s.cseq + 1
    pub room : t.send.send_len ≡ s.send.send_len
    pub log : is_some t.log ≡ is_some s.log
    pub seen : view t.system ≡ sends text (view s.system)

  pub Requested-Progress :
      {text : Bytes} {request : RequestType} {s : Session K} {r : ℤ} {t : Session K}
      → Requested kernel view sends quiet text request s r t
      → Progress text s t
  Requested-Progress q = record {
    server = q.server;
    cseq = q.cseq;
    room = q.room;
    log = q.log;
    seen = q.seen;
  }

  pub request_options-Progress :
      (s : Session K)
      → Returns
          (λ r t.
            (text : Bytes) × Written s.send.send_len (options_lines s.server.url s.cseq) text
            × Progress text s t)
          (request_options kernel s)
  unfolding request_options after_options
  request_options-Progress s =
      Returns-bind _ _ (send_lines kernel (options_lines s.server.url s.cseq) request_option)
        (λ _. after_options >>= λ _. pure ret_sucess) s
        (send_lines-Requested kernel view sends quiet (options_lines s.server.url s.cseq)
          request_option s)
        (λ r t (text, fits, q). (text, fits, Requested-Progress q))

  -- A step that touches the RTP client and the system only.
  abbrev pub Beside : Session K → Session K → Type 0
  Beside u v = (v ≡ record u { rtp = v.rtp; system = v.system }) × (view v.system ≡ view u.system)

  pub Progress-Beside :
      (text : Bytes) (s u v : Session K) → Progress text s u → Beside u v → Progress text s v
  Progress-Beside text s u v p (e, seen) = record {
    server = ap (λ (x : Session K). x.server) e ∙ p.server;
    cseq = ap (λ (x : Session K). x.cseq) e ∙ p.cseq;
    room = ap (λ (x : Session K). x.send.send_len) e ∙ p.room;
    log = ap (λ (x : Session K). is_some x.log) e ∙ p.log;
    seen = seen ∙ p.seen;
  }

  -- A method of `pRTP` that keeps the view.
  pub on_rtp-Beside :
      {A : Type 0} (Q : A → RtpObject → Type 0) (m : M (Device K) A) (u : Session K) (x : RtpObject)
      → u.rtp ≡ some x
      → Returns
          (λ a e. (view e.system ≡ view u.system) × Q a e.object)
          (m (record { object = x; system = u.system }))
      → Returns (λ a v. (y : RtpObject) × Beside u v × (v.rtp ≡ some y) × Q a y) (on_rtp m u)
  on_rtp-Beside Q m u x e h =
      subst
        (λ o.
          Returns (λ a v. (y : RtpObject) × Beside u v × (v.rtp ≡ some y) × Q a y)
            (on_object o m u))
        (sym e)
        (Returns-zoom _ (λ a d. (view d.system ≡ view u.system) × Q a d.object)
          (λ s. record { object = x; system = s.system })
          (λ d s. record s { rtp = some d.object; system = d.system }) m u
          (λ a d q. (d.object, (refl, q.0), refl, q.1)) h)
