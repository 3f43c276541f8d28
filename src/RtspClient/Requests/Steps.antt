-- ===== src/RtspClient/Requests/Steps.antt =====
-- What each request of my_rtsp_client/cRTSPClient.cpp, with the method called after it, sends and changes
-- when it succeeds.
use canok_rtsp_client.Base.{
  ◌==◌, ◌≡◌, refl, sym, ap, ◌∙◌, subst, inl, inr, if◌then◌else◌, Bool, true, false, Option, none,
  some, Bytes, List,
}
use canok_rtsp_client.Base.Int.{ℤ, pos, negsuc}
use canok_rtsp_client.Base.Outcome.{M, ◌>>=◌, ◌>>◌, pure, modify, or_fault}
use canok_rtsp_client.Base.Returns.{Returns, Returns-weaken, Returns-bind, Returns-zoom}
use canok_rtsp_client.Macros.{ret_err}
use canok_rtsp_client.Net.{Kernel}
use canok_rtsp_client.Net.Observed.{Quiet, Fixed}
use canok_rtsp_client.Protocol.{request_describe, request_setup, request_play}
use canok_rtsp_client.Protocol.Reply.Verdict.{parse-verdict}
use canok_rtsp_client.Protocol.Reply.Kept.{parse_setup_keeps_media, parse_play_keeps}
use canok_rtsp_client.RtpClient.Lifecycle.{
  RtpObject, RawMemory, rtp_init, rtp_start, rtp_get_udp_port, rtp_udp_connect,
}
use canok_rtsp_client.RtpClient.Lifecycle.View.{
  IsRunning, rtp_start-IsRunning, rtp_init_keeps, rtp_udp_connect_keeps,
}
use canok_rtsp_client.RtspClient.Session.{Session, on_system, on_rtp, on_object, send_lines}
use canok_rtsp_client.RtspClient.Session.Exchange.{Requested, send_lines-Requested}
use canok_rtsp_client.RtspClient.Requests.{
  is_sucess, and_then, new_rtp, after_describe, after_setup, after_play, request_describe_media,
  request_setup_video, request_play_stream,
}
use canok_rtsp_client.RtspClient.Requests.Good.{
  Good, and_then-Good, Good-err, is_sucess-eq, Written, describe_lines, setup_lines, play_lines,
}
use canok_rtsp_client.RtspClient.Requests.Progress.{
  Progress, Requested-Progress, Beside, Progress-Beside, on_rtp-Beside,
}

module _ {K V : Type 0} (kernel : Kernel K) (view : K → V) (sends : Bytes → V → V)
    (quiet : Quiet kernel view sends) where
  module _ (fixed : Fixed kernel view) where
    new_rtp-Beside :
        (raw : RawMemory) (ip : Bytes) (u : Session K)
        → Returns
            (λ r v.
              (x : RtpObject) × Beside kernel view sends quiet u v
              × (v.rtp ≡ some x)
              × (v.reply ≡ u.reply))
            (new_rtp kernel raw ip u)
    unfolding new_rtp
    new_rtp-Beside raw ip u =
        Returns-bind (λ r v. (v ≡ record u { system = v.system }) × (view v.system ≡ view u.system))
          _ (on_system (rtp_init kernel raw ip))
          (λ r. modify (λ s. record s { rtp = some r.1 }) >> pure r.0) u
          (Returns-zoom _ (λ r k. view k ≡ view u.system) (λ s. s.system)
            (λ k s. record s { system = k }) (rtp_init kernel raw ip) u (λ a t e. (refl, e))
            (rtp_init_keeps kernel view sends quiet fixed raw ip u.system))
          (λ r v (e, seen). (
            r.1,
            (ap (λ (x : Session K). record x { rtp = some r.1 }) e, seen),
            refl,
            ap (λ (x : Session K). x.reply) e,
          ))

    pub request_describe-Progress :
        (raw : RawMemory) (s : Session K)
        → Returns
            (Good (λ t.
              (text : Bytes) × Written s.send.send_len (describe_lines s.server.url s.cseq) text
              × Progress kernel view sends quiet text s t
              × ((x : RtpObject) × (t.rtp ≡ some x))))
            (request_describe_media kernel raw s)
    unfolding request_describe_media after_describe
    request_describe-Progress raw s =
        and_then-Good
          (λ u.
            (text : Bytes) × Written s.send.send_len (describe_lines s.server.url s.cseq) text
            × Progress kernel view sends quiet text s u)
          _ (send_lines kernel (describe_lines s.server.url s.cseq) request_describe)
          (after_describe kernel raw) s
          (Returns-weaken _ _
            (send_lines kernel (describe_lines s.server.url s.cseq) request_describe s)
            (λ r t (text, fits, q) good. (text, fits, Requested-Progress kernel view sends quiet q))
            (send_lines-Requested kernel view sends quiet (describe_lines s.server.url s.cseq)
              request_describe s))
          (λ u (text, fits, p). by_code u text fits p (u.reply.respond_code == 200))
      where
        Target : Session K → Type 0
        Target t =
            (text : Bytes) × Written s.send.send_len (describe_lines s.server.url s.cseq) text
            × Progress kernel view sends quiet text s t
            × ((x : RtpObject) × (t.rtp ≡ some x))

        by_code :
            (u : Session K) (text : Bytes)
            → Written s.send.send_len (describe_lines s.server.url s.cseq) text
            → Progress kernel view sends quiet text s u
            → (ok : Bool)
            → Returns
                (Good Target)
                ((if ok then new_rtp kernel raw u.server.server_ip else pure ret_err) u)
        by_code u text fits p true =
            Returns-weaken _ _ (new_rtp kernel raw u.server.server_ip u)
              (λ r t (x, b, e, kept) good.
                (text, fits, Progress-Beside kernel view sends quiet text s u t p b, (x, e)))
              (new_rtp-Beside raw u.server.server_ip u)
        by_code u text fits p false = Good-err Target u

    pub request_setup-Progress :
        (s : Session K) (x : RtpObject)
        → s.rtp ≡ some x
        → Returns
            (Good (λ t.
              (text : Bytes) × (path : Bytes) × (s.reply.media.control_path ≡ some path)
              × Written s.send.send_len (setup_lines path s.cseq x.port) text
              × Progress kernel view sends quiet text s t
              × (t.rtp ≡ some x)
              × (t.reply.media ≡ s.reply.media)))
            (request_setup_video kernel s)
    unfolding request_setup_video after_setup rtp_get_udp_port
    request_setup-Progress s x e = by_path s.reply.media.control_path refl
      where
        Sent : Bytes → Session K → Type 0
        Sent path u =
            (text : Bytes) × Written s.send.send_len (setup_lines path s.cseq x.port) text
            × Progress kernel view sends quiet text s u
            × (u.rtp ≡ some x)
            × (u.reply.media ≡ s.reply.media)

        connected :
            (path : Bytes) (u : Session K)
            → Sent path u
            → (ok : Bool)
            → Returns (Good (Sent path)) (
                (if ok
                    then on_rtp (rtp_udp_connect kernel u.reply.setup.server_port_num)
                    else pure ret_err)
                  u)
        connected path u p false = Good-err (Sent path) u
        connected path u (text, fits, p, same, media) true =
            Returns-weaken _ _ (on_rtp (rtp_udp_connect kernel u.reply.setup.server_port_num) u)
              (λ r t (y, b, now, kept) good. (
                text,
                fits,
                Progress-Beside kernel view sends quiet text s u t p b,
                now ∙ ap some kept,
                ap (λ (x : Session K). x.reply.media) b.0 ∙ media,
              ))
              (on_rtp-Beside kernel view sends quiet (λ r y. y ≡ x)
                (rtp_udp_connect kernel u.reply.setup.server_port_num) u x same
                (rtp_udp_connect_keeps kernel view sends quiet fixed u.reply.setup.server_port_num
                  (record { object = x; system = u.system })))

        sent :
            (path : Bytes)
            → Returns (Good (Sent path)) (
                and_then
                  (send_lines kernel (setup_lines path s.cseq x.port) request_setup)
                  (after_setup kernel)
                  s)
        sent path =
            and_then-Good (Sent path) (Sent path)
              (send_lines kernel (setup_lines path s.cseq x.port) request_setup)
              (after_setup kernel) s
              (Returns-weaken _ _
                (send_lines kernel (setup_lines path s.cseq x.port) request_setup s)
                (λ r t (text, fits, q) good. (
                  text,
                  fits,
                  Requested-Progress kernel view sends quiet q,
                  q.rtp ∙ e,
                  (let (buf, n, run) = q.parsed in
                      parse_setup_keeps_media buf n s.cseq s.reply t.reply r run),
                ))
                (send_lines-Requested kernel view sends quiet (setup_lines path s.cseq x.port)
                  request_setup s))
              (λ u p. connected path u p (u.reply.respond_code == 200))

        Target : Session K → Type 0
        Target t =
            (text : Bytes) × (path : Bytes) × (s.reply.media.control_path ≡ some path)
            × Written s.send.send_len (setup_lines path s.cseq x.port) text
            × Progress kernel view sends quiet text s t
            × (t.rtp ≡ some x)
            × (t.reply.media ≡ s.reply.media)

        next : Bytes → ℤ → M (Session K) ℤ
        next path port =
            and_then (send_lines kernel (setup_lines path s.cseq port) request_setup)
              (after_setup kernel)

        by_path :
            (o : Option Bytes)
            → s.reply.media.control_path ≡ o
            → Returns
                (Good Target)
                ((or_fault o >>= λ path. on_rtp (rtp_get_udp_port kernel) >>= next path) s)
        by_path none is = tt
        by_path (some path) is =
            subst
              (λ o.
                Returns (Good Target)
                  (((λ s. on_object o (rtp_get_udp_port kernel) s) >>= next path) s))
              (sym e)
              (subst (λ u. Returns (Good Target) (next path x.port u))
                (ap (λ o. record s { rtp = o }) e)
                (Returns-weaken _ _ (next path x.port s)
                  (λ r t sent good.
                    (let (text, fits, p, same, media) = sent good in
                      (text, path, is, fits, p, same, media)))
                  (sent path)))

  -- What PLAY leaves: the earlier replies, the code 200, and both threads at work.
  pub record Playing (x : RtpObject) (s t : Session K) : Type 0 where
    pub object : RtpObject
    pub rtp : t.rtp ≡ some object
    pub port : object.port ≡ x.port
    pub running : IsRunning object
    pub code : t.reply.respond_code ≡ 200
    pub media : t.reply.media ≡ s.reply.media
    pub setup : t.reply.setup ≡ s.reply.setup

  good_code :
      (text : Bytes) (s : Session K) (r : ℤ) (t : Session K)
      → Requested kernel view sends quiet text request_play s r t
      → is_sucess r ≡ true
      → t.reply.respond_code ≡ 200
  good_code text s r t q good =
      let (buf, n, run) = q.parsed in
      elim (parse-verdict buf n request_play s.cseq s.reply t.reply r run) [
        | inl bad ↦ absurd (pos-ne-negsuc (sym (is_sucess-eq r good) ∙ bad))
        | inr ok ↦ ok.1
      ]
    where
      pos-ne-negsuc : pos 0 ≡ negsuc 0 → ⊥
      pos-ne-negsuc e = cc e

  pub request_play-Progress :
      (s : Session K) (x : RtpObject)
      → s.rtp ≡ some x
      → Returns
          (Good (λ t.
            (text : Bytes) × Written s.send.send_len
              (play_lines s.server.url s.cseq s.reply.setup.session_id)
              text
            × Progress kernel view sends quiet text s t
            × Playing x s t))
          (request_play_stream kernel s)
  unfolding request_play_stream after_play
  request_play-Progress s x e =
      and_then-Good
        (λ u.
          (text : Bytes) × Written s.send.send_len lines text
          × Progress kernel view sends quiet text s u
          × (u.rtp ≡ some x)
          × (u.reply.respond_code ≡ 200)
          × (u.reply.media ≡ s.reply.media)
          × (u.reply.setup ≡ s.reply.setup))
        _ (send_lines kernel lines request_play) (after_play kernel) s
        (Returns-weaken _ _ (send_lines kernel lines request_play s)
          (λ r t (text, fits, q) good.
            let (buf, n, run) = q.parsed in
            let kept = parse_play_keeps buf n s.cseq s.reply t.reply r run in
            (
              text,
              fits,
              Requested-Progress kernel view sends quiet q,
              q.rtp ∙ e,
              good_code text s r t q good,
              kept.0,
              kept.1,
            ))
          (send_lines-Requested kernel view sends quiet lines request_play s))
        (λ u (text, fits, p, same, code, media, setup).
          Returns-weaken _ _ (on_rtp (rtp_start kernel) u)
            (λ r t (y, b, now, (port, running)) good. (
              text,
              fits,
              Progress-Beside kernel view sends quiet text s u t p b,
              record {
                object = y;
                rtp = now;
                port = port;
                running = running (is_sucess-eq r good);
                code = ap (λ (x : Session K). x.reply.respond_code) b.0 ∙ code;
                media = ap (λ (x : Session K). x.reply.media) b.0 ∙ media;
                setup = ap (λ (x : Session K). x.reply.setup) b.0 ∙ setup;
              },
            ))
            (on_rtp-Beside kernel view sends quiet
              (λ r y. (y.port ≡ x.port) × (r ≡ pos 0 → IsRunning y)) (rtp_start kernel) u x same
              (rtp_start-IsRunning kernel view sends quiet
                (record { object = x; system = u.system }))))
    where
      lines : List Bytes
      lines = play_lines s.server.url s.cseq s.reply.setup.session_id
