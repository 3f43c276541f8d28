-- ===== src/RtspClient/Api/Order.antt =====
-- `api_init` of my_rtsp_client/cRTSPClient.cpp: the requests that it sends, in order, and what it leaves when
-- it succeeds.
use canok_rtsp_client.Base.{
  ◌+◌, ◌≡◌, refl, sym, ap, ap₂, ◌∙◌, subst, inl, inr, if◌then◌else◌, Bool, true, false, Option,
  none, some, Bytes, [], arith,
}
use canok_rtsp_client.Base.Int.{ℤ}
use canok_rtsp_client.Base.Outcome.{done, ◌>>=◌, ◌>>◌, pure, modify}
use canok_rtsp_client.Base.Returns.{Returns, Returns-weaken, Returns-zoom, Returns-done}
use canok_rtsp_client.Macros.{ret_sucess, ret_err}
use canok_rtsp_client.Net.{Kernel}
use canok_rtsp_client.Net.Observed.{Quiet, Fixed, tcp_net_conncet_keeps}
use canok_rtsp_client.Protocol.{MediaSession, SetupInfo}
use canok_rtsp_client.RtpClient.Lifecycle.{RawMemory}
use canok_rtsp_client.RtspClient.{parse_rtsp_url}
use canok_rtsp_client.RtspClient.Address.{Stores, parse_rtsp_url-Stores}
use canok_rtsp_client.RtspClient.Session.{Session, on_server}
use canok_rtsp_client.RtspClient.Session.Same.{is_some}
use canok_rtsp_client.RtspClient.Requests.{
  is_sucess, request_options, request_describe_media, request_setup_video, request_play_stream,
}
use canok_rtsp_client.RtspClient.Requests.Steps.{
  request_describe-Progress, request_setup-Progress, request_play-Progress,
}
use canok_rtsp_client.RtspClient.Requests.Progress.{request_options-Progress}
use canok_rtsp_client.RtspClient.Requests.Good.{
  Good, Good-err, and_then-Good, Written, options_lines, describe_lines, setup_lines, play_lines,
}
use canok_rtsp_client.RtspClient.Api.{with_buffer, open_log, connect, run_session, api_init}
use canok_rtsp_client.RtspClient.Api.Stages.{
  Written-at, Stage, Stage-next, InPlay, Described, Prepared,
}

module _ {K V : Type 0} (kernel : Kernel K) (view : K → V) (sends : Bytes → V → V)
    (quiet : Quiet kernel view sends) (fixed : Fixed kernel view) where
  module _ (url : Bytes) (s : Session K) (opened : is_some s.log ≡ true) where
    optioned :
        (u : Session K)
        → Stage kernel view sends quiet fixed 0 url (view s.system) s u
        → Returns
            (Good (λ t.
              (text : Bytes) × Written s.send.send_len (options_lines url s.cseq) text
              × Stage kernel view sends quiet fixed 1 url (sends text (view s.system)) s t))
            (request_options kernel u)
    optioned u p =
        Returns-weaken _ _ (request_options kernel u)
          (λ r t (text, fits, q) good. (
            text,
            Written-at text p.room (ap₂ options_lines p.address (p.cseq ∙ omega arith)) fits,
            Stage-next kernel view sends quiet fixed 0 url (view s.system) text s u t p q,
          ))
          (request_options-Progress kernel view sends quiet u)

    described :
        (raw : RawMemory) (u : Session K)
        → ((text : Bytes) × Written s.send.send_len (options_lines url s.cseq) text
            × Stage kernel view sends quiet fixed 1 url (sends text (view s.system)) s u)
        → Returns
            (Good (Described kernel view sends quiet fixed url s))
            (request_describe_media kernel raw u)
    described raw u (o, o_is, p) =
        Returns-weaken _ _ (request_describe_media kernel raw u)
          (λ r t h good.
            let (text, fits, q, (x, e)) = h good in
            record {
              options_text = o;
              describe_text = text;
              object = x;
              options_is = o_is;
              describe_is = Written-at text p.room (ap₂ describe_lines p.address p.cseq) fits;
              stage =
                  Stage-next kernel view sends quiet fixed 1 url (sends o (view s.system)) text s u
                    t p q;
              rtp = e;
            })
          (request_describe-Progress kernel view sends quiet fixed raw u)

    prepared :
        (u : Session K)
        → Described kernel view sends quiet fixed url s u
        → Returns
            (Good (Prepared kernel view sends quiet fixed url s))
            (request_setup_video kernel u)
    prepared u p =
        Returns-weaken _ _ (request_setup_video kernel u)
          (λ r t h good.
            let (text, path, media, fits, q, same, kept) = h good in
            record {
              options_text = p.options_text;
              describe_text = p.describe_text;
              setup_text = text;
              path = path;
              object = p.object;
              options_is = p.options_is;
              describe_is = p.describe_is;
              setup_is =
                  Written-at text p.stage.room
                    (ap (λ n. setup_lines path n p.object.port) p.stage.cseq) fits;
              stage =
                  Stage-next kernel view sends quiet fixed 2 url
                    (sends p.describe_text (sends p.options_text (view s.system))) text s u t
                    p.stage q;
              rtp = same;
              video = ap (λ (m : MediaSession). m.control_path) kept ∙ media;
            })
          (request_setup-Progress kernel view sends quiet fixed u p.object p.rtp)

    played :
        (u : Session K)
        → Prepared kernel view sends quiet fixed url s u
        → Returns
            (Good (InPlay kernel view sends quiet fixed url s.send.send_len s.cseq (view s.system)))
            (request_play_stream kernel u)
    played u p =
        Returns-weaken _ _ (request_play_stream kernel u)
          (λ r t h good.
            let (text, fits, q, y) = h good in
            let end =
              Stage-next kernel view sends quiet fixed 3 url
                (sends p.setup_text (sends p.describe_text (sends p.options_text (view s.system))))
                text s u t p.stage q in
            record {
              options_text = p.options_text;
              describe_text = p.describe_text;
              setup_text = p.setup_text;
              play_text = text;
              path = p.path;
              object = y.object;
              sent = end.seen;
              options_is = p.options_is;
              describe_is = p.describe_is;
              setup_is =
                  Written-at p.setup_text refl (ap (setup_lines p.path (s.cseq + 2)) (sym y.port))
                    p.setup_is;
              play_is =
                  Written-at text p.stage.room
                    (ap₂ (λ a n. play_lines a n u.reply.setup.session_id) p.stage.address
                        p.stage.cseq
                      ∙ ap (λ (x : SetupInfo). play_lines url (s.cseq + 3) x.session_id)
                          (sym y.setup))
                    fits;
              video = ap (λ (m : MediaSession). m.control_path) y.media ∙ p.video;
              code = y.code;
              cseq = end.cseq;
              address = end.address;
              short = end.short;
              log_open = end.log ∙ opened;
              rtp = y.rtp;
              running = y.running;
            })
          (request_play-Progress kernel view sends quiet u p.object p.rtp)

    addressed :
        Returns
          (Good (Stage kernel view sends quiet fixed 0 url (view s.system) s))
          (on_server (parse_rtsp_url url) s)
    addressed =
        Returns-zoom _ (Stores url) (λ s. s.server) (λ v s. record s { server = v })
          (parse_rtsp_url url) s
          (λ r t stores good. elim stores [
            | inl bad ↦ absurd (good_err r bad good)
            | inr (same, size) ↦ record {
              address = same;
              short = size;
              cseq = omega arith;
              room = refl;
              log = refl;
              seen = refl;
            }
          ])
          (parse_rtsp_url-Stores url s.server)
      where
        good_err : (r : ℤ) → r ≡ ret_err → is_sucess r ≡ true → ⊥
        good_err r bad good =
            Good-err (λ (x : Session K). ⊥) s (subst (λ r. is_sucess r ≡ true) bad good)

    connected :
        (u : Session K)
        → Stage kernel view sends quiet fixed 0 url (view s.system) s u
        → Returns
            (Good (Stage kernel view sends quiet fixed 0 url (view s.system) s))
            (connect kernel u)
    unfolding connect
    connected u p good = record {
      address = p.address;
      short = p.short;
      cseq = p.cseq;
      room = p.room;
      log = p.log;
      seen =
          tcp_net_conncet_keeps kernel view fixed u.server.server_ip u.server.server_port u.system
          ∙ p.seen;
    }

    run_session-InPlay :
        (raw : RawMemory)
        → Returns
            (Good (InPlay kernel view sends quiet fixed url s.send.send_len s.cseq (view s.system)))
            (run_session kernel raw url s)
    unfolding run_session
    run_session-InPlay raw =
        and_then-Good (Stage kernel view sends quiet fixed 0 url (view s.system) s)
          (InPlay kernel view sends quiet fixed url s.send.send_len s.cseq (view s.system))
          (on_server (parse_rtsp_url url)) _ s addressed
          (λ u p.
            and_then-Good (Stage kernel view sends quiet fixed 0 url (view s.system) s)
              (InPlay kernel view sends quiet fixed url s.send.send_len s.cseq (view s.system))
              (connect kernel) _ u (connected u p)
              (λ u p.
                and_then-Good _
                  (InPlay kernel view sends quiet fixed url s.send.send_len s.cseq (view s.system))
                  (request_options kernel) _ u (optioned u p)
                  (λ u p.
                    and_then-Good (Described kernel view sends quiet fixed url s)
                      (InPlay kernel view sends quiet fixed url s.send.send_len s.cseq
                        (view s.system))
                      (request_describe_media kernel raw) _ u (described raw u p)
                      (λ u p.
                        and_then-Good (Prepared kernel view sends quiet fixed url s)
                          (InPlay kernel view sends quiet fixed url s.send.send_len s.cseq
                            (view s.system))
                          (request_setup_video kernel) (request_play_stream kernel) u (prepared u p)
                          played))))

  -- When `api_init` succeeds, just four requests have been sent, in this order: OPTIONS, DESCRIBE, SETUP
  -- and PLAY, numbered upwards from the object's m_cseq, each with its text where that fits into the
  -- buffer for requests; SETUP asks for the path that DESCRIBE's reply gave and names the RTP client's
  -- port, PLAY names the session that SETUP's reply gave. The last reply had the code 200, m_cseq is 4
  -- higher, the log is open, and both threads of the RTP client have been started and are to go on. `view`
  -- is any view of the system that every call but `send` keeps.
  pub api_init-order :
      (raw : RawMemory) (buffer : Option Bytes) (url : Bytes) (s t : Session K)
      → api_init kernel raw buffer url s ≡ done ret_sucess t
      → InPlay kernel view sends quiet fixed url s.send.send_len s.cseq (view s.system) t
  unfolding api_init open_log is_sucess
  api_init-order raw buffer url s t e =
      Returns-done (Good Target) (api_init kernel raw buffer url s) ret_sucess t (by_log s.log refl)
        e refl
    where
      Target : Session K → Type 0
      Target = InPlay kernel view sends quiet fixed url s.send.send_len s.cseq (view s.system)

      opens : Session K
      opens = record s { log = some []; system = (kernel.open_log s.system).1 }

      opened :
          (ok : Bool)
          → Returns (Good Target) (
              (if ok
                  then (modify (λ s. record s { rtsp_buffer = with_buffer buffer s.rtsp_buffer })
                      >> run_session kernel raw url)
                  else pure ret_err)
                (record s {
                  log = if ok then some [] else none;
                  system = (kernel.open_log s.system).1;
                }))
      opened false = Good-err Target _
      opened true =
          subst
            (λ v.
              Returns (Good (InPlay kernel view sends quiet fixed url s.send.send_len s.cseq v)) (
                run_session kernel raw url
                  (record opens { rtsp_buffer = with_buffer buffer s.rtsp_buffer })))
            (quiet.log_keeps s.system)
            (run_session-InPlay url
              (record opens { rtsp_buffer = with_buffer buffer s.rtsp_buffer }) refl raw)

      by_log :
          (o : Option Bytes)
          → s.log ≡ o
          → Returns (Good Target) (
              (open_log kernel o >>= λ opened.
              if opened
              then (modify (λ s. record s { rtsp_buffer = with_buffer buffer s.rtsp_buffer })
                  >> run_session kernel raw url)
              else pure ret_err)
                s)
      by_log none e = opened (kernel.open_log s.system).0
      by_log (some text) e =
          run_session-InPlay url (record s { rtsp_buffer = with_buffer buffer s.rtsp_buffer })
            (ap is_some e) raw
