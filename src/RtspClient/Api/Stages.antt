-- ===== src/RtspClient/Api/Stages.antt =====
-- What `api_init` of my_rtsp_client/cRTSPClient.cpp has sent and stored after each of its requests.
use canok_rtsp_client.Base.{
  ℕ, suc, ◌+◌, ◌≤◌, ◌≡◌, ap, ◌∙◌, subst, true, some, Bytes, List, length, arith,
}
use canok_rtsp_client.Net.{Kernel}
use canok_rtsp_client.Net.Observed.{Quiet, Fixed}
use canok_rtsp_client.RtpClient.Lifecycle.{RtpObject}
use canok_rtsp_client.RtpClient.Lifecycle.View.{IsRunning}
use canok_rtsp_client.RtspClient.{Server}
use canok_rtsp_client.RtspClient.Session.{Session}
use canok_rtsp_client.RtspClient.Session.Same.{is_some}
use canok_rtsp_client.RtspClient.Requests.Progress.{Progress}
use canok_rtsp_client.RtspClient.Requests.Good.{
  Written, options_lines, describe_lines, setup_lines, play_lines,
}

-- The lines of a later stage, in terms of the start.
pub Written-at :
    {room room' : ℕ} {lines lines' : List Bytes} (text : Bytes)
    → room ≡ room'
    → lines ≡ lines'
    → Written room lines text
    → Written room' lines' text
Written-at {room} {room'} {lines} {lines'} text e l w =
    subst (λ r. Written r lines' text) e (subst (λ l. Written room l text) l w)

module _ {K V : Type 0} (kernel : Kernel K) (view : K → V) (sends : Bytes → V → V)
    (quiet : Quiet kernel view sends) (fixed : Fixed kernel view) where
  -- After the requests `texts`, the latest first, on the session with the URL.
  pub record Stage (n : ℕ) (url : Bytes) (v : V) (s t : Session K) : Type 0 where
    pub address : t.server.url ≡ url
    pub short : length url ≤ 127
    pub cseq : t.cseq ≡ s.cseq + n
    pub room : t.send.send_len ≡ s.send.send_len
    pub log : is_some t.log ≡ is_some s.log
    pub seen : view t.system ≡ v

  pub Stage-next :
      (n : ℕ) (url : Bytes) (v : V) (text : Bytes) (s t u : Session K)
      → Stage n url v s t
      → Progress kernel view sends quiet text t u
      → Stage (suc n) url (sends text v) s u
  Stage-next n url v text s t u p q = record {
    address = ap (λ (x : Server). x.url) q.server ∙ p.address;
    short = p.short;
    cseq = omega (arith, p.cseq, q.cseq);
    room = q.room ∙ p.room;
    log = q.log ∙ p.log;
    seen = q.seen ∙ ap (sends text) p.seen;
  }

  -- A session that plays: the texts of its four requests, which fit into `room` bytes or not, the first
  -- with the number `n`; the path of its video; and what is left in the object.
  pub record InPlay (url : Bytes) (room n : ℕ) (before : V) (t : Session K) : Type 0 where
    pub options_text : Bytes
    pub describe_text : Bytes
    pub setup_text : Bytes
    pub play_text : Bytes
    pub path : Bytes
    pub object : RtpObject
    pub sent :
        view t.system
        ≡ sends play_text (sends setup_text (sends describe_text (sends options_text before)))
    pub options_is : Written room (options_lines url n) options_text
    pub describe_is : Written room (describe_lines url (n + 1)) describe_text
    pub setup_is : Written room (setup_lines path (n + 2) object.port) setup_text
    pub play_is : Written room (play_lines url (n + 3) t.reply.setup.session_id) play_text
    pub video : t.reply.media.control_path ≡ some path
    pub code : t.reply.respond_code ≡ 200
    pub cseq : t.cseq ≡ n + 4
    pub address : t.server.url ≡ url
    pub short : length url ≤ 127
    pub log_open : is_some t.log ≡ true
    pub rtp : t.rtp ≡ some object
    pub running : IsRunning object

  pub record Described (url : Bytes) (s t : Session K) : Type 0 where
    pub options_text : Bytes
    pub describe_text : Bytes
    pub object : RtpObject
    pub options_is : Written s.send.send_len (options_lines url s.cseq) options_text
    pub describe_is : Written s.send.send_len (describe_lines url (s.cseq + 1)) describe_text
    pub stage : Stage 2 url (sends describe_text (sends options_text (view s.system))) s t
    pub rtp : t.rtp ≡ some object

  pub record Prepared (url : Bytes) (s t : Session K) : Type 0 where
    pub options_text : Bytes
    pub describe_text : Bytes
    pub setup_text : Bytes
    pub path : Bytes
    pub object : RtpObject
    pub options_is : Written s.send.send_len (options_lines url s.cseq) options_text
    pub describe_is : Written s.send.send_len (describe_lines url (s.cseq + 1)) describe_text
    pub setup_is : Written s.send.send_len (setup_lines path (s.cseq + 2) object.port) setup_text
    pub stage :
        Stage 3 url
          (sends setup_text (sends describe_text (sends options_text (view s.system))))
          s
          t
    pub rtp : t.rtp ≡ some object
    pub video : t.reply.media.control_path ≡ some path
