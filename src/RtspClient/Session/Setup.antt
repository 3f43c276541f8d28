-- ===== src/RtspClient/Session/Setup.antt =====
-- `rtsp_request` of my_rtsp_client/cRTSPClient.cpp on a good reply to SETUP.
use canok_rtsp_client.Base.{
  ℕ, ◌-◌, ◌≡◌, ap₂, ◌∙◌, some, Bytes, [], ◌∷◌, ◌++◌, append_assoc, arith, length, take, replicate,
  length-append,
}
use canok_rtsp_client.Base.Outcome.{done}
use canok_rtsp_client.Macros.{ret_sucess}
use canok_rtsp_client.Net.{Kernel}
use canok_rtsp_client.Protocol.{request_setup}
use canok_rtsp_client.Protocol.Reply.{parse}
use canok_rtsp_client.Protocol.Reply.Setup.{parse-setup}
use canok_rtsp_client.Protocol.Reply.SetupText.{setup_text, IsSetup, StartsSolid}
use canok_rtsp_client.Protocol.Transport.{TransportParams}
use canok_rtsp_client.RtspClient.Session.{Session, rtsp_request}
use canok_rtsp_client.RtspClient.Session.Pieces.{
  Receives, answered, system_before, rtsp_request-pieces,
}

-- `rtsp_request` for SETUP, when the five reads together receive a good reply, in whatever pieces and with
-- reads that time out in between: it returns RET_SUCESS, with the code 200, the server's port and the
-- session's name stored, the request and the reply in the log, and m_cseq one up.
pub rtsp_request-setup :
    {K : Type 0} (kernel : Kernel K) (s : Session K) (buffer : Bytes) (size : ℕ) (k : K)
    (status number session transport : Bytes) (p : TransportParams) {b : Bytes}
    → s.rtsp_buffer ≡ some b
    → Receives kernel s.socket 5 0
        (system_before kernel (take size buffer) s)
        (setup_text status number session transport ++ (b'\n' ∷ []))
        k
    → IsSetup s.cseq status number session transport p
    → StartsSolid status
    → StartsSolid number
    → StartsSolid session
    → StartsSolid transport
    → rtsp_request kernel buffer size request_setup s
      ≡ done ret_sucess (
          answered kernel
            (take size buffer)
            s
            (setup_text status number session transport ++ (b'\n' ∷ []))
            k
            (record (s.reply) {
              respond_code = 200;
              setup = record { server_port_num = p.port; session_id = session };
            }))
rtsp_request-setup {K} kernel s buffer size k status number session transport p ready got good a b c
      d =
    rtsp_request-pieces kernel request_setup s buffer size ready got (
      ap₂ (λ m n. parse m n request_setup s.cseq s.reply) (append_assoc text (b'\n' ∷ []) zeros)
        (omega (arith, length-append text (b'\n' ∷ [])))
      ∙ parse-setup s.cseq status number session transport zeros p s.reply good a b c d)
  where
    text : Bytes
    text = setup_text status number session transport

    zeros : Bytes
    zeros = replicate (2048 - length (text ++ (b'\n' ∷ []))) 0
