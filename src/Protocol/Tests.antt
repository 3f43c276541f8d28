-- ===== src/Protocol/Tests.antt =====
-- cRTSPprotocol on small texts: its theorems at concrete inputs, and runs.
use canok_rtsp_client.Base.{
  suc, ◌≡◌, ◌⊎◌, refl, true, false, not, ◌==◌, Bytes, List, [], ◌∷◌, ◌++◌, arith, length, take,
  some, none, replicate,
}
use canok_rtsp_client.Base.Outcome.{done, fault}
use canok_rtsp_client.Macros.{ret_sucess, ret_err}
use canok_rtsp_client.Text.{codes, scan_unsigned}
use canok_rtsp_client.Text.Laws.{All, every, every-All}
use canok_rtsp_client.Protocol.{
  SendBuffer, ReplyInfo, MediaSession, end_cmd, request_describe, request_setup, request_play,
}
use canok_rtsp_client.Protocol.Buffer.{message}
use canok_rtsp_client.Protocol.Build.{build, build-message, end_cmd_overflow}
use canok_rtsp_client.Protocol.Lines.{parse_response_code, is_blank}
use canok_rtsp_client.Protocol.Sdp.{parse_sdp}
use canok_rtsp_client.Protocol.Sdp.Enough.{short_lines, short_lines-ShortLines, parse_sdp-returns}
use canok_rtsp_client.Protocol.Transport.{
  TransportParams, parse_transport_params, conclude, no_fields,
}
use canok_rtsp_client.Protocol.Transport.Fields.{
  join, take_each, AreFields, parse_transport_params-join,
}
use canok_rtsp_client.Protocol.Reply.{parse, no_media, no_setup}
use canok_rtsp_client.Protocol.Reply.Verdict.{parse-verdict}
use canok_rtsp_client.Protocol.Reply.Setup.{parse-setup}
use canok_rtsp_client.Protocol.Reply.SetupText.{is_text, setup_text, IsSetup}

abbrev buffer : SendBuffer
buffer = record { send_buf = replicate 32 7; send_len = 32; send_offset = 9 }

build-message_example :
    (t : SendBuffer) × (build (codes "PLAY x" ∷ codes "CSeq:4" ∷ []) buffer ≡ done ret_sucess t)
    × (t.send_offset ≡ length (message (codes "PLAY x" ∷ codes "CSeq:4" ∷ [])))
    × (take t.send_offset t.send_buf ≡ message (codes "PLAY x" ∷ codes "CSeq:4" ∷ []))
build-message_example = build-message (codes "PLAY x" ∷ codes "CSeq:4" ∷ []) buffer (omega arith)

abbrev nearly_full : SendBuffer
nearly_full = record { send_buf = 1 ∷ 2 ∷ 3 ∷ []; send_len = 3; send_offset = 2 }

end_cmd_overflow_example : end_cmd nearly_full ≡ fault
end_cmd_overflow_example =
    end_cmd_overflow (1 ∷ 2 ∷ []) (3 ∷ []) nearly_full
      (record { bytes = refl; offset = refl; size = refl }) (omega arith)

abbrev sdp : Bytes
sdp =
    codes "v=0"
    ++ (10 ∷ (codes "m=video 0 RTP/AVP 96" ++ (10 ∷ (codes "a=control:trackID=0" ++ (10 ∷ [])))))

sdp_short : short_lines true sdp ≡ true
unfolding short_lines
sdp_short = refl

parse_sdp-returns_example : (m' : MediaSession) × (parse_sdp sdp no_media ≡ some (ret_sucess, m'))
parse_sdp-returns_example =
    parse_sdp-returns sdp no_media (short_lines-ShortLines true sdp sdp_short)

parse_sdp_control :
    parse_sdp sdp no_media
    ≡ some (
      ret_sucess,
      record { control_path = some (codes "trackID=0"); multiplex_rtcp_with_rtp = false },
    )
unfolding parse_sdp
parse_sdp_control = refl

-- A line that is none of a session description ends the parse, with the result for success.
parse_sdp_bad_line : parse_sdp (codes "nonsense") no_media ≡ some (ret_sucess, no_media)
unfolding parse_sdp
parse_sdp_bad_line = refl

abbrev fields : List Bytes
fields = codes "unicast" ∷ codes "client_port=50-51" ∷ codes "server_port=60-61" ∷ []

no_semicolon : (f : Bytes) → every (λ c. not (c == b';')) f ≡ true → All (λ c. not (c == b';')) f
no_semicolon f h = every-All (λ c. not (c == b';')) f h

fields-AreFields : AreFields fields
unfolding every
fields-AreFields = (
  (omega arith, no_semicolon (codes "unicast") refl),
  (
    (omega arith, no_semicolon (codes "client_port=50-51") refl),
    ((omega arith, no_semicolon (codes "server_port=60-61") refl), tt),
  ),
)

parse_transport_params-join_example :
    parse_transport_params (some (join fields)) ≡ some (conclude (take_each fields no_fields))
parse_transport_params-join_example = parse_transport_params-join fields fields-AreFields

parse_transport_params_ports :
    parse_transport_params (some (join fields))
    ≡ some (record { ok = true; address = none; port = 60; rtp_channel = 255; rtcp_channel = 255 })
unfolding parse_transport_params
parse_transport_params_ports = refl

abbrev no_reply : ReplyInfo
no_reply = record { respond_code = 0; media = no_media; setup = no_setup }

-- A reply to DESCRIBE with a code of success and a body that is no session description.
abbrev bad_body : Bytes
bad_body = message (codes "RTSP/1.0 200 OK" ∷ codes "CSeq: 2" ∷ []) ++ codes "nonsense."

parse-bad_body :
    parse bad_body (length bad_body) request_describe 2 no_reply
    ≡ done ret_sucess (record no_reply { respond_code = 200 })
unfolding parse
parse-bad_body = refl

parse-verdict_example :
    (ret_sucess ≡ ret_err)
    ⊎ ((ret_sucess ≡ ret_sucess) × ((record no_reply { respond_code = 200 }).respond_code ≡ 200))
parse-verdict_example =
    parse-verdict bad_body (length bad_body) request_describe 2 no_reply
      (record no_reply { respond_code = 200 }) ret_sucess parse-bad_body

-- A reply whose CSeq header has no value.
parse_no_cseq :
    parse (message (codes "RTSP/1.0 200 OK" ∷ codes "CSeq:" ∷ [])) 25 request_play 2 no_reply
    ≡ fault
unfolding parse
parse_no_cseq = refl

abbrev pub port_found : TransportParams
port_found = record { ok = true; address = none; port = 60; rtp_channel = 255; rtcp_channel = 255 }

pub good_reply :
    IsSetup 3
      (codes "RTSP/1.0 200 OK")
      (codes "3")
      (codes "12345")
      (codes "server_port=60")
      port_found
unfolding every parse_response_code scan_unsigned parse_transport_params
good_reply = record {
  status_text = every-All is_text (codes "RTSP/1.0 200 OK") refl;
  status_code = refl;
  number_text = every-All is_text (codes "3") refl;
  number_read = refl;
  session_text = every-All is_text (codes "12345") refl;
  session_whole = every-All (λ c. not (c == b';')) (codes "12345") refl;
  session_short = omega arith;
  transport_text = every-All is_text (codes "server_port=60") refl;
  transport_read = refl;
  transport_ok = refl;
  positive = λ e. omega arith;
}

parse-setup_example :
    parse
      (setup_text (codes "RTSP/1.0 200 OK") (codes "3") (codes "12345") (codes "server_port=60")
        ++ (b'\n' ∷ []))
      (suc (
        length (
          setup_text
            (codes "RTSP/1.0 200 OK")
            (codes "3")
            (codes "12345")
            (codes "server_port=60"))))
      request_setup
      3
      no_reply
    ≡ done ret_sucess (record no_reply {
      respond_code = 200;
      setup = record { server_port_num = 60; session_id = codes "12345" };
    })
unfolding is_blank
parse-setup_example =
    parse-setup 3 (codes "RTSP/1.0 200 OK") (codes "3") (codes "12345") (codes "server_port=60") []
      port_found no_reply good_reply refl refl refl refl
