-- ===== src/Protocol/Reply/Setup.antt =====
-- The reply to SETUP: what a well-formed one leaves.
use canok_rtsp_client.Base.{
  ℕ, suc, ◌<◌, ◌==◌, ◌≡◌, ◌≢◌, refl, sym, ap, ◌∙◌, not, le→ltb, if◌then◌else◌, true, false, Option,
  none, some, Bytes, [], ◌∷◌, ◌++◌, arith, length, drop, take-append, append-nil,
}
use canok_rtsp_client.Base.Int.{ℤ}
use canok_rtsp_client.Base.Outcome.{Outcome, done, bind_done, pure, ◌>>=◌, or_fault}
use canok_rtsp_client.Macros.{ret_sucess, ret_err}
use canok_rtsp_client.Text.{c_string, scan_unsigned, scan_until}
use canok_rtsp_client.Text.Laws.{All}
use canok_rtsp_client.Protocol.{ReplyInfo, request_setup}
use canok_rtsp_client.Protocol.Buffer.{crlf}
use canok_rtsp_client.Protocol.Lines.{is_blank}
use canok_rtsp_client.Protocol.Transport.{TransportParams, parse_transport_params}
use canok_rtsp_client.Protocol.Transport.Fields.{scan_until-field}
use canok_rtsp_client.Protocol.Reply.{
  ended, first_line, header_line, on_line, header_lines, set_setup, no_setup, store_session,
  with_params, setup_reply, conclude, with_code, parse_lines, parse,
}
use canok_rtsp_client.Protocol.Reply.SetupText.{
  is_text, c_string-append, first_line-text, header_lines-text, cseq_line, session_line,
  transport_line, cseq_header_lem, session_header_lem, transport_header_lem, setup_text, IsSetup,
  StartsSolid, cseq_line-text, session_line-text, transport_line-text,
}

abbrev blank_line : Bytes
blank_line = b'\r' ∷ []

abbrev from_transport : Bytes → Bytes
from_transport transport = transport_line transport ++ (crlf ++ blank_line)

abbrev from_session : Bytes → Bytes → Bytes
from_session session transport = session_line session ++ (crlf ++ from_transport transport)

abbrev from_cseq : Bytes → Bytes → Bytes → Bytes
from_cseq number session transport = cseq_line number ++ (crlf ++ from_session session transport)

header_lines_blank :
    (n cseq : ℕ) (session transport : Option Bytes)
    → header_lines (suc n) cseq (some blank_line) session transport
      ≡ some (ended (some []) session transport)
unfolding header_lines
header_lines_blank n cseq session transport = refl

headers_lem :
    (n cseq d i q : ℕ) (ds is qs : Bytes)
    → All is_text (d ∷ ds)
    → All is_text (i ∷ is)
    → All is_text (q ∷ qs)
    → is_blank d ≡ false
    → is_blank i ≡ false
    → is_blank q ≡ false
    → scan_unsigned 32 (d ∷ ds) ≡ some (cseq, [])
    → cseq ≢ 0
    → header_lines
        (suc (suc (suc (suc n))))
        cseq
        (some (from_cseq (d ∷ ds) (i ∷ is) (q ∷ qs)))
        none
        none
      ≡ some (ended (some []) (some (i ∷ is)) (some (q ∷ qs)))
unfolding on_line header_line
headers_lem n cseq d i q ds is qs td ti tq sd si sq scan positive =
    header_lines-text (suc (suc (suc n))) cseq (cseq_line (d ∷ ds)) (from_session (i ∷ is) (q ∷ qs))
      none none (cseq_line-text (d ∷ ds) td)
    ∙ cseq_header_lem (header_lines (suc (suc (suc n))) cseq) cseq d ds
        (some (from_session (i ∷ is) (q ∷ qs))) none none sd scan positive
    ∙ header_lines-text (suc (suc n)) cseq (session_line (i ∷ is)) (from_transport (q ∷ qs)) none
        none (session_line-text (i ∷ is) ti)
    ∙ session_header_lem (header_lines (suc (suc n)) cseq) cseq i is
        (some (from_transport (q ∷ qs))) none none si
    ∙ header_lines-text (suc n) cseq (transport_line (q ∷ qs)) blank_line (some (i ∷ is)) none
        (transport_line-text (q ∷ qs) tq)
    ∙ transport_header_lem (header_lines (suc n) cseq) cseq q qs (some blank_line) (some (i ∷ is))
        none sq
    ∙ header_lines_blank n cseq (some (i ∷ is)) (some (q ∷ qs))

-- The state that the switch leaves.
session_lem :
    (session : Bytes) (p : TransportParams) (s : ReplyInfo)
    → All (λ c. not (c == b';')) session
    → 0 < length session
    → length session < 64
    → p.ok ≡ true
    → with_params (some session) p s
      ≡ done tt (set_setup (record { server_port_num = p.port; session_id = session }) s)
unfolding with_params
session_lem session p s whole some_byte short ok = rw ok (
    ap
      (λ o.
        store_session p.port o (set_setup (record { server_port_num = p.port; session_id = [] }) s))
      scanned
    ∙ stored)
  where
    scanned : scan_until b';' session ≡ some (session, [])
    scanned =
        ap (scan_until b';') (sym (append-nil session))
        ∙ scan_until-field session [] (some_byte, whole) tt

    stored :
        store_session p.port
          (some (session, []))
          (set_setup (record { server_port_num = p.port; session_id = [] }) s)
        ≡ done tt (set_setup (record { server_port_num = p.port; session_id = session }) s)
    stored = rw (le→ltb 63 (length session) (omega arith))

setup_lem :
    (session transport : Bytes) (p : TransportParams) (s : ReplyInfo)
    → All (λ c. not (c == b';')) session
    → 0 < length session
    → length session < 64
    → parse_transport_params (some transport) ≡ some p
    → p.ok ≡ true
    → setup_reply (some session) (some transport) s
      ≡ done tt (set_setup (record { server_port_num = p.port; session_id = session }) s)
unfolding setup_reply
setup_lem session transport p s whole some_byte short read ok =
    ap (λ o. (or_fault o >>= with_params (some session)) (set_setup no_setup s)) read
    ∙ session_lem session p (set_setup no_setup s) whole some_byte short ok

c_string-setup_text :
    (status number session transport : Bytes)
    → All is_text status
    → All is_text number
    → All is_text session
    → All is_text transport
    → c_string (setup_text status number session transport)
      ≡ setup_text status number session transport
unfolding c_string
c_string-setup_text status number session transport a b c d = c_string-append status _ a (
    ap (λ x. crlf ++ x)
      (c_string-append (cseq_line number) _ (cseq_line-text number b) (
        ap (λ x. crlf ++ x)
          (c_string-append (session_line session) _ (session_line-text session c) (
            ap (λ x. crlf ++ x)
              (c_string-append (transport_line transport) _ (transport_line-text transport d)
                refl))))))

conclude_lem :
    (session transport : Bytes) (body : Option Bytes) (p : TransportParams) (s : ReplyInfo)
    → setup_reply (some session) (some transport) (record s { respond_code = 200 })
      ≡ done tt (
          set_setup
            (record { server_port_num = p.port; session_id = session })
            (record s { respond_code = 200 }))
    → conclude request_setup 200 (ended body (some session) (some transport)) s
      ≡ done ret_sucess (record s {
        respond_code = 200;
        setup = record { server_port_num = p.port; session_id = session };
      })
unfolding conclude
conclude_lem session transport body p s e =
    bind_done (setup_reply (some session) (some transport))
      (λ _. pure (if 200 == 200 then ret_sucess else ret_err)) {s = record s { respond_code = 200 }}
      e

-- `parse_lines` on the first line of a text, once the copy is made.
abbrev on_text : ℕ → ReplyInfo → Bytes → Outcome ReplyInfo ℤ
on_text cseq s u = parse_lines request_setup cseq (first_line (length u) u) s

-- A good reply to SETUP: code 200, the number of the request, a session, and a Transport header that
-- `parseTransportParams` accepts. `parse` then returns RET_SUCESS, and stores the code, the server's
-- port, and the session's name; the media session stays as it was.
pub parse-setup :
    (cseq : ℕ) (status number session transport more : Bytes) (p : TransportParams) (s : ReplyInfo)
    → IsSetup cseq status number session transport p
    → StartsSolid status
    → StartsSolid number
    → StartsSolid session
    → StartsSolid transport
    → parse
        (setup_text status number session transport ++ (b'\n' ∷ more))
        (suc (length (setup_text status number session transport)))
        request_setup
        cseq
        s
      ≡ done ret_sucess (record s {
        respond_code = 200;
        setup = record { server_port_num = p.port; session_id = session };
      })
unfolding parse
parse-setup cseq [] number session transport more p s h a b c d = absurd a
parse-setup cseq (x ∷ xs) [] session transport more p s h a b c d = absurd b
parse-setup cseq (x ∷ xs) (n ∷ ns) [] transport more p s h a b c d = absurd c
parse-setup cseq (x ∷ xs) (n ∷ ns) (i ∷ is) [] more p s h a b c d = absurd d
parse-setup cseq (x ∷ xs) (n ∷ ns) (i ∷ is) (q ∷ qs) more p s h a b c d =
    ap (λ u. on_text cseq s (c_string u)) (take-append text (b'\n' ∷ more) (length text) refl)
    ∙ ap (on_text cseq s) (
        c_string-setup_text (x ∷ xs) (n ∷ ns) (i ∷ is) (q ∷ qs) h.status_text h.number_text
          h.session_text h.transport_text)
    ∙ ap (λ r. parse_lines request_setup cseq r s)
        (first_line-text (length text) x xs rest h.status_text)
    ∙ ap (λ o. with_code request_setup cseq (some rest) o s) h.status_code
    ∙ ap (λ o. (or_fault o >>= conclude request_setup 200) s)
        (headers_lem (length (drop 2 rest)) cseq n i q ns is qs h.number_text h.session_text
          h.transport_text b c d h.number_read h.positive)
    ∙ conclude_lem (i ∷ is) (q ∷ qs) (some []) p s (
        setup_lem (i ∷ is) (q ∷ qs) p (record s { respond_code = 200 }) h.session_whole
          (omega arith) h.session_short h.transport_read h.transport_ok)
  where
    text : Bytes
    text = setup_text (x ∷ xs) (n ∷ ns) (i ∷ is) (q ∷ qs)

    rest : Bytes
    rest = from_cseq (n ∷ ns) (i ∷ is) (q ∷ qs)
