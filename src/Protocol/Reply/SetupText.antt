-- ===== src/Protocol/Reply/SetupText.antt =====
-- The text of a good reply to SETUP, as `parse` of my_rtsp_client/cRTSPprotocol.cpp reads it line by line.
use canok_rtsp_client.Base.{
  ℕ, zero, suc, ◌<◌, ◌==◌, ==_iff, ◌≡◌, ◌≢◌, refl, ap, ◌∙◌, not, ◌||◌, if◌then◌else◌, Bool, true,
  false, Option, some, Bytes, [], ◌∷◌, ◌++◌, arith, length,
}
use canok_rtsp_client.Text.{codes, c_string, scan_unsigned}
use canok_rtsp_client.Text.Laws.{All}
use canok_rtsp_client.Protocol.Buffer.{crlf}
use canok_rtsp_client.Protocol.Lines.{get_line, parse_response_code, is_blank}
use canok_rtsp_client.Protocol.Transport.{TransportParams, parse_transport_params}
use canok_rtsp_client.Protocol.Reply.{
  HeaderLoop, bad_cseq, past_blank, first_line, is_cseq, header_line, on_line, header_lines,
}

-- A byte of a line: neither 0 nor a line end.
abbrev pub is_text : ℕ → Bool
is_text c = not (c == 0 || (c == b'\r' || c == b'\n'))

is_text_lem :
    (c : ℕ)
    → is_text c ≡ true
    → ((c == 0) ≡ false) × ((c == b'\r') ≡ false) × ((c == b'\n') ≡ false)
is_text_lem c h = ground arith

get_line-text : (l rest : Bytes) → All is_text l → get_line (l ++ (crlf ++ rest)) ≡ (l, some rest)
unfolding get_line
get_line-text [] rest h = refl
get_line-text (c ∷ l) rest (here, h) =
    let (some_byte, no_return, no_newline) = is_text_lem c here in
    rw (no_return, no_newline, get_line-text l rest h)

-- Strings without 0.
pub c_string-append :
    (l rest : Bytes) → All is_text l → c_string rest ≡ rest → c_string (l ++ rest) ≡ l ++ rest
unfolding c_string
c_string-append [] rest h e = e
c_string-append (zero ∷ l) rest h e = cc (h.0)
c_string-append (suc c ∷ l) rest h e = ap (◌∷◌ (suc c)) (c_string-append l rest h.1 e)

pub first_line-text :
    (n c : ℕ) (l rest : Bytes)
    → All is_text (c ∷ l)
    → first_line n ((c ∷ l) ++ (crlf ++ rest)) ≡ (c ∷ l, some rest)
unfolding first_line
first_line-text zero c l rest h = get_line-text (c ∷ l) rest h
first_line-text (suc n) c l rest h = ap (past_blank (first_line n)) (get_line-text (c ∷ l) rest h)

pub header_lines-text :
    (n cseq : ℕ) (l rest : Bytes) (session transport : Option Bytes)
    → All is_text l
    → header_lines (suc n) cseq (some (l ++ (crlf ++ rest))) session transport
      ≡ on_line (header_lines n cseq) cseq session transport (l, some rest)
unfolding header_lines
header_lines-text n cseq l rest session transport h =
    ap (on_line (header_lines n cseq) cseq session transport) (get_line-text l rest h)

-- Three header lines with a blank before their value.
abbrev pub cseq_line : Bytes → Bytes
cseq_line v = codes "CSeq: " ++ v

abbrev pub session_line : Bytes → Bytes
session_line v = codes "Session: " ++ v

abbrev pub transport_line : Bytes → Bytes
transport_line v = codes "Transport: " ++ v

-- A value: its first byte is not blank.
module _ (again : HeaderLoop) (cseq c : ℕ) (v : Bytes) (next session transport : Option Bytes)
    (solid : is_blank c ≡ false) where
  pub cseq_header_lem :
      scan_unsigned 32 (c ∷ v) ≡ some (cseq, [])
      → cseq ≢ 0
      → header_line again cseq (cseq_line (c ∷ v)) next session transport
        ≡ again next session transport
  unfolding header_line
  cseq_header_lem scan positive = rw solid (
      ap (λ o. if is_cseq cseq o then again next session transport else some bad_cseq) scan
      ∙ ap (λ b. if b then again next session transport else some bad_cseq) same)
    where
      same : is_cseq cseq (some (cseq, [])) ≡ true
      same = rw ((==_iff cseq cseq).1 refl) (ground arith)

  pub session_header_lem :
      header_line again cseq (session_line (c ∷ v)) next session transport
      ≡ again next (some (c ∷ v)) transport
  unfolding header_line
  session_header_lem = rw solid

  pub transport_header_lem :
      header_line again cseq (transport_line (c ∷ v)) next session transport
      ≡ again next session (some (c ∷ v))
  unfolding header_line
  transport_header_lem = rw solid

-- The reply, without the last byte of its blank line.
abbrev pub setup_text : Bytes → Bytes → Bytes → Bytes → Bytes
setup_text status cseq session transport =
    status
    ++ (crlf
        ++ (cseq_line cseq
            ++ (crlf
                ++ (session_line session
                    ++ (crlf ++ (transport_line transport ++ (crlf ++ (b'\r' ∷ []))))))))

-- The parts of a good reply to the request `cseq`: each value begins with a byte that is not blank.
pub record IsSetup (cseq : ℕ) (status number session transport : Bytes) (p : TransportParams)
    : Type 0 where
  pub status_text : All is_text status
  pub status_code : parse_response_code status ≡ some 200
  pub number_text : All is_text number
  pub number_read : scan_unsigned 32 number ≡ some (cseq, [])
  pub session_text : All is_text session
  pub session_whole : All (λ c. not (c == b';')) session
  pub session_short : length session < 64
  pub transport_text : All is_text transport
  pub transport_read : parse_transport_params (some transport) ≡ some p
  pub transport_ok : p.ok ≡ true
  pub positive : cseq ≢ 0

abbrev pub StartsSolid : Bytes → Type 0
StartsSolid [] = ⊥
StartsSolid (c ∷ v) = is_blank c ≡ false

All-append : (xs ys : Bytes) → All is_text xs → All is_text ys → All is_text (xs ++ ys)
All-append [] ys h k = k
All-append (x ∷ xs) ys h k = (h.0, All-append xs ys h.1 k)

pub cseq_line-text : (v : Bytes) → All is_text v → All is_text (cseq_line v)
cseq_line-text v h =
    All-append (codes "CSeq: ") v (refl, (refl, (refl, (refl, (refl, (refl, tt)))))) h

pub session_line-text : (v : Bytes) → All is_text v → All is_text (session_line v)
session_line-text v h =
    All-append (codes "Session: ") v
      (refl, (refl, (refl, (refl, (refl, (refl, (refl, (refl, (refl, tt))))))))) h

pub transport_line-text : (v : Bytes) → All is_text v → All is_text (transport_line v)
transport_line-text v h =
    All-append (codes "Transport: ") v
      (refl, (refl, (refl, (refl, (refl, (refl, (refl, (refl, (refl, (refl, (refl, tt))))))))))) h
