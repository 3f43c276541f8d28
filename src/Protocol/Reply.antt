-- ===== src/Protocol/Reply.antt =====
-- `parse` of my_rtsp_client/cRTSPprotocol.cpp: the reply to a request.
pub mod SetupText
pub mod Verdict
pub mod Setup
pub mod Kept
use canok_rtsp_client.Base.{
  ℕ, zero, suc, ◌-◌, ◌==◌, if◌then◌else◌, ◌&&◌, not, ltb, Bool, true, false, Option, none, some,
  Bytes, [], ◌∷◌, length, take,
}
use canok_rtsp_client.Base.Int.{ℤ}
use canok_rtsp_client.Base.Outcome.{M, done, fault, pure, ◌>>=◌, ◌>>◌, or_fault, modify, get}
use canok_rtsp_client.Macros.{ret_sucess, ret_err}
use canok_rtsp_client.Text.{codes, c_string, scan_unsigned, scan_until}
use canok_rtsp_client.Protocol.{
  ReplyInfo, MediaSession, SetupInfo, RequestType, request_option, request_describe, request_setup,
  request_play, request_pause, request_teardown,
}
use canok_rtsp_client.Protocol.Lines.{get_line, check_for_header, parse_response_code}
use canok_rtsp_client.Protocol.Sdp.{parse_sdp}
use canok_rtsp_client.Protocol.Transport.{TransportParams, parse_transport_params}

-- The first loop: to the first line that is not blank, or the last line. `nextLineStart` comes with it.
pub past_blank : (Bytes → Bytes × Option Bytes) → Bytes × Option Bytes → Bytes × Option Bytes
past_blank again ([], some next) = again next
past_blank again ([], none) = ([], none)
past_blank again (c ∷ line, next) = (c ∷ line, next)

pub first_line : ℕ → Bytes → Bytes × Option Bytes
unfolding get_line past_blank
first_line zero s = get_line s
first_line (suc n) s = past_blank (first_line n) (get_line s)

-- How the loop over the headers ends: at a bad CSeq, or with `nextLineStart`, `sessionParamsStr` and
-- `transportParamsStr`.
pub data Headers : Type 0 where
  bad_cseq : Headers
  ended : Option Bytes → Option Bytes → Option Bytes → Headers

-- The value of a CSeq header is the number of the request.
pub is_cseq : ℕ → Option (ℕ × Bytes) → Bool
is_cseq cseq none = false
is_cseq cseq (some (n, rest)) = not (cseq == 0) && n == cseq

-- The loop over the headers, from its variables on.
abbrev pub HeaderLoop : Type 0
HeaderLoop = Option Bytes → Option Bytes → Option Bytes → Option Headers

-- Without a value, a CSeq header leaves its pointer uninitialised, and the code reads it.
pub cseq_header :
    HeaderLoop → ℕ → Option Bytes → Option Bytes → Option Bytes → Option Bytes → Option Headers
unfolding scan_unsigned is_cseq
cseq_header again cseq next session transport none = none
cseq_header again cseq next session transport (some params) =
    if is_cseq cseq (scan_unsigned 32 params) then again next session transport else some bad_cseq

-- The headers after Transport are stored in variables that nothing reads.
pub other_header : HeaderLoop → Bytes → Option Bytes → Option Bytes → Option Bytes → Option Headers
unfolding check_for_header
other_header again line next session transport =
    let is_session = check_for_header line (codes "Session:") session in
    if is_session.0
    then again next is_session.1 transport
    else again next session (check_for_header line (codes "Transport:") transport).1

pub header_line :
    HeaderLoop → ℕ → Bytes → Option Bytes → Option Bytes → Option Bytes → Option Headers
unfolding check_for_header cseq_header other_header
header_line again cseq line next session transport =
    let is_cseq_line = check_for_header line (codes "CSeq:") none in
    if is_cseq_line.0
    then cseq_header again cseq next session transport is_cseq_line.1
    else other_header again line next session transport

-- A round of the loop on what `getLine` gives; a blank line ends it.
pub on_line : HeaderLoop → ℕ → Option Bytes → Option Bytes → Bytes × Option Bytes → Option Headers
unfolding header_line
on_line again cseq session transport ([], next) = some (ended next session transport)
on_line again cseq session transport (c ∷ line, next) =
    header_line again cseq (c ∷ line) next session transport

-- The loop, on fuel: `none` is a read of the uninitialised pointer, or a lack of fuel.
pub header_lines : ℕ → ℕ → HeaderLoop
unfolding get_line on_line
header_lines zero cseq next session transport = none
header_lines (suc n) cseq none session transport = some (ended none session transport)
header_lines (suc n) cseq (some s) session transport =
    on_line (header_lines n cseq) cseq session transport (get_line s)

abbrev pub set_media : MediaSession → ReplyInfo → ReplyInfo
set_media m s = record s { media = m }

abbrev pub set_setup : SetupInfo → ReplyInfo → ReplyInfo
set_setup x s = record s { setup = x }

-- What `memset` leaves.
abbrev pub no_media : MediaSession
no_media = record { control_path = none; multiplex_rtcp_with_rtp = false }

abbrev pub no_setup : SetupInfo
no_setup = record { server_port_num = 0; session_id = [] }

-- `case REQUEST_DESCRIBE`. What `parseSDP` returns is overwritten later.
pub describe_reply : Option Bytes → M ReplyInfo (Unit {0})
unfolding parse_sdp
describe_reply body = do
  modify (set_media no_media)
  elim body [
    | none ↦ pure tt
    | some s ↦ do (ret, m) ← or_fault (parse_sdp s no_media); modify (set_media m)
  ]

-- The format "%[^;]" on the session's parameters; 64 bytes or more overflow `fSessionId`.
pub store_session : ℕ → Option (Bytes × Bytes) → M ReplyInfo (Unit {0})
store_session port none = pure tt
store_session port (some (id, rest)) =
    if ltb 63 (length id)
    then or_fault none
    else modify (set_setup (record { server_port_num = port; session_id = id }))

pub session_reply : ℕ → Option Bytes → M ReplyInfo (Unit {0})
unfolding scan_until store_session
session_reply port none = pure tt
session_reply port (some s) = store_session port (scan_until b';' s)

-- `case REQUEST_SETUP`: after a bad Transport header the session is not looked at.
pub with_params : Option Bytes → TransportParams → M ReplyInfo (Unit {0})
unfolding session_reply
with_params session t =
    if t.ok
    then modify (set_setup (record { server_port_num = t.port; session_id = [] }))
      >> session_reply t.port session
    else pure tt

pub setup_reply : Option Bytes → Option Bytes → M ReplyInfo (Unit {0})
unfolding parse_transport_params with_params
setup_reply session transport = do
  modify (set_setup no_setup)
  t ← or_fault (parse_transport_params transport)
  with_params session t

-- The switch.
pub special_reply :
    RequestType → Option Bytes → Option Bytes → Option Bytes → M ReplyInfo (Unit {0})
unfolding describe_reply setup_reply
special_reply request_describe body session transport = describe_reply body
special_reply request_setup body session transport = setup_reply session transport
special_reply _ body session transport = pure tt

-- From the end of the headers on: `ret` depends on the code alone.
pub conclude : RequestType → ℕ → Headers → M ReplyInfo ℤ
unfolding special_reply
conclude request code bad_cseq = pure ret_err
conclude request code (ended body session transport) = do
  modify (λ s. record s { respond_code = code })
  special_reply request body session transport
  pure (if code == 200 then ret_sucess else ret_err)

-- One round for each byte that is left, and one more, are enough for the loop over the headers.
abbrev pub enough : Option Bytes → ℕ
enough none = 1
enough (some s) = suc (suc (length s))

pub with_code : RequestType → ℕ → Option Bytes → Option ℕ → M ReplyInfo ℤ
unfolding header_lines conclude
with_code request cseq next none = pure ret_err
with_code request cseq next (some code) =
    or_fault (header_lines (enough next) cseq next none none) >>= conclude request code

pub parse_lines : RequestType → ℕ → Bytes × Option Bytes → M ReplyInfo ℤ
unfolding parse_response_code with_code
parse_lines request cseq (line, next) = with_code request cseq next (parse_response_code line)

-- `parse(buf, buflen, request, cseq, ...)` on the `buflen` bytes at `buf`. With `buflen` 0 it writes in
-- front of its copy.
unfoldable pub parse : Bytes → ℕ → RequestType → ℕ → M ReplyInfo ℤ
unfolding c_string first_line parse_lines
parse buf zero request cseq = or_fault none
parse buf (suc n) request cseq =
    let s = c_string (take n buf) in parse_lines request cseq (first_line (length s) s)
