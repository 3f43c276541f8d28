-- ===== src/Protocol/Lines.antt =====
-- The lines and headers of a reply: `getLine`, `checkForHeader` and `parseResponseCode` of
-- my_rtsp_client/cRTSPprotocol.cpp.
use canok_rtsp_client.Base.{
  ℕ, ◌==◌, if◌then◌else◌, ◌||◌, Bool, true, false, Option, none, some, Bytes, [], ◌∷◌, length, drop,
}
use canok_rtsp_client.Text.{
  codes, starts_with_case, span, scan_literal, scan_word, scan_unsigned, ◌>>=◌,
}

-- What stands behind a '\r'.
pub skip_newline : Bytes → Bytes
skip_newline [] = []
skip_newline (c ∷ s) = if c == b'\n' then s else c ∷ s

-- `getLine(startOfLine)`: the string at `startOfLine` once its line end is overwritten with 0, and the
-- start of the next line (`none` for NULL).
unfoldable pub get_line : Bytes → Bytes × Option Bytes
unfolding skip_newline
get_line [] = ([], none)
get_line (c ∷ s) =
    let rest = get_line s in
    if c == b'\r'
    then ([], some (skip_newline s))
    else if c == b'\n'
    then ([], some s)
    else (c ∷ rest.0, rest.1)

unfoldable pub is_blank : ℕ → Bool
is_blank c = c == b' ' || c == b'\t'

-- `*headerParams` after the call, from the string behind the header's name.
pub params_at : Bytes → Option Bytes → Option Bytes
params_at [] before = before
params_at (c ∷ s) before = some (c ∷ s)

-- `checkForHeader(line, headerName, strlen(headerName), &headerParams)`: whether the line is of this
-- header, and the pointer after the call. A header without parameters leaves the pointer as it is.
unfoldable pub check_for_header : Bytes → Bytes → Option Bytes → Bool × Option Bytes
unfolding starts_with_case span is_blank params_at
check_for_header line header_name before =
    if starts_with_case line header_name
    then (true, params_at (span is_blank (drop (length header_name) line)).1 before)
    else (false, before)

-- `parseResponseCode`: the format "RTSP/%*s%u".
unfoldable pub parse_response_code : Bytes → Option ℕ
unfolding scan_literal scan_word scan_unsigned
parse_response_code line = do
  behind ← scan_literal (codes "RTSP/") line
  (version, rest) ← scan_word behind
  (code, end) ← scan_unsigned 32 rest
  some code
