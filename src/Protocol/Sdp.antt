-- ===== src/Protocol/Sdp.antt =====
-- The session description of a reply: `parseSDPLine`, `catchVideoMedinSession`, the two attributes, and
-- `parseSDP` of my_rtsp_client/cRTSPprotocol.cpp. As in the code, a pointer to a line is a pointer to all
-- that follows, so the conversions may read on behind the line's end.
pub mod Enough
use canok_rtsp_client.Base.{
  ℕ, zero, suc, ◌==◌, leb, ltb, if◌then◌else◌, ◌||◌, ◌&&◌, not, Bool, true, false, Option, none,
  some, Bytes, [], ◌∷◌, length,
}
use canok_rtsp_client.Base.Int.{ℤ, pos}
use canok_rtsp_client.Macros.{ret_sucess}
use canok_rtsp_client.Text.{
  codes, starts_with, starts_with_case, span, skip_space, scan_literal, scan_word, scan_unsigned,
  ◌>>=◌,
}
use canok_rtsp_client.Protocol.{MediaSession}

pub is_newline : ℕ → Bool
is_newline c = c == b'\r' || c == b'\n'

-- The string, or NULL at its end.
pub null_at_end : Bytes → Option Bytes
null_at_end [] = none
null_at_end (c ∷ s) = some (c ∷ s)

-- `nextLine` of `parseSDPLine`: it skips all line ends.
unfoldable pub next_sdp_line : Bytes → Option Bytes
unfolding is_newline span null_at_end
next_sdp_line s = null_at_end (span is_newline (span (λ c. not (is_newline c)) s).1).1

-- What `parseSDPLine` returns.
unfoldable pub is_sdp_line : Bytes → Bool
unfolding is_newline
is_sdp_line [] = false
is_sdp_line (c ∷ []) = is_newline c
is_sdp_line (c ∷ d ∷ s) = is_newline c || (d == b'=' && (leb b'a' c && leb c b'z'))

-- "m=%s", then " %hu RTP/AVP %u" and " %hu/%*u RTP/AVP %u".
pub media_name : Bytes → Option (Bytes × Bytes)
unfolding scan_literal scan_word
media_name line = do s ← scan_literal (codes "m=") line; scan_word s

pub scan_profile : Bytes → Option ℕ
unfolding scan_literal scan_unsigned skip_space
scan_profile s = do
  rest ← scan_literal (codes "RTP/AVP") (skip_space s)
  (format, end) ← scan_unsigned 32 (skip_space rest)
  some format

pub scan_port : Bytes → Option ℕ
unfolding scan_unsigned scan_profile
scan_port s = do (port, rest) ← scan_unsigned 16 s; scan_profile rest

pub scan_ports : Bytes → Option ℕ
unfolding scan_unsigned scan_literal scan_profile
scan_ports s = do
  (port, rest) ← scan_unsigned 16 s
  count ← scan_literal (codes "/") rest
  (n, behind) ← scan_unsigned 32 count
  scan_profile behind

pub payload_format : Bytes → Option ℕ
unfolding scan_port scan_ports
payload_format s = elim (scan_port s) [ some format ↦ some format | none ↦ scan_ports s ]

pub video_of : Bytes → Option ℕ → Bool
unfolding starts_with_case
video_of name none = false
video_of name (some format) =
    if leb format 127 then starts_with_case name (codes "video") else false

-- A name of 64 bytes or more does not fit `mediumName`.
pub named_media : Option (Bytes × Bytes) → Option Bool
unfolding video_of payload_format
named_media none = some false
named_media (some (name, rest)) =
    if ltb 63 (length name) then none else some (video_of name (payload_format rest))

-- `catchVideoMedinSession`; `none` is the overflow of `mediumName`.
unfoldable pub catch_video_medin_session : Bytes → Option Bool
unfolding media_name named_media
catch_video_medin_session line = named_media (media_name line)

-- `parseSDPAttribute_rtcpmux`: its result is also what it stores.
unfoldable pub parse_sdp_attribute_rtcpmux : Bytes → Bool
unfolding starts_with
parse_sdp_attribute_rtcpmux line = starts_with line (codes "a=rtcp-mux")

-- `parseSDPAttribute_control`: the path, if there is one.
unfoldable pub parse_sdp_attribute_control : Bytes → Option Bytes
unfolding scan_literal scan_word
parse_sdp_attribute_control line = do
  s ← scan_literal (codes "a=control:") line
  (path, rest) ← scan_word s
  some path

pub set_control : Option Bytes → MediaSession → MediaSession
set_control none m = m
set_control (some path) m = record m { control_path = some path }

-- The attributes of one line of the video's section.
pub take_line : Bytes → MediaSession → MediaSession
unfolding parse_sdp_attribute_rtcpmux parse_sdp_attribute_control set_control
take_line line m =
    if parse_sdp_attribute_rtcpmux line
    then record m { multiplex_rtcp_with_rtp = true }
    else set_control (parse_sdp_attribute_control line)
        (record m { multiplex_rtcp_with_rtp = false })

pub is_media_line : Bytes → Bool
is_media_line [] = false
is_media_line (c ∷ s) = c == b'm'

-- How a loop of `parseSDP` ends: at a bad line, where the function returns, or with the variable
-- `sdpLine` (first loop) or `nextSDPLine` (inner loop) as given.
pub data Walk : Type 0 where
  bad_line : Walk
  at : Option Bytes → Walk

-- The loops run on fuel. Without fuel, and at an overflow, the result is `none`.
-- The first loop: to the first line of a media section.
pub skip_lines : ℕ → Option Bytes → Option Walk
unfolding is_sdp_line is_media_line next_sdp_line
skip_lines n none = some (at none)
skip_lines zero (some s) = none
skip_lines (suc n) (some s) =
    let rest = skip_lines n (next_sdp_line s) in
    if not (is_sdp_line s)
    then some bad_line
    else if is_media_line s
    then some (at (some s))
    else rest

-- The inner loop over the lines of the video's section, from `nextSDPLine` on.
pub video_lines : ℕ → Option Bytes → MediaSession → Option (Walk × MediaSession)
unfolding is_sdp_line is_media_line next_sdp_line take_line
video_lines n none m = some (at none, m)
video_lines zero (some s) m = none
video_lines (suc n) (some s) m =
    let rest = video_lines n (next_sdp_line s) (take_line s m) in
    if not (is_sdp_line s)
    then some (bad_line, m)
    else if is_media_line s
    then some (at (next_sdp_line s), m)
    else rest

-- The rest of a call of `parseSDP` from `sdpLine` on: what it returns, and the session.
abbrev pub Loop : Type 0
Loop = Option Bytes → MediaSession → Option (ℤ × MediaSession)

-- `return false`, as an int, at a bad line.
pub return_false : MediaSession → Option (ℤ × MediaSession)
return_false m = some (pos 0, m)

-- One line of the second loop, whose rest is `again`.
pub after_media : Loop → Walk × MediaSession → Option (ℤ × MediaSession)
unfolding return_false
after_media again (bad_line, m) = return_false m
after_media again (at next, m) = again next m

pub video_section : Loop → ℕ → Bytes → MediaSession → Bool → Option (ℤ × MediaSession)
unfolding video_lines next_sdp_line after_media
video_section again n s m false = again (next_sdp_line s) m
video_section again n s m true = video_lines n (next_sdp_line s) m >>= after_media again

pub media_line : Loop → ℕ → Bytes → MediaSession → Option (ℤ × MediaSession)
unfolding catch_video_medin_session next_sdp_line video_section is_media_line
media_line again n s m =
    if is_media_line s
    then catch_video_medin_session s >>= video_section again n s m
    else again (next_sdp_line s) m

-- The second loop.
pub media_lines : ℕ → Option Bytes → MediaSession → Option (ℤ × MediaSession)
unfolding is_sdp_line media_line return_false
media_lines n none m = some (ret_sucess, m)
media_lines zero (some s) m = none
media_lines (suc n) (some s) m =
    if not (is_sdp_line s) then return_false m else media_line (media_lines n) n s m

pub after_skip : ℕ → MediaSession → Walk → Option (ℤ × MediaSession)
unfolding media_lines return_false
after_skip n m bad_line = return_false m
after_skip n m (at s) = media_lines n s m

-- `parseSDP` on the session before the call.
unfoldable pub parse_sdp : Bytes → MediaSession → Option (ℤ × MediaSession)
unfolding skip_lines after_skip
parse_sdp s m = skip_lines (suc (length s)) (some s) >>= after_skip (suc (length s)) m
