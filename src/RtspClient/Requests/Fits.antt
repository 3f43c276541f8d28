-- ===== src/RtspClient/Requests/Fits.antt =====
-- Which requests of my_rtsp_client/cRTSPClient.cpp fit into the 256 bytes of its buffer, and what becomes of a
-- request line that does not.
use canok_rtsp_client.Base.{
  ℕ, ◌+◌, ◌<◌, ◌≤◌, ◌≡◌, ap, Bytes, List, [], ◌∷◌, ◌++◌, length, replicate, arith, length-append,
  length-take, lt→ltb,
}
use canok_rtsp_client.Base.Int.{ℤ, pos, ◌+ℤ◌, +ℤ_parts, pos_part, neg_part}
use canok_rtsp_client.Base.Outcome.{M, done, ◌>>=◌, get}
use canok_rtsp_client.Macros.{ret_err}
use canok_rtsp_client.Text.{codes}
use canok_rtsp_client.Text.Print.{print_nat, print_int, length-print_nat, length-print_int}
use canok_rtsp_client.Net.{Kernel}
use canok_rtsp_client.Protocol.{SendBuffer, request_setup, begain_cmd, add_line_cmd, end_cmd}
use canok_rtsp_client.Protocol.Buffer.{crlf, message}
use canok_rtsp_client.Protocol.Build.{add_lines, build}
use canok_rtsp_client.RtspClient.Session.{Session, send_lines, on_send, rtsp_request}
use canok_rtsp_client.RtspClient.Requests.{
  printed, request_line, cseq_line, session_line, transport_line, session_lines,
}
use canok_rtsp_client.RtspClient.Requests.Good.{
  options_lines, describe_lines, setup_lines, play_lines,
}

length-printed : (t : Bytes) → length (printed t) ≤ length t
length-printed t = omega (arith, length-take 255 t)

length-request_line :
    (name url : Bytes) → length (request_line name url) ≤ length name + length url + 10
length-request_line name url = omega (
  arith,
  length-printed (name ++ (codes " " ++ (url ++ codes " RTSP/1.0"))),
  length-append name (codes " " ++ (url ++ codes " RTSP/1.0")),
  length-append url (codes " RTSP/1.0"),
)

length-cseq_line : (n : ℕ) → n < 4294967296 → length (cseq_line n) ≤ 16
length-cseq_line n h =
    omega (arith, length-printed (codes "CSeq:" ++ print_nat n), length-print_nat n h)

length-session_line : (id : Bytes) → length (session_line id) ≤ 8 + length id
length-session_line id = omega (arith, length-printed (codes "Session:" ++ id))

next_port :
    (p : ℤ) → (pos_part (p +ℤ pos 1) ≤ pos_part p + 1) × (neg_part (p +ℤ pos 1) ≤ neg_part p)
unfolding ◌+ℤ◌
next_port p = ground arith

length-transport_line :
    (port : ℤ) → pos_part port ≤ 32767 → neg_part port ≤ 32768 → length (transport_line port) ≤ 53
length-transport_line port h k = omega (
  arith,
  length-printed (
      codes "Transport:RTP/AVP;unicast;client_port="
      ++ (print_int port ++ (codes "-" ++ print_int (port +ℤ pos 1)))),
  length-append (print_int port) (codes "-" ++ print_int (port +ℤ pos 1)),
  length-print_int port (omega arith),
  length-print_int (port +ℤ pos 1) (omega (arith, +ℤ_parts port (pos 1), next_port port)),
)

-- A message of lines whose lengths are bounded.
two_fit :
    (a b : Bytes) (m n : ℕ)
    → length a ≤ m
    → length b ≤ n
    → m + n + 6 ≤ 256
    → length (message (a ∷ b ∷ [])) ≤ 256
two_fit a b m n ha hb h =
    omega (arith, length-append a (crlf ++ message (b ∷ [])), length-append b (crlf ++ crlf))

three_fit :
    (a b c : Bytes) (m n k : ℕ)
    → length a ≤ m
    → length b ≤ n
    → length c ≤ k
    → m + n + k + 8 ≤ 256
    → length (message (a ∷ b ∷ c ∷ [])) ≤ 256
three_fit a b c m n k ha hb hc h = omega (
  arith,
  length-append a (crlf ++ message (b ∷ c ∷ [])),
  length-append b (crlf ++ message (c ∷ [])),
  length-append c (crlf ++ crlf),
)

four_fit :
    (a b c d : Bytes) (m n k l : ℕ)
    → length a ≤ m
    → length b ≤ n
    → length c ≤ k
    → length d ≤ l
    → m + n + k + l + 10 ≤ 256
    → length (message (a ∷ b ∷ c ∷ d ∷ [])) ≤ 256
four_fit a b c d m n k l ha hb hc hd h = omega (
  arith,
  length-append a (crlf ++ message (b ∷ c ∷ d ∷ [])),
  length-append b (crlf ++ message (c ∷ d ∷ [])),
  length-append c (crlf ++ message (d ∷ [])),
  length-append d (crlf ++ crlf),
)

named :
    (name url : Bytes) (m : ℕ)
    → length url ≤ m
    → length (request_line name url) ≤ length name + m + 10
named name url m h = omega (arith, length-request_line name url)

-- All requests fit into the buffer of 256 bytes, for a URL that `parse_rtsp_url` takes (at most 127
-- bytes), a session's name that `parse` stores (at most 63), a control path of at most 150 bytes, a number
-- below 2 ^ 32 and a port of 16 bits.
pub requests_fit :
    {K : Type 0} (s : Session K) (path : Bytes) (port : ℤ)
    → length s.server.url ≤ 127
    → length s.reply.setup.session_id ≤ 63
    → length path ≤ 150
    → s.cseq < 4294967296
    → pos_part port ≤ 32767
    → neg_part port ≤ 32768
    → (length (message (options_lines s.server.url s.cseq)) ≤ 256)
      × (length (message (describe_lines s.server.url s.cseq)) ≤ 256)
      × (length (message (setup_lines path s.cseq port)) ≤ 256)
      × (length (message (play_lines s.server.url s.cseq s.reply.setup.session_id)) ≤ 256)
      × (length (message (session_lines (codes "PAUSE") s)) ≤ 256)
      × (length (message (session_lines (codes "TEARDOWN") s)) ≤ 256)
unfolding session_lines
requests_fit s path port u i p small below above =
    let number = length-cseq_line s.cseq small in
    let session : length (session_line s.reply.setup.session_id) ≤ 71 =
      omega (arith, length-session_line s.reply.setup.session_id) in
    (
      two_fit (request_line (codes "OPTIONS") s.server.url) (cseq_line s.cseq) 144 16
          (named (codes "OPTIONS") s.server.url 127 u) number (omega arith),
      two_fit (request_line (codes "DESCRIBE") s.server.url) (cseq_line s.cseq) 145 16
          (named (codes "DESCRIBE") s.server.url 127 u) number (omega arith),
      three_fit (request_line (codes "SETUP") path) (cseq_line s.cseq) (transport_line port) 165 16
          53 (named (codes "SETUP") path 150 p) number (length-transport_line port below above)
          (omega arith),
      four_fit (request_line (codes "PLAY") s.server.url) (cseq_line s.cseq)
          (codes "nRange:npt=0.000-") (session_line s.reply.setup.session_id) 141 16 17 71
          (named (codes "PLAY") s.server.url 127 u) number (omega arith) session (omega arith),
      three_fit (request_line (codes "PAUSE") s.server.url) (cseq_line s.cseq)
          (session_line s.reply.setup.session_id) 142 16 71
          (named (codes "PAUSE") s.server.url 127 u) number session (omega arith),
      three_fit (request_line (codes "TEARDOWN") s.server.url) (cseq_line s.cseq)
          (session_line s.reply.setup.session_id) 145 16 71
          (named (codes "TEARDOWN") s.server.url 127 u) number session (omega arith),
    )

add_line_cmd_full :
    (buf : Bytes) (n : ℕ) (s : SendBuffer)
    → s.send_len < s.send_offset + n + 2
    → add_line_cmd buf n s ≡ done ret_err s
unfolding add_line_cmd
add_line_cmd_full buf n s full = rw (lt→ltb s.send_len (s.send_offset + n + 2) full)

dropped :
    (l : Bytes) (ls : List Bytes) (s : SendBuffer)
    → s.send_len < length l + 2
    → build (l ∷ ls) s ≡ build ls s
unfolding build begain_cmd add_lines
dropped l ls s long =
    ap (λ o. (((λ _. o) >>= λ _. add_lines ls) >>= λ _. end_cmd) empty)
      (add_line_cmd_full l (length l) empty (omega arith))
  where
    empty : SendBuffer
    empty = record s { send_buf = replicate s.send_len 0; send_offset = 0 }

-- The request line of SETUP with a control path of 240 bytes or more is dropped without notice: what is
-- sent is the same as the other two lines alone.
pub request_setup_drops_line :
    {K : Type 0} (kernel : Kernel K) (s : Session K) (path : Bytes) (port : ℤ)
    → s.send.send_len ≡ 256
    → 240 ≤ length path
    → send_lines kernel (setup_lines path s.cseq port) request_setup s
      ≡ send_lines kernel (cseq_line s.cseq ∷ transport_line port ∷ []) request_setup s
unfolding send_lines
request_setup_drops_line {K} kernel s path port room long =
    ap (λ o. (on_send (λ _. o) >>= λ _. rest) s)
      (dropped line (cseq_line s.cseq ∷ transport_line port ∷ []) s.send
        (omega (arith, room, full)))
  where
    line : Bytes
    line = request_line (codes "SETUP") path

    rest : M (Session K) ℤ
    rest = do s ← get; rtsp_request kernel s.send.send_buf s.send.send_offset request_setup

    full : 255 ≤ length line
    full = omega (
      arith,
      length-take 255 (codes "SETUP" ++ (codes " " ++ (path ++ codes " RTSP/1.0"))),
      length-append path (codes " RTSP/1.0"),
    )
