-- ===== src/RtspClient/Url.antt =====
-- `parse_rtsp_url` of my_rtsp_client/cRTSPClient.cpp on a well-formed URL.
use canok_rtsp_client.Base.{
  ℕ, suc, ◌+◌, ◌<◌, ◌≤◌, ◌==◌, ◌≡◌, refl, ap, ◌∙◌, not, le→ltb, lt→ltb, if◌then◌else◌, Bool, false,
  some, Bytes, ◌∷◌, ◌++◌, arith, length, length-append,
}
use canok_rtsp_client.Base.Int.{ℤ}
use canok_rtsp_client.Base.Outcome.{M, done, fault, pure, ◌>>◌, modify}
use canok_rtsp_client.Macros.{ret_sucess, ret_err}
use canok_rtsp_client.Text.{
  codes, starts_with_case, is_space, is_digit, scan_word, scan_until, value,
}
use canok_rtsp_client.Text.Laws.{All}
use canok_rtsp_client.Text.Scans.{scan_until_stop, scan_unsigned_digits, scan_word-All}
use canok_rtsp_client.RtspClient.{
  Server, scan_other, scan_server_port, skip_colon, scan_ip, parse_rtsp_url,
}

abbrev pub is_ip_byte : ℕ → Bool
is_ip_byte c = not (c == b':')

abbrev pub is_path_byte : ℕ → Bool
is_path_byte c = not (is_space c)

-- A host that serverIp holds, a port in digits, and a path that begins with a byte that is no digit.
pub record IsAddress (h : ℕ) (host : Bytes) (d : ℕ) (digits : Bytes) (p : ℕ) (path : Bytes)
    : Type 0 where
  pub host_bytes : All is_ip_byte (h ∷ host)
  pub port_bytes : All is_digit (d ∷ digits)
  pub path_bytes : All is_path_byte (p ∷ path)
  pub port_ends : is_digit p ≡ false
  pub port_fits : value 0 (d ∷ digits) < 4294967296
  pub path_fits : length path < 99
  pub url_fits : length host + length digits + length path < 117

-- The URL of a host, a port and a path.
abbrev pub url_of : Bytes → Bytes → Bytes → Bytes
url_of host digits path = codes "rtsp://" ++ (host ++ (b':' ∷ (digits ++ path)))

length-url_of :
    (host digits path : Bytes)
    → length (url_of host digits path) ≡ 8 + length host + length digits + length path
length-url_of host digits path =
    omega (arith, length-append host (b':' ∷ (digits ++ path)), length-append digits path)

module _ {h d p : ℕ} {host digits path : Bytes} (w : IsAddress h host d digits p path) where
  scan_other_lem : (s : Server) → scan_other (scan_word (p ∷ path)) s ≡ done ret_sucess s
  unfolding scan_other
  scan_other_lem s =
      ap (λ r. scan_other r s) (scan_word-All p path w.path_bytes)
      ∙ ap (λ (t : Bool). (if t then pure ret_sucess else λ s. fault) s)
          (lt→ltb (suc (length path)) 100 (omega (arith, w.path_fits)))

  skip_colon_lem :
      (s : Server)
      → skip_colon (b':' ∷ ((d ∷ digits) ++ (p ∷ path))) s
        ≡ done ret_sucess (record s { server_port = value 0 (d ∷ digits) })
  unfolding skip_colon scan_server_port
  skip_colon_lem s =
      ap (λ r. scan_server_port r s)
        (scan_unsigned_digits d digits (p ∷ path) w.port_bytes w.port_ends w.port_fits)
      ∙ scan_other_lem (record s { server_port = value 0 (d ∷ digits) })

  to_host :
      (s : Server)
      → parse_rtsp_url (url_of (h ∷ host) (d ∷ digits) (p ∷ path)) s
        ≡ scan_ip
            (some (h ∷ host, b':' ∷ ((d ∷ digits) ++ (p ∷ path))))
            (record s { url = url_of (h ∷ host) (d ∷ digits) (p ∷ path) })
  unfolding parse_rtsp_url starts_with_case
  to_host s =
      ap (λ (t : Bool). (if t then pure ret_err else keep) s)
        (le→ltb 128 (length (url_of (h ∷ host) (d ∷ digits) (p ∷ path)) + 1)
          (omega (arith, w.url_fits, length-url_of (h ∷ host) (d ∷ digits) (p ∷ path))))
      ∙ ap (λ r. scan_ip r (record s { url = url_of (h ∷ host) (d ∷ digits) (p ∷ path) }))
          (scan_until_stop b':' h host (b':' ∷ ((d ∷ digits) ++ (p ∷ path))) w.host_bytes refl)
    where
      keep : M Server ℤ
      keep =
          modify (λ s. record s { url = url_of (h ∷ host) (d ∷ digits) (p ∷ path) })
          >> scan_ip (scan_until b':' ((h ∷ host) ++ (b':' ∷ ((d ∷ digits) ++ (p ∷ path)))))

-- A URL rtsp://host:port/path, whose host is at most 15 bytes without a colon, whose port is in digits
-- and below 2 ^ 32, whose path is at most 99 bytes without white space and does not begin with a digit,
-- and that has at most 127 bytes in all, is taken: the result is RET_SUCESS, and the URL, the host and
-- the port's value are stored.
pub parse_rtsp_url-url_of :
    {h d p : ℕ} {host digits path : Bytes} (w : IsAddress h host d digits p path) (s : Server)
    → length host < 15
    → parse_rtsp_url (url_of (h ∷ host) (d ∷ digits) (p ∷ path)) s
      ≡ done ret_sucess (record {
        url = url_of (h ∷ host) (d ∷ digits) (p ∷ path);
        server_ip = h ∷ host;
        server_port = value 0 (d ∷ digits);
      })
unfolding scan_ip
parse_rtsp_url-url_of {h} {d} {p} {host} {digits} {path} w s fits =
    to_host w s
    ∙ ap (λ (t : Bool). (if t then body else λ s. fault) stored)
        (lt→ltb (suc (length host)) 16 (omega arith))
    ∙ skip_colon_lem w (record stored { server_ip = h ∷ host })
  where
    stored : Server
    stored = record s { url = url_of (h ∷ host) (d ∷ digits) (p ∷ path) }

    body : M Server ℤ
    body =
        modify (λ s. record s { server_ip = h ∷ host })
        >> skip_colon (b':' ∷ ((d ∷ digits) ++ (p ∷ path)))

-- With a host of 16 bytes or more in such a URL serverIp is written past its end.
pub parse_rtsp_url_overflow :
    {h d p : ℕ} {host digits path : Bytes} (w : IsAddress h host d digits p path) (s : Server)
    → 15 ≤ length host
    → parse_rtsp_url (url_of (h ∷ host) (d ∷ digits) (p ∷ path)) s ≡ fault
unfolding scan_ip
parse_rtsp_url_overflow {h} {d} {p} {host} {digits} {path} w s long =
    to_host w s
    ∙ ap (λ (t : Bool). (if t then body else λ s. fault) stored)
        (le→ltb (suc (length host)) 16 (omega arith))
  where
    stored : Server
    stored = record s { url = url_of (h ∷ host) (d ∷ digits) (p ∷ path) }

    body : M Server ℤ
    body =
        modify (λ s. record s { server_ip = h ∷ host })
        >> skip_colon (b':' ∷ ((d ∷ digits) ++ (p ∷ path)))
