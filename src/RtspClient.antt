-- ===== src/RtspClient.antt =====
-- The class cRTSPClient of my_rtsp_client/cRTSPClient.h and my_rtsp_client/cRTSPClient.cpp. Here: the address
-- of the server, as `parse_rtsp_url` finds it; the rest of the class is in the modules below.
pub mod Url
pub mod Address
pub mod Session
pub mod Requests
pub mod Api
pub mod World
mod Runs
mod Tests
use canok_rtsp_client.Base.{
  ℕ, ◌+◌, leb, ltb, if◌then◌else◌, Bool, true, false, Option, none, some, Bytes, [], ◌∷◌, length,
  drop,
}
use canok_rtsp_client.Base.Int.{ℤ}
use canok_rtsp_client.Base.Outcome.{M, fault, pure, ◌>>=◌, ◌>>◌, modify}
use canok_rtsp_client.Macros.{ret_sucess, ret_err}
use canok_rtsp_client.Text.{codes, starts_with_case, scan_until, scan_unsigned, scan_word}

-- The members that the address is kept in: the strings in mUrl and serverIp, and serverPort.
pub record Server : Type 0 where
  pub url : Bytes
  pub server_ip : Bytes
  pub server_port : ℕ

-- The last conversion, `%s` into `other`, of 100 bytes.
pub scan_other : Option (Bytes × Bytes) → M Server ℤ
scan_other none = pure ret_err
scan_other (some (other, rest)) = if ltb (length other) 100 then pure ret_sucess else λ s. fault

-- `%u` into the port, and on.
pub scan_server_port : Option (ℕ × Bytes) → M Server ℤ
unfolding scan_word scan_other
scan_server_port none = pure ret_err
scan_server_port (some (port, rest)) =
    modify (λ s. record s { server_port = port }) >> scan_other (scan_word rest)

-- `%*c`, and on.
pub skip_colon : Bytes → M Server ℤ
unfolding scan_unsigned scan_server_port
skip_colon [] = pure ret_err
skip_colon (c ∷ rest) = scan_server_port (scan_unsigned 32 rest)

-- `%[^:]` into serverIp, of 16 bytes, and on.
pub scan_ip : Option (Bytes × Bytes) → M Server ℤ
unfolding skip_colon
scan_ip none = pure ret_err
scan_ip (some (ip, rest)) =
    if ltb (length ip) 16
    then (modify (λ s. record s { server_ip = ip }) >> skip_colon rest)
    else λ s. fault

-- `parse_rtsp_url(url, serverIp, &serverPort)`, the only call; mUrl has 128 bytes. The 0 at the end of
-- serverIp changes no string that fits.
unfoldable pub parse_rtsp_url : Bytes → M Server ℤ
unfolding starts_with_case scan_until scan_ip
parse_rtsp_url url =
    if ltb 128 (length url + 1)
    then pure ret_err
    else (modify (λ s. record s { url = url })
        >> (if starts_with_case url (codes "rtsp://")
            then scan_ip (scan_until b':' (drop 7 url))
            else pure ret_err))
