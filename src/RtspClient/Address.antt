-- ===== src/RtspClient/Address.antt =====
-- `parse_rtsp_url` of my_rtsp_client/cRTSPClient.cpp, whatever the URL: what it stores in mUrl.
use canok_rtsp_client.Base.{
  ℕ, ◌+◌, ◌≤◌, ◌≡◌, refl, ◌⊎◌, if◌then◌else◌, ltb, Bool, true, false, Bool-cases, inl, inr, Option,
  none, some, Bytes, [], ◌∷◌, arith, length, drop,
}
use canok_rtsp_client.Base.Int.{ℤ}
use canok_rtsp_client.Base.Outcome.{Outcome, done, waits, fault, pure, ◌>>◌, modify}
use canok_rtsp_client.Base.Returns.{Returns, Leaves, Runs}
use canok_rtsp_client.Macros.{ret_sucess, ret_err}
use canok_rtsp_client.Text.{codes, starts_with_case, scan_until, scan_unsigned, scan_word}
use canok_rtsp_client.RtspClient.{
  Server, scan_other, scan_server_port, skip_colon, scan_ip, parse_rtsp_url,
}

KeepsUrl : Server → Server → Type 0
KeepsUrl s t = t.url ≡ s.url

scan_other-KeepsUrl : (o : Option (Bytes × Bytes)) → Runs KeepsUrl (scan_other o)
unfolding KeepsUrl scan_other
scan_other-KeepsUrl none s = refl
scan_other-KeepsUrl (some (w, rest)) s = by_size (ltb (length w) 100)
  where
    by_size : (fits : Bool) → Leaves KeepsUrl s ((if fits then pure ret_sucess else λ s. fault) s)
    by_size true = refl
    by_size false = tt

scan_server_port-KeepsUrl : (o : Option (ℕ × Bytes)) → Runs KeepsUrl (scan_server_port o)
unfolding KeepsUrl scan_server_port
scan_server_port-KeepsUrl none s = refl
scan_server_port-KeepsUrl (some (port, rest)) s =
    scan_other-KeepsUrl (scan_word rest) (record s { server_port = port })

skip_colon-KeepsUrl : (text : Bytes) → Runs KeepsUrl (skip_colon text)
unfolding KeepsUrl skip_colon
skip_colon-KeepsUrl [] s = refl
skip_colon-KeepsUrl (c ∷ rest) s = scan_server_port-KeepsUrl (scan_unsigned 32 rest) s

scan_ip-KeepsUrl : (o : Option (Bytes × Bytes)) → Runs KeepsUrl (scan_ip o)
unfolding KeepsUrl scan_ip
scan_ip-KeepsUrl none s = refl
scan_ip-KeepsUrl (some (ip, rest)) s = by_size (ltb (length ip) 16)
  where
    by_size :
        (fits : Bool)
        → Leaves KeepsUrl s (
            (if fits then (modify (λ s. record s { server_ip = ip }) >> skip_colon rest) else λ s.
            fault)
              s)
    by_size true = skip_colon-KeepsUrl rest (record s { server_ip = ip })
    by_size false = tt

abbrev pub Stores : Bytes → ℤ → Server → Type 0
Stores url r t = (r ≡ ret_err) ⊎ ((t.url ≡ url) × (length url ≤ 127))

-- A URL of more than 127 bytes is refused; any other one is stored, also where it is not well formed.
pub parse_rtsp_url-Stores : (url : Bytes) (s : Server) → Returns (Stores url) (parse_rtsp_url url s)
unfolding parse_rtsp_url KeepsUrl
parse_rtsp_url-Stores url s = elim (Bool-cases (ltb 128 (length url + 1))) [
  | inl long ↦ rw long (inl refl)
  | inr short ↦ rw short (kept (short_of short) (starts_with_case url (codes "rtsp://")))
]
  where
    stored : Server
    stored = record s { url = url }

    short_of : ltb 128 (length url + 1) ≡ false → length url ≤ 127
    short_of h = ground arith

    of_scan :
        length url ≤ 127
        → (o : Outcome Server ℤ) → Leaves KeepsUrl stored o
        → Returns (Stores url) o
    of_scan size (done r t) h = inr (h, size)
    of_scan size (waits t) h = tt
    of_scan size fault h = tt

    kept :
        length url ≤ 127
        → (ok : Bool)
        → Returns
            (Stores url)
            ((if ok then scan_ip (scan_until b':' (drop 7 url)) else pure ret_err) stored)
    kept size true =
        of_scan size (scan_ip (scan_until b':' (drop 7 url)) stored)
          (scan_ip-KeepsUrl (scan_until b':' (drop 7 url)) stored)
    kept size false = inl refl
