-- ===== src/RtpClient/Header.antt =====
-- RTP headers: what `set_header_info` of my_rtsp_client/cRTPClient.cpp reads in the bytes that RFC 3550
-- has for a header.
use canok_rtsp_client.Base.{
  ℕ, ◌+◌, ◌*◌, ◌/◌, ◌%◌, ◌<◌, ◌≡◌, ap, ◌∙◌, Bytes, [], ◌∷◌, ◌++◌, arith, some,
}
use canok_rtsp_client.Base.Outcome.{done, or_fault, pure, ◌>>=◌}
use canok_rtsp_client.Macros.{
  left_char_bit_get, left_char_bit_get_lem, little_make_unint16, little_make_unint16_lem,
  little_make_unint32, little_make_unint32_lem, ret_sucess,
}
use canok_rtsp_client.RtpClient.{RtpPackHeaderInfo, RtpClient, read_header, set_header_info}

-- The widths of the fields.
pub record IsHeader (h : RtpPackHeaderInfo) : Type 0 where
  pub version_bits : h.version < 4
  pub marker_bit : h.marker < 2
  pub payload_type_bits : h.payload_type < 128
  pub sequence_number_bits : h.sequence_number < 65536
  pub time_stamp_bits : h.time_stamp < 4294967296
  pub ssrc_bits : h.ssrc < 4294967296

-- A number in network order.
abbrev pub net_16 : ℕ → Bytes
net_16 n = (n / 256) ∷ (n % 256) ∷ []

abbrev pub net_32 : ℕ → Bytes
net_32 n = (n / 16777216) ∷ (n / 65536 % 256) ∷ (n / 256 % 256) ∷ (n % 256) ∷ []

-- The fixed header of RFC 3550; `flags` are the padding and extension bits and the CSRC count.
abbrev pub header_bytes : ℕ → RtpPackHeaderInfo → Bytes
header_bytes flags h =
    (h.version * 64 + flags)
    ∷ (h.marker * 128 + h.payload_type)
    ∷ (net_16 h.sequence_number ++ (net_32 h.time_stamp ++ net_32 h.ssrc))

version_lem : (v flags : ℕ) → v < 4 → flags < 64 → left_char_bit_get (v * 64 + flags) 0 2 ≡ v
version_lem v flags hv hf =
    left_char_bit_get_lem (v * 64 + flags) 0 2 (omega arith) (omega arith) ∙ omega arith

marker_lem : (m t : ℕ) → m < 2 → t < 128 → left_char_bit_get (m * 128 + t) 0 1 ≡ m
marker_lem m t hm ht =
    left_char_bit_get_lem (m * 128 + t) 0 1 (omega arith) (omega arith) ∙ omega arith

payload_type_lem : (m t : ℕ) → m < 2 → t < 128 → left_char_bit_get (m * 128 + t) 1 7 ≡ t
payload_type_lem m t hm ht =
    left_char_bit_get_lem (m * 128 + t) 1 7 (omega arith) (omega arith) ∙ omega arith

make_16_lem : (n : ℕ) → little_make_unint16 (n / 256) (n % 256) ≡ n
make_16_lem n = little_make_unint16_lem (n / 256) (n % 256) (omega arith) ∙ omega arith

make_32_lem :
    (n : ℕ) → little_make_unint32 (n / 16777216) (n / 65536 % 256) (n / 256 % 256) (n % 256) ≡ n
make_32_lem n =
    little_make_unint32_lem (n / 16777216) (n / 65536 % 256) (n / 256 % 256) (n % 256) (omega arith)
      (omega arith) (omega arith)
    ∙ omega arith

pub read_header-header_bytes :
    (flags : ℕ) (h : RtpPackHeaderInfo) (rest : Bytes)
    → flags < 64
    → IsHeader h
    → read_header (header_bytes flags h ++ rest) ≡ some h
unfolding read_header
read_header-header_bytes flags h rest hf w = rw (
  version_lem h.version flags w.version_bits hf,
  marker_lem h.marker h.payload_type w.marker_bit w.payload_type_bits,
  payload_type_lem h.marker h.payload_type w.marker_bit w.payload_type_bits,
  make_16_lem h.sequence_number,
  make_32_lem h.time_stamp,
  make_32_lem h.ssrc,
)

-- `set_header_info` reads back every field of a header laid out as in RFC 3550, whatever the other
-- bits of its first byte and the bytes behind it are, and returns RET_SUCESS.
pub set_header_info-header_bytes :
    (flags : ℕ) (h : RtpPackHeaderInfo) (rest : Bytes) (info : RtpPackHeaderInfo) (c : RtpClient)
    → flags < 64
    → IsHeader h
    → set_header_info (some (header_bytes flags h ++ rest)) info c ≡ done (ret_sucess, h) c
unfolding set_header_info
set_header_info-header_bytes flags h rest info c hf w =
    ap (λ o. (or_fault {S = RtpClient} o >>= λ i. pure (ret_sucess, i)) c)
      (read_header-header_bytes flags h rest hf w)
