-- ===== src/H264/Fragments.antt =====
-- A NAL unit cut into FU-A packets as RFC 6184 has it, and what the parser sees of their two header
-- bytes.
use Prim.Native.Nat.{bit_and, bit_or}
use canok_rtsp_client.Base.{
  ℕ, ◌+◌, ◌<◌, ◌≡◌, refl, sym, ap, ◌∙◌, append-nil, append_assoc, Bool, true, false, not, ◌&&◌,
  Bytes, List, [], ◌∷◌, ◌++◌, arith, ◌==◌, length, map,
}
use canok_rtsp_client.Base.Bits.{every_below, every_below_lem}
use canok_rtsp_client.H264.{NalType, fu_a, get_nal_type, fu_nal}

-- What stands at the receiver's pointer: the bytes of the packet, then what the slot held before.
pub record Packet : Type 0 where
  pub mem : Bytes
  pub len : ℕ

-- A part of a NAL unit, and the stale bytes behind its packet in the receiver's memory.
pub record Part : Type 0 where
  pub bytes : Bytes
  pub stale : Bytes

-- The FU indicator has the first three bits of the NAL unit's header byte, and the type 28.
abbrev pub fu_indicator : ℕ → ℕ
fu_indicator h = bit_or (bit_and h 0xe0) 28

-- The FU header has the start and end bits, and the type of the NAL unit.
abbrev pub start_header : ℕ → ℕ
start_header h = bit_or 0x80 (bit_and h 0x1f)

abbrev pub middle_header : ℕ → ℕ
middle_header h = bit_and h 0x1f

abbrev pub end_header : ℕ → ℕ
end_header h = bit_or 0x40 (bit_and h 0x1f)

abbrev pub fu_packet : ℕ → ℕ → Part → Packet
fu_packet h header p = record {
  mem = fu_indicator h ∷ header ∷ (p.bytes ++ p.stale);
  len = length p.bytes + 2;
}

-- The packets of the NAL unit with the header byte `h`, cut into a first part, others and a last.
abbrev pub fragments : ℕ → Part → List Part → Part → List Packet
fragments h first others last =
    fu_packet h (start_header h) first
    ∷ (map (fu_packet h (middle_header h)) others ++ (fu_packet h (end_header h) last ∷ []))

-- The bytes behind the header byte.
abbrev pub joined : List Part → Bytes
joined [] = []
joined (p ∷ ps) = p.bytes ++ joined ps

pub joined-concat : (ps : List Part) (p : Part) → joined (ps ++ (p ∷ [])) ≡ joined ps ++ p.bytes
joined-concat [] p = append-nil p.bytes
joined-concat (x ∷ ps) p =
    ap (λ b. x.bytes ++ b) (joined-concat ps p) ∙ sym (append_assoc x.bytes (joined ps) p.bytes)

abbrev is_fu_a : NalType → Bool
is_fu_a fu_a = true
is_fu_a _ = false

is_fu_a_lem : (t : NalType) → is_fu_a t ≡ true → t ≡ fu_a
is_fu_a_lem fu_a h = refl
is_fu_a_lem _ h = cc

abbrev header_facts : ℕ → Bool
header_facts h =
    is_fu_a (get_nal_type (fu_indicator h))
    && fu_nal (fu_indicator h) (start_header h) == h
    && not (bit_and (start_header h) 0x80 == 0)
    && bit_and (middle_header h) 0x80 == 0
    && bit_and (middle_header h) 0x40 == 0
    && bit_and (end_header h) 0x80 == 0
    && not (bit_and (end_header h) 0x40 == 0)

header_table : every_below header_facts 256 ≡ true
unfolding every_below get_nal_type fu_nal
header_table = refl

-- What the parser reads in the packets of a NAL unit.
pub record Headers (h : ℕ) : Type 0 where
  pub type : get_nal_type (fu_indicator h) ≡ fu_a
  pub nal : fu_nal (fu_indicator h) (start_header h) ≡ h
  pub start_bit : (bit_and (start_header h) 0x80 == 0) ≡ false
  pub middle_start : (bit_and (middle_header h) 0x80 == 0) ≡ true
  pub middle_end : (bit_and (middle_header h) 0x40 == 0) ≡ true
  pub end_start : (bit_and (end_header h) 0x80 == 0) ≡ true
  pub end_bit : (bit_and (end_header h) 0x40 == 0) ≡ false

pub Headers_lem : (h : ℕ) → h < 256 → Headers h
Headers_lem h lt = ground (
  arith,
  is_fu_a_lem (get_nal_type (fu_indicator h)),
  every_below_lem header_facts 256 h header_table lt,
)
