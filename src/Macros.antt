-- ===== src/Macros.antt =====
-- The macros of my_rtsp_client/com_debug.h: return codes, bit fields counted from the left of a
-- byte, and numbers of two and four bytes. The logging macros only print.
use Prim.Native.Nat.{bit_and, bit_or}
use canok_rtsp_client.Base.{
  ℕ, ◌+◌, ◌-◌, ◌*◌, ◌/◌, ◌%◌, ◌^◌, ◌≤◌, ◌<◌, ◌≡◌, refl, ap, ◌∙◌, Bool, true, le→leb, arith, ◌==◌,
  ==_iff, leb, if◌then◌else◌,
}
use canok_rtsp_client.Base.Int.{ℤ, pos, negsuc}
use canok_rtsp_client.Base.Bits.{every_below, every_below_lem, bit_or_shifted}

-- RET_SUCESS and RET_ERR.
abbrev pub ret_sucess : ℤ
ret_sucess = pos 0

abbrev pub ret_err : ℤ
ret_err = negsuc 0

-- LEFT_CHAR_BIT_GET_RAW on the byte `b`.
pub left_char_bit_get_raw : ℕ → ℕ → ℕ → ℕ
left_char_bit_get_raw b start len = bit_and b (2 ^ (8 - start) - 2 ^ (8 - start - len))

-- LEFT_CHAR_BIT_GET.
unfoldable pub left_char_bit_get : ℕ → ℕ → ℕ → ℕ
unfolding left_char_bit_get_raw
left_char_bit_get b start len = left_char_bit_get_raw b start len / 2 ^ (8 - start - len)

-- LITTLE_MAKE_UNINT16 on the bytes at `pData`. A shift by `k` is a product with `2 ^ k`.
unfoldable pub little_make_unint16 : ℕ → ℕ → ℕ
little_make_unint16 b0 b1 = bit_or (b0 * 2 ^ 8) b1

-- LITTLE_MAKE_UNINT32; the four bytes fit in a u_int32_t.
unfoldable pub little_make_unint32 : ℕ → ℕ → ℕ → ℕ → ℕ
little_make_unint32 b0 b1 b2 b3 =
    bit_or (bit_or (bit_or (b0 * 2 ^ 24) (b1 * 2 ^ 16)) (b2 * 2 ^ 8)) b3

-- RIGHT_CHAR_BIT_GET.
unfoldable pub right_char_bit_get : ℕ → ℕ → ℕ → ℕ
right_char_bit_get b start len = bit_and (b / 2 ^ start) (2 ^ len - 1)

abbrev field_holds : ℕ → ℕ → ℕ → Bool
field_holds start len b = left_char_bit_get b start len == b / 2 ^ (8 - start - len) % 2 ^ len

abbrev field_holds_all : ℕ → ℕ → Bool
field_holds_all start len =
    if leb (start + len) 8 then every_below (field_holds start len) 256 else true

field_table : every_below (λ start. every_below (field_holds_all start) 9) 9 ≡ true
unfolding every_below left_char_bit_get
field_table = refl

-- LEFT_CHAR_BIT_GET takes the `len` bits of a byte that stand `start` bits from its left end.
pub left_char_bit_get_lem :
    (b start len : ℕ)
    → b < 256
    → start + len ≤ 8
    → left_char_bit_get b start len ≡ b / 2 ^ (8 - start - len) % 2 ^ len
left_char_bit_get_lem b start len hb h =
    (==_iff _ _).0 (every_below_lem (field_holds start len) 256 b (rw (le→leb _ _ h) at row) hb)
  where
    row : field_holds_all start len ≡ true
    row =
        every_below_lem (field_holds_all start) 9 len
          (every_below_lem (λ s. every_below (field_holds_all s) 9) 9 start field_table
            (omega arith))
          (omega arith)

-- Despite their names, the two macros read bytes in network order, the highest first.
pub little_make_unint16_lem : (b0 b1 : ℕ) → b1 < 256 → little_make_unint16 b0 b1 ≡ b0 * 256 + b1
unfolding little_make_unint16
little_make_unint16_lem b0 b1 h = bit_or_shifted 8 b0 b1 h

pub little_make_unint32_lem :
    (b0 b1 b2 b3 : ℕ)
    → b1 < 256
    → b2 < 256
    → b3 < 256
    → little_make_unint32 b0 b1 b2 b3 ≡ ((b0 * 256 + b1) * 256 + b2) * 256 + b3
unfolding little_make_unint32
little_make_unint32_lem b0 b1 b2 b3 h1 h2 h3 =
    ap (λ (n : ℕ). bit_or (bit_or n (b2 * 2 ^ 8)) b3)
      (bit_or_shifted 24 b0 (b1 * 2 ^ 16) (omega arith) ∙ two)
    ∙ ap (λ (n : ℕ). bit_or n b3)
        (bit_or_shifted 16 (b0 * 256 + b1) (b2 * 2 ^ 8) (omega arith) ∙ three)
    ∙ bit_or_shifted 8 ((b0 * 256 + b1) * 256 + b2) b3 h3
  where
    two : b0 * 2 ^ 24 + b1 * 2 ^ 16 ≡ (b0 * 256 + b1) * 2 ^ 16
    two = omega arith

    three : (b0 * 256 + b1) * 2 ^ 16 + b2 * 2 ^ 8 ≡ ((b0 * 256 + b1) * 256 + b2) * 2 ^ 8
    three = omega arith
