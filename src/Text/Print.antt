-- ===== src/Text/Print.antt =====
-- `%d` of snprintf, and that `%u` of sscanf reads it back.
use canok_rtsp_client.Base.{
  ℕ, zero, suc, ◌+◌, ◌-◌, ◌*◌, ◌/◌, ◌%◌, ◌<◌, ◌≤◌, ◌≡◌, refl, ap, ◌∙◌, ltb, ltb→lt, if◌then◌else◌,
  Bool, true, Bool-cases, inl, inr, some, Bytes, [], ◌∷◌, ◌++◌, arith, length, length-append,
}
use canok_rtsp_client.Base.Int.{ℤ, pos, negsuc, pos_part, neg_part}
use canok_rtsp_client.Text.{is_digit, scan_unsigned, value}
use canok_rtsp_client.Text.Laws.{All, Stops}
use canok_rtsp_client.Text.Scans.{scan_unsigned_digits}

-- The digits of a number, on fuel above it.
pub print_digits : ℕ → ℕ → Bytes
print_digits zero n = []
print_digits (suc fuel) n =
    let rest = print_digits fuel (n / 10) ++ ((b'0' + n % 10) ∷ []) in
    if ltb n 10 then (b'0' + n) ∷ [] else rest

unfoldable pub print_nat : ℕ → Bytes
unfolding print_digits
print_nat n = print_digits (suc n) n

unfoldable pub print_int : ℤ → Bytes
unfolding print_nat
print_int (pos n) = print_nat n
print_int (negsuc n) = b'-' ∷ print_nat (suc n)

print_run : print_int (negsuc 14999) ≡ b'-' ∷ b'1' ∷ b'5' ∷ b'0' ∷ b'0' ∷ b'0' ∷ []
unfolding print_int
print_run = refl

value-append :
    (acc d : ℕ) (xs : Bytes) → value acc (xs ++ (d ∷ [])) ≡ value acc xs * 10 + (d - b'0')
unfolding value
value-append acc d [] = refl
value-append acc d (x ∷ xs) = value-append (acc * 10 + (x - b'0')) d xs

All-append : (test : ℕ → Bool) (xs ys : Bytes) → All test xs → All test ys → All test (xs ++ ys)
All-append test [] ys hx hy = hy
All-append test (x ∷ xs) ys hx hy = (hx.0, All-append test xs ys hx.1 hy)

digit_of : (n : ℕ) → n < 10 → is_digit (b'0' + n) ≡ true
unfolding is_digit
digit_of n h = ground arith

print_digits_lem :
    (fuel n : ℕ)
    → n < fuel
    → (value 0 (print_digits fuel n) ≡ n)
      × All is_digit (print_digits fuel n)
      × (1 ≤ length (print_digits fuel n))
unfolding print_digits value
print_digits_lem zero n h = absurd (omega arith)
print_digits_lem (suc fuel) n h = elim (Bool-cases (ltb n 10)) [
  | inl small ↦ rw small (omega arith, (digit_of n (ltb→lt n 10 small), tt), omega arith)
  | inr large ↦ rw large (
      let (same, digits, some_digit) = print_digits_lem fuel (n / 10) (ground arith) in
      (
        value-append 0 (b'0' + n % 10) (print_digits fuel (n / 10)) ∙ omega (arith, same),
        All-append is_digit (print_digits fuel (n / 10)) _ digits
            (digit_of (n % 10) (omega arith), tt),
        omega (arith, length-append (print_digits fuel (n / 10)) ((b'0' + n % 10) ∷ [])),
      ))
]

scan_nonempty :
    (s rest : Bytes)
    → 1 ≤ length s
    → All is_digit s
    → Stops is_digit rest
    → value 0 s < 4294967296
    → scan_unsigned 32 (s ++ rest) ≡ some (value 0 s, rest)
scan_nonempty [] rest h all ends small = absurd (omega arith)
scan_nonempty (d ∷ s) rest h all ends small = scan_unsigned_digits d s rest all ends small

-- `%u` reads back what `%d` printed.
pub scan_unsigned-print_nat :
    (n : ℕ) (rest : Bytes)
    → n < 4294967296
    → Stops is_digit rest
    → scan_unsigned 32 (print_nat n ++ rest) ≡ some (n, rest)
unfolding print_nat
scan_unsigned-print_nat n rest small ends =
    let (same, digits, some_digit) = print_digits_lem (suc n) n (omega arith) in
    scan_nonempty (print_digits (suc n) n) rest some_digit digits ends (omega (arith, same))
    ∙ ap (λ m. some (m, rest)) same

-- The least number of `k + 1` digits.
abbrev tens : ℕ → ℕ
tens zero = 1
tens (suc k) = 10 * tens k

length-print_digits : (k fuel n : ℕ) → n < tens k → n < fuel → length (print_digits fuel n) ≤ suc k
unfolding print_digits
length-print_digits k zero n h f = absurd (omega arith)
length-print_digits zero (suc fuel) zero h f = omega arith
length-print_digits zero (suc fuel) (suc n) h f = absurd (omega arith)
length-print_digits (suc k) (suc fuel) n h f = elim (Bool-cases (ltb n 10)) [
  | inl small ↦ rw small (omega arith)
  | inr large ↦ rw large (
      omega (
        arith,
        length-append (print_digits fuel (n / 10)) ((b'0' + n % 10) ∷ []),
        length-print_digits k fuel (n / 10) (omega arith) (ground arith),
      ))
]

-- A number below 2 ^ 32 prints to a few bytes.
pub length-print_nat : (n : ℕ) → n < 4294967296 → length (print_nat n) ≤ 11
unfolding print_nat
length-print_nat n h = length-print_digits 10 (suc n) n (omega arith) (omega arith)

-- So does a number of 17 bits with its sign.
pub length-print_int : (n : ℤ) → pos_part n + neg_part n ≤ 65536 → length (print_int n) ≤ 7
unfolding print_int print_nat
length-print_int (pos n) h =
    omega (arith, length-print_digits 5 (suc n) n (omega arith) (omega arith))
length-print_int (negsuc n) h =
    omega (arith, length-print_digits 5 (suc (suc n)) (suc n) (omega arith) (omega arith))
