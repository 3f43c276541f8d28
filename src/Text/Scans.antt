-- ===== src/Text/Scans.antt =====
-- The conversions on text that ends where they stop.
use canok_rtsp_client.Base.{
  ℕ, ◌-◌, ◌%◌, ◌^◌, ◌<◌, ◌==◌, ◌≡◌, refl, sym, ap, append-nil, ◌∙◌, lt→leb, not, if◌then◌else◌,
  Bool, true, false, some, Bytes, [], ◌∷◌, ◌++◌, arith,
}
use canok_rtsp_client.Text.{
  is_space, is_digit, span, some_bytes, skip_space, scan_word, scan_until, scan_unsigned, value,
  to_unsigned, sign, ◌>>=◌, bind-some,
}
use canok_rtsp_client.Text.Laws.{All, Stops, span-append}

pub scan_until_stop :
    (stop c : ℕ) (s rest : Bytes)
    → All (λ b. not (b == stop)) (c ∷ s)
    → Stops (λ b. not (b == stop)) rest
    → scan_until stop ((c ∷ s) ++ rest) ≡ some (c ∷ s, rest)
unfolding scan_until some_bytes
scan_until_stop stop c s rest all ends =
    ap some_bytes (span-append (λ b. not (b == stop)) (c ∷ s) rest all ends)

digit_no_space : (d : ℕ) → is_digit d ≡ true → is_space d ≡ false
unfolding is_digit is_space
digit_no_space d h = ground arith

sign_digit : (d : ℕ) (rest : Bytes) → is_digit d ≡ true → sign (d ∷ rest) ≡ (false, d ∷ rest)
unfolding is_digit sign
sign_digit d rest h = ground arith

span_none :
    (test : ℕ → Bool) (c : ℕ) (rest : Bytes)
    → test c ≡ false
    → span test (c ∷ rest) ≡ ([], c ∷ rest)
unfolding span
span_none test c rest h = rw h

skip_none : (c : ℕ) (rest : Bytes) → is_space c ≡ false → skip_space (c ∷ rest) ≡ c ∷ rest
unfolding skip_space
skip_none c rest h = ap (λ (r : Bytes × Bytes). r.1) (span_none is_space c rest h)

to_unsigned_small : (n : ℕ) → n < 4294967296 → to_unsigned false n % 2 ^ 32 ≡ n
unfolding to_unsigned
to_unsigned_small n h =
    ap (λ t. (if t then 2 ^ 64 - 1 else n) % 2 ^ 32) (lt→leb (2 ^ 64) n (omega arith)) ∙ omega arith

-- `%u` on digits.
pub scan_unsigned_digits :
    (d : ℕ) (digits rest : Bytes)
    → All is_digit (d ∷ digits)
    → Stops is_digit rest
    → value 0 (d ∷ digits) < 4294967296
    → scan_unsigned 32 ((d ∷ digits) ++ rest) ≡ some (value 0 (d ∷ digits), rest)
unfolding scan_unsigned some_bytes
scan_unsigned_digits d digits rest all ends small =
    ap
      (λ (m : Bool × Bytes). some_bytes (span is_digit m.1) >>= λ (n : Bytes × Bytes).
        some (to_unsigned m.0 (value 0 n.0) % 2 ^ 32, n.1))
      (ap sign (skip_none d (digits ++ rest) (digit_no_space d all.0))
        ∙ sign_digit d (digits ++ rest) all.0)
    ∙ bind-some (some_bytes (span is_digit ((d ∷ digits) ++ rest)))
        (λ (n : Bytes × Bytes). some (to_unsigned false (value 0 n.0) % 2 ^ 32, n.1))
        (ap some_bytes (span-append is_digit (d ∷ digits) rest all ends))
    ∙ ap (λ n. some (n, rest)) (to_unsigned_small (value 0 (d ∷ digits)) small)

-- `%s` on a word that ends the text.
pub scan_word-All :
    (c : ℕ) (s : Bytes) → All (λ b. not (is_space b)) (c ∷ s) → scan_word (c ∷ s) ≡ some (c ∷ s, [])
unfolding scan_word some_bytes
scan_word-All c s all =
    ap (λ t. some_bytes (span (λ b. not (is_space b)) t))
      (skip_none c s (is_true (is_space c) all.0))
    ∙ ap (λ t. some_bytes (span (λ b. not (is_space b)) (c ∷ t))) (sym (append-nil s))
    ∙ ap some_bytes (span-append (λ b. not (is_space b)) (c ∷ s) [] all tt)
  where
    is_true : (t : Bool) → not t ≡ true → t ≡ false
    is_true true h = cc h
    is_true false h = refl
