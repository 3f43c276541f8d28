-- ===== src/Text.antt =====
-- C strings, and what my_rtsp_client/cRTSPprotocol.cpp and my_rtsp_client/cRTSPClient.cpp use of the
-- functions on them: strncmp, strncasecmp, and the conversions of sscanf. A pointer into a string is the
-- list of the bytes from there to the terminating 0.
pub mod Laws
pub mod Scans
pub mod Print
use Prim.Native.Char.{code}
use Prim.Native.String.{String}
use canok_rtsp_client.Base.{
  ℕ, zero, suc, ◌+◌, ◌-◌, ◌*◌, ◌%◌, ◌^◌, ◌==◌, leb, ltb, if◌then◌else◌, ◌&&◌, ◌||◌, not, Bool, true,
  false, Option, none, some, Bytes, List, [], ◌∷◌, ◌≡◌, ap,
}

-- The bytes of an ASCII literal.
abbrev pub codes : String → Bytes
codes String.[] = []
codes (String.◌∷◌ c s) = code c ∷ codes s

-- The string at the start of a piece of memory.
unfoldable pub c_string : Bytes → Bytes
c_string [] = []
c_string (zero ∷ bs) = []
c_string (suc b ∷ bs) = suc b ∷ c_string bs

unfoldable pub lower : ℕ → ℕ
lower c = if leb b'A' c && leb c b'Z' then c + 32 else c

-- `strncmp(s, p, strlen(p)) == 0`.
unfoldable pub starts_with : Bytes → Bytes → Bool
starts_with s [] = true
starts_with [] (b ∷ p) = false
starts_with (c ∷ s) (b ∷ p) = c == b && starts_with s p

-- `strncasecmp(s, p, strlen(p)) == 0`.
unfoldable pub starts_with_case : Bytes → Bytes → Bool
unfolding lower
starts_with_case s [] = true
starts_with_case [] (b ∷ p) = false
starts_with_case (c ∷ s) (b ∷ p) = lower c == lower b && starts_with_case s p

-- `strcmp(s, t) == 0`.
unfoldable pub str_equal : Bytes → Bytes → Bool
str_equal [] [] = true
str_equal [] (b ∷ t) = false
str_equal (c ∷ s) [] = false
str_equal (c ∷ s) (b ∷ t) = c == b && str_equal s t

unfoldable pub is_space : ℕ → Bool
is_space c = c == 32 || (leb 9 c && leb c 13)

unfoldable pub is_digit : ℕ → Bool
is_digit c = leb b'0' c && leb c b'9'

-- The longest start of a string whose bytes pass a test, and the rest.
unfoldable pub span : (ℕ → Bool) → Bytes → Bytes × Bytes
span test [] = ([], [])
span test (c ∷ s) = let r = span test s in if test c then (c ∷ r.0, r.1) else ([], c ∷ s)

-- White space in a format.
unfoldable pub skip_space : Bytes → Bytes
unfolding is_space span
skip_space s = (span is_space s).1

infixl 5 ◌>>=◌
abbrev pub ◌>>=◌ : {A B : Type 0} → Option A → (A → Option B) → Option B
o >>= f = elim o [ none ↦ none | some a ↦ f a ]

pub bind-some :
    {A B : Type 0} (o : Option A) (f : A → Option B) {a : A} → o ≡ some a → (o >>= f) ≡ f a
bind-some o f e = ap (λ o. o >>= f) e

-- Other characters of a format.
unfoldable pub scan_literal : Bytes → Bytes → Option Bytes
scan_literal [] s = some s
scan_literal (b ∷ p) [] = none
scan_literal (b ∷ p) (c ∷ s) = if c == b then scan_literal p s else none

-- A conversion that takes at least one byte.
pub some_bytes : Bytes × Bytes → Option (Bytes × Bytes)
some_bytes ([], rest) = none
some_bytes (c ∷ s, rest) = some (c ∷ s, rest)

-- `%s`.
unfoldable pub scan_word : Bytes → Option (Bytes × Bytes)
unfolding skip_space is_space span some_bytes
scan_word s = some_bytes (span (λ c. not (is_space c)) (skip_space s))

-- `%[^c]`.
unfoldable pub scan_until : ℕ → Bytes → Option (Bytes × Bytes)
unfolding span some_bytes
scan_until stop s = some_bytes (span (λ c. not (c == stop)) s)

unfoldable pub value : ℕ → Bytes → ℕ
value n [] = n
value n (d ∷ ds) = value (n * 10 + (d - b'0')) ds

-- What strtoul makes of the digits: it stops at ULONG_MAX, and a minus sign negates modulo 2 ^ 64.
unfoldable pub to_unsigned : Bool → ℕ → ℕ
to_unsigned minus n =
    if leb (2 ^ 64) n then 2 ^ 64 - 1 else if minus then (2 ^ 64 - n) % 2 ^ 64 else n

pub sign : Bytes → Bool × Bytes
sign [] = (false, [])
sign (c ∷ s) = if c == b'-' then (true, s) else if c == b'+' then (false, s) else (false, c ∷ s)

-- `%u` for `w` = 32, `%hu` for `w` = 16.
unfoldable pub scan_unsigned : ℕ → Bytes → Option (ℕ × Bytes)
unfolding skip_space is_space is_digit span some_bytes value to_unsigned sign
scan_unsigned w s = do
  let (minus, t) = sign (skip_space s)
  (ds, rest) ← some_bytes (span is_digit t)
  some (to_unsigned minus (value 0 ds) % 2 ^ w, rest)
