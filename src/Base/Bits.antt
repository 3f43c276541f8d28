-- ===== src/Base/Bits.antt =====
-- Laws of `bit_or` and `bit_and` that the bit macros of the program need.
use Prim.Native.Nat.{
  ℕ, zero, suc, ◌+◌, ◌-◌, ◌*◌, ◌/◌, ◌%◌, ◌^◌, ◌≤◌, ◌<◌, max, bit_or, digits, bit_or-bitwise,
}
use mathlib.Core.Path.{◌≡◌, refl, ap, ap₂, ◌∙◌}
use mathlib.Core.Bool.{Bool, true, ◌&&◌}
use native.Mathlib.Omega.{arith}
use native.Mathlib.Nat.{pow-suc}

-- A test holds of every number below a bound.
unfoldable pub every_below : (ℕ → Bool) → ℕ → Bool
every_below test zero = true
every_below test (suc k) = every_below test k && test k

pub every_below_lem :
    (test : ℕ → Bool) (k x : ℕ) → every_below test k ≡ true → x < k → test x ≡ true
unfolding every_below
every_below_lem test zero x all lt = absurd (omega arith)
every_below_lem test (suc k) x all lt = ground (arith, every_below_lem test k x)

-- `bit_or` with a count of binary digits that is at least the number of them in `a`.
abbrev or_digits : ℕ → ℕ → ℕ → ℕ
or_digits count a b = digits (λ b. b) max count a b

add-suc_left : (a more : ℕ) → suc more + a ≡ suc (more + a)
add-suc_left a more = omega arith

zero_add : (a : ℕ) → 0 + a ≡ a
zero_add a = omega arith

-- One digit more makes no difference,
or_digits-suc : (count a b : ℕ) → a ≤ count → or_digits (suc count) a b ≡ or_digits count a b
or_digits-suc zero zero b enough = refl
or_digits-suc (suc count) zero b enough = refl
or_digits-suc zero (suc a) b enough = absurd (omega arith)
or_digits-suc (suc count) (suc a) b enough =
    omega (arith, or_digits-suc count (suc a / 2) (b / 2) (omega arith))

-- and so neither do any number of them.
or_digits_more : (more count a b : ℕ) → count ≡ more + a → or_digits count a b ≡ or_digits a a b
or_digits_more zero count a b e = rw (e, zero_add a)
or_digits_more (suc more) count a b e = rw e (
    ap (λ (n : ℕ). or_digits n a b) (add-suc_left a more)
    ∙ or_digits-suc (more + a) a b (omega arith)
    ∙ or_digits_more more (more + a) a b refl)

or_digits_half :
    (a b : ℕ) → or_digits a (suc a / 2) (b / 2) ≡ or_digits (suc a / 2) (suc a / 2) (b / 2)
or_digits_half a b = or_digits_more (a - suc a / 2) a (suc a / 2) (b / 2) (omega arith)

pub bit_or-zero_left : (b : ℕ) → bit_or 0 b ≡ b
bit_or-zero_left b = bit_or-bitwise 0 b

bit_or_step : (a b : ℕ) → bit_or a b ≡ bit_or (a / 2) (b / 2) * 2 + max (a % 2) (b % 2)
bit_or_step zero b = omega (arith, bit_or-zero_left b, bit_or-zero_left (b / 2))
bit_or_step (suc a) b =
    omega (arith, bit_or-bitwise (suc a) b, bit_or-bitwise (suc a / 2) (b / 2), or_digits_half a b)

bit_or_double : (a b : ℕ) → bit_or (a * 2) b ≡ bit_or a (b / 2) * 2 + b % 2
bit_or_double a b =
    bit_or_step (a * 2) b
    ∙ ap (λ (n : ℕ). bit_or n (b / 2) * 2 + max (a * 2 % 2) (b % 2)) half
    ∙ omega arith
  where
    half : a * 2 / 2 ≡ a
    half = omega arith

bit_or-zero_right : (n a : ℕ) → a ≤ n → bit_or a 0 ≡ a
bit_or-zero_right zero zero h = refl
bit_or-zero_right zero (suc a) h = absurd (omega arith)
bit_or-zero_right (suc n) zero h = refl
bit_or-zero_right (suc n) (suc a) h =
    omega (arith, bit_or_step (suc a) 0, bit_or-zero_right n (suc a / 2) (omega arith))

-- `|` of a number shifted left by `k` and one of `k` bits is their sum.
pub bit_or_shifted : (k a b : ℕ) → b < 2 ^ k → bit_or (a * 2 ^ k) b ≡ a * 2 ^ k + b
bit_or_shifted zero a b h =
    ap₂ bit_or times_one no_bits ∙ bit_or-zero_right a a (omega arith) ∙ omega arith
  where
    times_one : a * 2 ^ 0 ≡ a
    times_one = omega arith

    no_bits : b ≡ 0
    no_bits = omega arith
bit_or_shifted (suc k) a b h =
    ap (λ (n : ℕ). bit_or n b) shifted
    ∙ bit_or_double (a * 2 ^ k) b
    ∙ omega (arith, bit_or_shifted k a (b / 2) small, shifted)
  where
    shifted : a * 2 ^ suc k ≡ a * 2 ^ k * 2
    shifted = rw pow-suc (omega arith)

    small : b / 2 < 2 ^ k
    small = omega (arith, pow-suc 2 k)
