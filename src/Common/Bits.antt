-- ===== src/Common/Bits.antt =====
-- `&` with a mask of ones, and `|` of numbers with no common digit, as remainders and sums.
use Prim.Native.Nat.{
  ℕ, zero, suc, ◌+◌, ◌-◌, ◌*◌, ◌/◌, ◌%◌, ◌≤◌, ◌<◌, min, max, bit_and, bit_or, digits,
  bit_and-bitwise, bit_or-bitwise,
}
use mathlib.Core.Path.{◌≡◌, refl, ap, ap₂, sym, ◌∙◌}
use native.Mathlib.Omega.{arith}
use native.Mathlib.Nat.{mod-lt, div-add-mod'}

-- The count of digits to go does not matter once it is large enough.
digits_fuel :
    (z : ℕ → ℕ) (f : ℕ → ℕ → ℕ) (n m a b : ℕ) → a ≤ n → a ≤ m → digits z f n a b ≡ digits z f m a b
digits_fuel z f zero zero zero b p q = refl
digits_fuel z f zero (suc m) zero b p q = refl
digits_fuel z f zero m (suc a) b p q = absurd (omega arith)
digits_fuel z f (suc n) zero zero b p q = refl
digits_fuel z f (suc n) zero (suc a) b p q = absurd (omega arith)
digits_fuel z f (suc n) (suc m) zero b p q = refl
digits_fuel z f (suc n) (suc m) (suc a) b p q =
    ap (λ k. k * 2 + f (suc a % 2) (b % 2))
      (digits_fuel z f n m (suc a / 2) (b / 2) (omega arith) (omega arith))

bit_and_step : (a b : ℕ) → bit_and a b ≡ bit_and (a / 2) (b / 2) * 2 + min (a % 2) (b % 2)
bit_and_step zero b = omega (arith, bit_and-bitwise 0 b, bit_and-bitwise 0 (b / 2))
bit_and_step (suc a) b = omega (
  arith,
  bit_and-bitwise (suc a) b,
  bit_and-bitwise (suc a / 2) (b / 2),
  digits_fuel (λ _. 0) min a (suc a / 2) (suc a / 2) (b / 2) (omega arith) (omega arith),
)

bit_or_step : (a b : ℕ) → bit_or a b ≡ bit_or (a / 2) (b / 2) * 2 + max (a % 2) (b % 2)
bit_or_step zero b = omega (arith, bit_or-bitwise 0 b, bit_or-bitwise 0 (b / 2))
bit_or_step (suc a) b = omega (
  arith,
  bit_or-bitwise (suc a) b,
  bit_or-bitwise (suc a / 2) (b / 2),
  digits_fuel (λ d. d) max a (suc a / 2) (suc a / 2) (b / 2) (omega arith) (omega arith),
)

bit_and-zero : (n a : ℕ) → a ≤ n → bit_and a 0 ≡ 0
bit_and-zero n zero h = refl
bit_and-zero zero (suc a) h = absurd (omega arith)
bit_and-zero (suc n) (suc a) h =
    omega (arith, bit_and_step (suc a) 0, bit_and-zero n (suc a / 2) (omega arith))

bit_or-zero : (n a : ℕ) → a ≤ n → bit_or a 0 ≡ a
bit_or-zero n zero h = refl
bit_or-zero zero (suc a) h = absurd (omega arith)
bit_or-zero (suc n) (suc a) h =
    omega (arith, bit_or_step (suc a) 0, bit_or-zero n (suc a / 2) (omega arith))

-- `2 ^ k`, which doubles with each step.
abbrev pub power : ℕ → ℕ
power zero = 1
power (suc k) = power k * 2

power-positive : (k : ℕ) → 0 < power k
power-positive zero = omega arith
power-positive (suc k) = omega (arith, power-positive k)

bit_and_low : (k q r : ℕ) → r < power k → bit_and (q * power k + r) (power k - 1) ≡ r
bit_and_low zero q r h = omega (arith, bit_and-zero (q * 1 + r) (q * 1 + r) (omega arith))
bit_and_low (suc k) q r h =
    let a = q * (power k * 2) + r in
    let half : a / 2 ≡ q * power k + r / 2 = omega arith in
    let ones : (power k * 2 - 1) / 2 ≡ power k - 1 = omega (arith, power-positive k) in
    let e : bit_and (a / 2) ((power k * 2 - 1) / 2) ≡ r / 2 =
      ap₂ bit_and half ones ∙ bit_and_low k q (r / 2) (omega arith) in
    omega (arith, bit_and_step a (power k * 2 - 1), e, power-positive k)

-- `a & (2^k - 1)`
pub bit_and_mask : (k a : ℕ) → bit_and a (power k - 1) ≡ a % power k
bit_and_mask k a =
    let e : a / power k * power k + a % power k ≡ a = div-add-mod' a (power k) in
    ap (λ n. bit_and n (power k - 1)) (sym e)
    ∙ bit_and_low k (a / power k) (a % power k) (mod-lt a (power-positive k))

-- `a<<k | b`, for a `b` of `k` digits.
pub bit_or_low : (k q r : ℕ) → r < power k → bit_or (q * power k) r ≡ q * power k + r
bit_or_low zero q r h =
    let e : r ≡ 0 = omega arith in
    ap (bit_or (q * 1)) e ∙ omega (arith, bit_or-zero (q * 1) (q * 1) (omega arith))
bit_or_low (suc k) q r h =
    let a = q * (power k * 2) in
    let half : a / 2 ≡ q * power k = omega arith in
    let e : bit_or (a / 2) (r / 2) ≡ q * power k + r / 2 =
      ap (λ n. bit_or n (r / 2)) half ∙ bit_or_low k q (r / 2) (omega arith) in
    omega (arith, bit_or_step a r, e)
