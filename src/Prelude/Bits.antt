-- ===== src/Prelude/Bits.antt =====
-- `|` of a multiple of a power of 2 and a number below it is their sum, and `&` with a mask is a field of bits.
use Prim.Native.Nat.{
  ℕ, zero, suc, ◌+◌, ◌*◌, ◌/◌, ◌^◌, ◌<◌, ◌≤◌, min, max, bit_or, bit_and, digits, bit_or-bitwise,
  bit_and-bitwise,
}
use mathlib.Core.Path.{◌≡◌, refl, ap, ◌∙◌}
use native.Mathlib.Omega.{arith}
use native.Mathlib.Nat.{pow-suc, pow-zero, add-mul}

-- The recursion on digits behind `bit_or`, with any count that is not below the first number.
digits_with_zero : (count a : ℕ) → a ≤ count → digits (λ d. d) max count a 0 ≡ a
digits_with_zero zero zero h = refl
digits_with_zero zero (suc a) h = absurd (omega arith)
digits_with_zero (suc count) zero h = refl
digits_with_zero (suc count) (suc a) h =
    omega (arith, digits_with_zero count (suc a / 2) (omega arith))

digits_multiple :
    (k count a q r : ℕ)
    → a ≡ q * 2 ^ k
    → a ≤ count
    → r < 2 ^ k
    → digits (λ d. d) max count a r ≡ a + r
digits_multiple zero count a q r e le lt = rw none_left (digits_with_zero count a le ∙ omega arith)
  where
    none_left : r ≡ 0
    none_left = omega (arith, pow-zero 2)
digits_multiple (suc k) zero zero q r e le lt = omega arith
digits_multiple (suc k) zero (suc a) q r e le lt = absurd (omega arith)
digits_multiple (suc k) (suc count) zero q r e le lt = omega arith
digits_multiple (suc k) (suc count) (suc a) q r e le lt = omega (
  arith,
  twice,
  digits_multiple k count (suc a / 2) q (r / 2) (omega (arith, twice)) (omega arith)
      (omega (arith, pow-suc 2 k)),
)
  where
    twice : suc a ≡ 2 * (q * 2 ^ k)
    twice = omega (arith, e, ap (λ (t : ℕ). q * t) (pow-suc 2 k))

pub bit_or_low : (k q r : ℕ) → r < 2 ^ k → bit_or (q * 2 ^ k) r ≡ q * 2 ^ k + r
bit_or_low k q r lt =
    bit_or-bitwise (q * 2 ^ k) r
    ∙ digits_multiple k (q * 2 ^ k) (q * 2 ^ k) q r refl (omega arith) lt

digits_no_mask : (count a : ℕ) → a ≤ count → digits (λ d. 0) min count a 0 ≡ 0
digits_no_mask zero a h = refl
digits_no_mask (suc count) zero h = refl
digits_no_mask (suc count) (suc a) h = omega (arith, digits_no_mask count (suc a / 2) (omega arith))

-- `&` with a mask of the lowest `k` bits, as the recursion on digits computes it.
digits_low :
    (k count a q t mask : ℕ)
    → a ≡ q * 2 ^ k + t
    → t < 2 ^ k
    → mask + 1 ≡ 2 ^ k
    → a ≤ count
    → digits (λ d. 0) min count a mask ≡ t
digits_low zero count a q t mask e lt m le =
    rw none_masked (omega (arith, digits_no_mask count a le, lt, pow-zero 2))
  where
    none_masked : mask ≡ 0
    none_masked = omega (arith, m, pow-zero 2)
digits_low (suc k) zero a q t mask e lt m le = omega (arith, e, le)
digits_low (suc k) (suc count) zero q t mask e lt m le = omega (arith, e)
digits_low (suc k) (suc count) (suc a) q t mask e lt m le = omega (
  arith,
  e,
  m,
  pow-suc 2 k,
  twice,
  digits_low k count (suc a / 2) q (t / 2) (mask / 2) (omega (arith, e, twice))
      (omega (arith, lt, pow-suc 2 k)) (omega (arith, m, pow-suc 2 k)) (omega arith),
)
  where
    twice : q * 2 ^ suc k ≡ 2 * (q * 2 ^ k)
    twice = omega (arith, ap (λ (t : ℕ). q * t) (pow-suc 2 k))

digits_field :
    (j k count a q t r part mask : ℕ)
    → a ≡ (q * 2 ^ k + t) * 2 ^ j + r
    → t < 2 ^ k
    → r < 2 ^ j
    → part + 1 ≡ 2 ^ k
    → mask ≡ part * 2 ^ j
    → a ≤ count
    → digits (λ d. 0) min count a mask ≡ t * 2 ^ j
digits_field zero k count a q t r part mask e lt lr m d le =
    digits_low k count a q t mask (omega (arith, e, lr)) lt (omega (arith, d, m)) le ∙ omega arith
digits_field (suc j) k zero a q t r part mask e lt lr m d le =
    omega (arith, e, add-mul (q * 2 ^ k) t (2 ^ suc j))
digits_field (suc j) k (suc count) zero q t r part mask e lt lr m d le =
    omega (arith, e, add-mul (q * 2 ^ k) t (2 ^ suc j))
digits_field (suc j) k (suc count) (suc a) q t r part mask e lt lr m d le = omega (
  arith,
  d,
  twice part,
  twice t,
  digits_field j k count (suc a / 2) q t (r / 2) part (mask / 2)
      (omega (arith, e, twice (q * 2 ^ k + t))) lt (omega (arith, lr, pow-suc 2 j)) m
      (omega (arith, d, twice part)) (omega arith),
)
  where
    twice : (x : ℕ) → x * 2 ^ suc j ≡ 2 * (x * 2 ^ j)
    twice x = omega (arith, ap (λ (t : ℕ). x * t) (pow-suc 2 j))

-- `&` with a mask of `k` bits from bit `j` on.
pub bit_and_field :
    (j k a q t r part : ℕ)
    → a ≡ (q * 2 ^ k + t) * 2 ^ j + r
    → t < 2 ^ k
    → r < 2 ^ j
    → part + 1 ≡ 2 ^ k
    → bit_and a (part * 2 ^ j) ≡ t * 2 ^ j
bit_and_field j k a q t r part e lt lr m =
    bit_and-bitwise a (part * 2 ^ j)
    ∙ digits_field j k a a q t r part (part * 2 ^ j) e lt lr m refl (omega arith)
