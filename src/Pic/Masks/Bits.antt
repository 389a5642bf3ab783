-- ===== src/Pic/Masks/Bits.antt =====
-- The effect of the masking expressions of student-distrib/i8259.c on each bit of a byte.
use linux_like_os_kernel.Prelude.{
  ℕ, ◌+◌, ◌/◌, ◌%◌, ◌^◌, ◌<◌, bit_and, bit_or, ltb, ◌==◌, if◌then◌else◌, ◌≡◌, Bool, true, ◌&&◌,
  holds_below, holds_below_lem, ==_iff, refl, arith,
}
use linux_like_os_kernel.Pic.{complement, line_bit}

abbrev pub bit_at : ℕ → ℕ → ℕ
bit_at x j = x / 2 ^ j % 2

-- All of the three values range over small tables.
table3 : (ℕ → ℕ → ℕ → Bool) → Bool
unfolding holds_below
table3 p = holds_below 256 (λ x. holds_below 8 (λ k. holds_below 8 (λ j. p x k j)))

table3_sound :
    (p : ℕ → ℕ → ℕ → Bool) (x k j : ℕ) → table3 p ≡ true → x < 256 → k < 8 → j < 8 → p x k j ≡ true
unfolding table3
table3_sound p x k j t hx hk hj =
    holds_below_lem 8 (p x k) j
      (holds_below_lem 8 (λ k'. holds_below 8 (p x k')) k
        (holds_below_lem 256 (λ x'. holds_below 8 (λ k'. holds_below 8 (p x' k'))) x t hx) hk)
      hj

abbrev enable_test : ℕ → ℕ → ℕ → Bool
enable_test x k j =
    bit_at (bit_and x (complement (line_bit k))) j == (if j == k then 0 else bit_at x j)

enable_table : table3 enable_test ≡ true
unfolding table3
enable_table = refl

pub bit_at-enable :
    (x k j : ℕ)
    → x < 256
    → k < 8
    → j < 8
    → bit_at (bit_and x (complement (line_bit k))) j ≡ (if j == k then 0 else bit_at x j)
bit_at-enable x k j hx hk hj = (==_iff _ _).0 (table3_sound enable_test x k j enable_table hx hk hj)

abbrev disable_test : ℕ → ℕ → ℕ → Bool
disable_test x k j =
    bit_at (bit_or x (complement (line_bit k))) j == (if j == k then bit_at x j else 1)

disable_table : table3 disable_test ≡ true
unfolding table3
disable_table = refl

pub bit_at-disable :
    (x k j : ℕ)
    → x < 256
    → k < 8
    → j < 8
    → bit_at (bit_or x (complement (line_bit k))) j ≡ (if j == k then bit_at x j else 1)
bit_at-disable x k j hx hk hj =
    (==_iff _ _).0 (table3_sound disable_test x k j disable_table hx hk hj)

abbrev range_test : ℕ → ℕ → ℕ → Bool
range_test x k j =
    ltb (bit_and x (complement (line_bit k))) 256 && ltb (bit_or x (complement (line_bit k))) 256

range_table : table3 range_test ≡ true
unfolding table3
range_table = refl

mask_range :
    (x k : ℕ)
    → x < 256
    → k < 8
    → (bit_and x (complement (line_bit k)) < 256) × (bit_or x (complement (line_bit k)) < 256)
mask_range x k hx hk = ground (arith, table3_sound range_test x k 0 range_table hx hk (omega arith))

pub enable_lt : (x k : ℕ) → x < 256 → k < 8 → bit_and x (complement (line_bit k)) < 256
enable_lt x k hx hk = (mask_range x k hx hk).0

pub disable_lt : (x k : ℕ) → x < 256 → k < 8 → bit_or x (complement (line_bit k)) < 256
disable_lt x k hx hk = (mask_range x k hx hk).1

abbrev eoi_test : ℕ → Bool
eoi_test k = bit_or 0x60 k == 0x60 + k

eoi_table : holds_below 8 eoi_test ≡ true
unfolding holds_below
eoi_table = refl

-- The end-of-interrupt byte does not overlap a line number.
pub eoi_line : (k : ℕ) → k < 8 → bit_or 0x60 k ≡ 0x60 + k
eoi_line k h = (==_iff _ _).0 (holds_below_lem 8 eoi_test k eoi_table h)
