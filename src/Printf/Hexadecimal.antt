-- ===== src/Printf/Hexadecimal.antt =====
-- student-distrib/lib.c: the digits that "%u", "%x" and "%#x" print.
use linux_like_os_kernel.Prelude.{
  ℕ, zero, suc, ◌+◌, ◌-◌, ◌*◌, ◌^◌, ◌<◌, ◌≤◌, ◌==◌, true, false, List, [], ◌∷◌, length, fill,
  fill_inside, fill_outside, ◌≡◌, inr, refl, arith, ap, ◌∙◌, sym, dec_lt, add-zero, add-suc,
  zero-add,
}
use linux_like_os_kernel.Machine.{Memory}
use linux_like_os_kernel.CString.{itoa}
use linux_like_os_kernel.CString.Strings.{IsString, strlen_lem}
use linux_like_os_kernel.CString.Digits.{number, digit_value, IsNumeral, itoa-IsNumeral}
use linux_like_os_kernel.Printf.{chars, conv_size, fresh_buf, numeral, padded_numeral}

-- The value that a list of digits spells, read from the highest place after `acc`.
abbrev pub value_from : ℕ → ℕ → List ℕ → ℕ
value_from radix acc [] = acc
value_from radix acc (c ∷ s) = value_from radix (acc * radix + digit_value c) s

-- The `n` characters of a string from offset `k` on.
chars_lem :
    (fuel : ℕ) (m : Memory) (p k n radix : ℕ)
    → IsString m p (k + n)
    → n < fuel
    → (length (chars fuel m (p + k)) ≡ n)
      × (value_from radix (number m p radix k) (chars fuel m (p + k)) ≡ number m p radix (k + n))
unfolding chars number
chars_lem zero m p k n radix str h = absurd (omega arith)
chars_lem (suc fuel) m p k zero radix str h = ground (arith, str.ends)
chars_lem (suc fuel) m p k (suc n) radix str h = ground (
  arith,
  str.nonzero k (omega arith),
  chars_lem fuel m p (suc k) n radix
      (record { nonzero = λ i lt. str.nonzero i (omega arith); ends = ground (arith, str.ends) })
      (omega arith),
)

chars_all :
    (fuel : ℕ) (m : Memory) (p n radix : ℕ)
    → IsString m p n
    → n < fuel
    → (length (chars fuel m p) ≡ n) × (value_from radix 0 (chars fuel m p) ≡ number m p radix n)
unfolding number
chars_all fuel m p n radix str h =
    let all = chars_lem fuel m p 0 n radix (rw zero-add str) h in
    (rw add-zero at all.0, rw (add-zero, zero-add) at all.1)

-- Each character is a digit of the radix.
abbrev pub AreDigits : ℕ → List ℕ → Type 0
AreDigits radix [] = Unit {0}
AreDigits radix (c ∷ s) = (digit_value c < radix) × AreDigits radix s

chars-AreDigits :
    (fuel : ℕ) (m : Memory) (p n radix : ℕ)
    → IsString m p n
    → n < fuel
    → ((i : ℕ) → i < n → digit_value (m (p + i)) < radix)
    → AreDigits radix (chars fuel m p)
unfolding chars
chars-AreDigits zero m p n radix str h digits = absurd (omega arith)
chars-AreDigits (suc fuel) m p zero radix str h digits = rw (ends_here, chars) tt
  where
    ends_here : (m p == 0) ≡ true
    ends_here = ground (arith, str.ends)
chars-AreDigits (suc fuel) m p (suc n) radix str h digits =
    rw (live, chars)
      (
        ground (arith, digits 0),
        chars-AreDigits fuel m (p + 1) n radix
            (record {
              nonzero = λ i lt. ground (arith, str.nonzero (i + 1));
              ends = ground (arith, str.ends);
            })
            (omega arith) (λ i lt. ground (arith, digits (i + 1))),
      )
  where
    live : (m p == 0) ≡ false
    live = ground (arith, str.nonzero 0)

-- `numeral` gives the digits of the value: at most `bound` of them, if it is below
-- `radix ^ bound`.
pub numeral_lem :
    (value radix bound : ℕ)
    → 2 ≤ radix
    → radix ≤ 36
    → 0 < bound
    → bound ≤ 32
    → value < radix ^ bound
    → (0 < length (numeral value radix))
      × (length (numeral value radix) ≤ bound)
      × (value_from radix 0 (numeral value radix) ≡ value)
unfolding numeral number
numeral_lem value radix bound lo hi pos_bound le h =
    let all =
      chars_all conv_size (itoa value 0 radix fresh_buf) 0 d.n radix d.string
        (omega (arith, d.short)) in
    (rw all.0 d.nonempty, rw all.0 d.short, all.1 ∙ d.value)
  where
    d : IsNumeral fresh_buf (itoa value 0 radix fresh_buf) 0 radix value bound
    d = itoa-IsNumeral value 0 radix bound fresh_buf lo hi pos_bound le h

-- Zeros in front of a number do not change its value.
number_padded :
    (m m' : Memory) (p z n radix : ℕ)
    → ((i : ℕ) → i < z → m' (p + i) ≡ b'0')
    → ((a : ℕ) → p + z ≤ a → m' a ≡ m a)
    → number m' p radix (z + n) ≡ number m (p + z) radix n
unfolding number
number_padded m m' p z zero radix zeros same = rw add-zero (all_zero z zeros)
  where
    all_zero : (k : ℕ) → ((i : ℕ) → i < k → m' (p + i) ≡ b'0') → number m' p radix k ≡ 0
    all_zero zero h = refl
    all_zero (suc k) h = ground (arith, h k, all_zero k (λ i lt. h i (omega arith)))
number_padded m m' p z (suc n) radix zeros same =
    rw (add-suc) (ground (arith, number_padded m m' p z n radix zeros same, same (p + (z + n))))

-- "%#x" prints exactly 8 digits, from `0` to `9` and `A` to `F`, which spell the value of any uint32_t.
pub padded_numeral_lem :
    (value : ℕ)
    → value < 2 ^ 32
    → (length (padded_numeral value) ≡ 8)
      × AreDigits 16 (padded_numeral value)
      × (value_from 16 0 (padded_numeral value) ≡ value)
unfolding padded_numeral number
padded_numeral_lem value h =
    rw (strlen_lem conv 8 d.n d.string (omega (arith, d.short)), padded_numeral)
      (all.0, chars-AreDigits conv_size padded d.n 8 16 string (omega arith) hex, value_eq)
  where
    conv : Memory
    conv = itoa value 8 16 fresh_buf

    d : IsNumeral fresh_buf conv 8 16 value 8
    d =
        itoa-IsNumeral value 8 16 8 fresh_buf (omega arith) (omega arith) (omega arith)
          (omega arith) h

    padded : Memory
    padded = fill conv d.n (λ i. b'0') (8 - d.n)

    zeros : (i : ℕ) → i < 8 - d.n → padded (d.n + i) ≡ b'0'
    zeros i lt = fill_inside conv d.n (λ k. b'0') (8 - d.n) i lt

    same : (a : ℕ) → d.n + (8 - d.n) ≤ a → padded a ≡ conv a
    same a le = fill_outside conv d.n (λ k. b'0') (8 - d.n) a (inr le)

    string : IsString padded d.n 8
    string = record {
      nonzero = λ i lt. elim (dec_lt i (8 - d.n)) [
        | yes z ↦ ground (arith, zeros i z)
        | no z ↦ ground (arith, same (d.n + i), d.short, d.string.nonzero (d.n + i - 8))
      ];
      ends = ground (arith, same (d.n + 8), d.short, d.string.ends);
    }

    hex : (i : ℕ) → i < 8 → digit_value (padded (d.n + i)) < 16
    hex i lt = elim (dec_lt i (8 - d.n)) [
      | yes z ↦ ground (arith, zeros i z)
      | no z ↦ ground (arith, same (d.n + i), d.short, d.digits (d.n + i - 8))
    ]

    all :
        (length (chars conv_size padded d.n) ≡ 8)
        × (value_from 16 0 (chars conv_size padded d.n) ≡ number padded d.n 16 8)
    all = chars_all conv_size padded d.n 8 16 string (omega arith)

    split : (8 - d.n) + d.n ≡ 8
    split = omega (arith, d.short)

    split' : d.n + (8 - d.n) ≡ 8
    split' = omega (arith, d.short)

    value_eq : value_from 16 0 (chars conv_size padded d.n) ≡ value
    value_eq =
        all.1
        ∙ ap (number padded d.n 16) (sym split)
        ∙ number_padded conv padded d.n (8 - d.n) d.n 16 zeros same
        ∙ ap (λ q. number conv q 16 d.n) split'
        ∙ d.value
