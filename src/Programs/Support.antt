-- ===== src/Programs/Support.antt =====
-- syscalls/ece391support.c: the functions that programs share, against those of the kernel.
use linux_like_os_kernel.Prelude.{
  ℕ, zero, suc, ◌+◌, ◌-◌, ◌/◌, ◌<◌, is_zero, sub_ℕ, ℤ, ◌||◌, pos, not, true, false, ltb, leb, ◌==◌,
  if◌then◌else◌, update, ◌≡◌, inl, inr, refl, arith, Bool-cases, ◌∙◌, ap, ==_iff, sym, add_assoc,
  add-zero,
}
use linux_like_os_kernel.Machine.{Memory}
use linux_like_os_kernel.CString.{
  address_space, int8_diff, strncmp, strncmp_from, strlen, strlen_from, strcpy, strcpy_from, strrev,
  strrev_between, strrev_loop, itoa, itoa_loop,
}
use linux_like_os_kernel.CString.Strings.{IsBytes}
use linux_like_os_kernel.Programs.{
  strlen_loop, ece391_strlen, strcpy_loop, ece391_strcpy, strncmp_loop, ece391_strncmp, swap_loop,
  ece391_strrev, place_loop, ece391_itoa,
}

strlen_loop_lem :
    (fuel : ℕ) (m : Memory) (s len : ℕ)
    → strlen_loop fuel m (s + len) len ≡ strlen_from fuel m s len
unfolding strlen_loop strlen_from
strlen_loop_lem zero m s len = refl
strlen_loop_lem (suc fuel) m s len = elim (Bool-cases (m (s + len) == 0)) [
  | inl e ↦ rw (e, strlen_loop, strlen_from) refl
  | inr e ↦ rw (e, strlen_loop, strlen_from, add_assoc s len 1) (strlen_loop_lem fuel m s (len + 1))
]

strcpy_loop_lem :
    (fuel dst src i : ℕ) (m : Memory)
    → strcpy_loop fuel (dst + i) (src + i) m ≡ strcpy_from fuel dst src i m
unfolding strcpy_loop strcpy_from
strcpy_loop_lem zero dst src i m = refl
strcpy_loop_lem (suc fuel) dst src i m = elim (Bool-cases (m (src + i) == 0)) [
  | inl e ↦ rw (e, strcpy_loop, strcpy_from) (ap (update m (dst + i)) ((==_iff _ 0).0 e))
  | inr e ↦
      rw (e, strcpy_loop, strcpy_from, add_assoc dst i 1, add_assoc src i 1)
        (strcpy_loop_lem fuel dst src (i + 1) (update m (dst + i) (m (src + i))))
]

swap_loop_lem :
    (fuel s beg end : ℕ) (m : Memory) → swap_loop fuel s beg end m ≡ strrev_loop fuel s beg end m
unfolding swap_loop strrev_loop
swap_loop_lem zero s beg end m = refl
swap_loop_lem (suc fuel) s beg end m = elim (Bool-cases (ltb beg end)) [
  | inl e ↦ rw (e, swap_loop, strrev_loop) (swap_loop_lem fuel s (beg + 1) (end - 1) _)
  | inr e ↦ rw (e, swap_loop, strrev_loop) refl
]

place_loop_lem :
    (fuel newval newbuf radix : ℕ) (m : Memory)
    → place_loop fuel newval newbuf radix m ≡ itoa_loop fuel newval newbuf radix m
unfolding place_loop itoa_loop
place_loop_lem zero newval newbuf radix m = refl
place_loop_lem (suc fuel) newval newbuf radix m = elim (Bool-cases (ltb 0 newval)) [
  | inl e ↦
      rw (e, more newval e, place_loop, itoa_loop)
        (place_loop_lem fuel (newval / radix) (newbuf + 1) radix _)
  | inr e ↦ rw (e, done newval e, place_loop, itoa_loop) refl
]
  where
    more : (v : ℕ) → ltb 0 v ≡ true → (v == 0) ≡ false
    more v h = ground arith

    done : (v : ℕ) → ltb 0 v ≡ false → (v == 0) ≡ true
    done v h = ground arith

strlen_start : (fuel : ℕ) (m : Memory) (s : ℕ) → strlen_loop fuel m s 0 ≡ strlen_from fuel m s 0
strlen_start fuel m s =
    ap (λ k. strlen_loop fuel m k 0) (sym (add-zero s)) ∙ strlen_loop_lem fuel m s 0

strcpy_start :
    (fuel dst src : ℕ) (m : Memory) → strcpy_loop fuel dst src m ≡ strcpy_from fuel dst src 0 m
strcpy_start fuel dst src m =
    ap (λ k. strcpy_loop fuel k src m) (sym (add-zero dst))
    ∙ ap (λ k. strcpy_loop fuel (dst + 0) k m) (sym (add-zero src))
    ∙ strcpy_loop_lem fuel dst src 0 m

ece391_strlen_lem : (m : Memory) (s : ℕ) → ece391_strlen m s ≡ strlen m s
unfolding ece391_strlen strlen
ece391_strlen_lem m s = strlen_start address_space m s

ece391_strcpy_lem : (dst src : ℕ) (m : Memory) → ece391_strcpy dst src m ≡ strcpy dst src m
unfolding ece391_strcpy strcpy
ece391_strcpy_lem dst src m = strcpy_start address_space dst src m

ece391_strrev_lem : (s : ℕ) (m : Memory) → ece391_strrev s m ≡ strrev s m
unfolding ece391_strrev strrev
ece391_strrev_lem s m = rw (ece391_strlen_lem m s) (by_length (strlen m s))
  where
    too_long : (n : ℕ) → leb (suc (suc n)) 1 ≡ false
    too_long n = ground arith

    before : (n : ℕ) → suc (suc n) - 1 ≡ suc n
    before n = omega arith

    by_length : (n : ℕ) → (if leb n 1 then m else swap_loop n s 0 (n - 1) m) ≡ strrev_between s n m
    by_length zero = refl
    by_length (suc zero) = unfold strrev_loop in refl
    by_length (suc (suc n)) = rw (too_long n) (
        ap (λ k. swap_loop (suc (suc n)) s 0 k m) (before n)
        ∙ swap_loop_lem (suc (suc n)) s 0 (suc n) m)

ece391_itoa_lem :
    (value buf radix : ℕ) (m : Memory) → ece391_itoa value buf radix m ≡ itoa value buf radix m
unfolding ece391_itoa itoa
ece391_itoa_lem value buf radix m = elim (Bool-cases (value == 0)) [
  | inl e ↦ rw (e, ece391_itoa, itoa) refl
  | inr e ↦
      rw (e, ece391_itoa, itoa)
        (ece391_strrev_lem buf (place_loop 33 value buf radix m)
          ∙ ap (strrev buf) (place_loop_lem 33 value buf radix m))
]

differ_sub : (a b : ℕ) → (a == b) ≡ false → is_zero (sub_ℕ a b) ≡ false
differ_sub a b h = ground arith

differ_int8 : (a b : ℕ) → a < 256 → b < 256 → (a == b) ≡ false → is_zero (int8_diff a b) ≡ false
differ_int8 a b ha hb h = ground arith

same_int8 : (a b : ℕ) → (a == b) ≡ true → is_zero (int8_diff a b) ≡ true
same_int8 a b h = ground arith

-- One round of the two loops, with what the next round gives.
strncmp_round :
    (a b k : ℕ) (r r' : ℤ)
    → a < 256
    → b < 256
    → is_zero r ≡ is_zero r'
    → (k ≡ 0 → is_zero r' ≡ true)
    → is_zero (elim (a == b) as (λ o. ℤ) [
      | true ↦ elim (a == 0 || k == 0) as (λ o. ℤ) [ true ↦ pos 0 | false ↦ r ]
      | false ↦ sub_ℕ a b
    ])
      ≡ is_zero (elim (not (a == b) || a == 0) as (λ o. ℤ) [ true ↦ int8_diff a b | false ↦ r' ])
strncmp_round a b k r r' ha hb e last = elim (Bool-cases (a == b)) [
  | inr ne ↦ rw ne (differ_sub a b ne ∙ sym (differ_int8 a b ha hb ne))
  | inl eq ↦ elim (Bool-cases (a == 0)) [
    | inl end ↦ rw (eq, end) (sym (same_int8 a b eq))
    | inr live ↦ elim (Bool-cases (k == 0)) [
      | inl stop ↦ rw (eq, live, stop) (sym (last ((==_iff k 0).0 stop)))
      | inr more ↦ rw (eq, live, more) e
    ]
  ]
]

strncmp_loop_lem :
    (m : Memory) (s1 s2 n i : ℕ)
    → IsBytes m
    → is_zero (strncmp_loop m (s1 + i) (s2 + i) n) ≡ is_zero (strncmp_from m s1 s2 i n)
unfolding strncmp_loop strncmp_from
strncmp_loop_lem m s1 s2 zero i b = refl
strncmp_loop_lem m s1 s2 (suc n) i b =
    strncmp_round (m (s1 + i)) (m (s2 + i)) n _ _ (b (s1 + i)) (b (s2 + i))
      (rw (add_assoc s1 i 1, add_assoc s2 i 1) (strncmp_loop_lem m s1 s2 n (i + 1) b))
      (λ z. ap (λ k. is_zero (strncmp_from m s1 s2 (i + 1) k)) z)

ece391_strncmp_lem :
    (m : Memory) (s1 s2 n : ℕ)
    → IsBytes m
    → is_zero (ece391_strncmp m s1 s2 n) ≡ is_zero (strncmp m s1 s2 n)
unfolding ece391_strncmp strncmp
ece391_strncmp_lem m s1 s2 n b = elim (Bool-cases (n == 0)) [
  | inl e ↦
      rw (e, ece391_strncmp) (ap (λ k. is_zero (strncmp_from m s1 s2 0 k)) (sym ((==_iff n 0).0 e)))
  | inr e ↦
      rw (e, ece391_strncmp)
        (ap (λ k. is_zero (strncmp_loop m k s2 n)) (sym (add-zero s1))
          ∙ ap (λ k. is_zero (strncmp_loop m (s1 + 0) k n)) (sym (add-zero s2))
          ∙ strncmp_loop_lem m s1 s2 n 0 b)
]

-- The functions of ece391support.c do what those of the kernel do: the length of a string, a copy, a
-- reversal, the digits of a number, and whether the first `n` characters of two strings are the same,
-- if memory holds bytes.
pub support_lem :
    (dst src value radix n : ℕ) (m : Memory)
    → IsBytes m
    → (ece391_strlen m src ≡ strlen m src)
      × (ece391_strcpy dst src m ≡ strcpy dst src m)
      × (ece391_strrev src m ≡ strrev src m)
      × (ece391_itoa value src radix m ≡ itoa value src radix m)
      × (is_zero (ece391_strncmp m dst src n) ≡ is_zero (strncmp m dst src n))
support_lem dst src value radix n m b = (
  ece391_strlen_lem m src,
  ece391_strcpy_lem dst src m,
  ece391_strrev_lem src m,
  ece391_itoa_lem value src radix m,
  ece391_strncmp_lem m dst src n b,
)
