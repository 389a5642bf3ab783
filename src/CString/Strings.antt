-- ===== src/CString/Strings.antt =====
-- student-distrib/lib.c: `strlen`, `strncmp`, `strcpy` and `strncpy` on terminated strings.
use linux_like_os_kernel.Prelude.{
  ℕ, zero, suc, ◌+◌, ◌-◌, ◌^◌, ◌<◌, ◌≤◌, ◌&&◌, ltb, leb, ◌==◌, if◌then◌else◌, pos, update, ◌≡◌, ◌≢◌,
  ◌↔◌, ◌⊎◌, inl, inr, arith, refl, Bool-cases, ℕ_discrete, subst,
}
use linux_like_os_kernel.Machine.{Memory}
use linux_like_os_kernel.CString.{
  strlen_from, strlen, strncmp_from, strncmp, strcpy_from, strcpy, strncpy_pad, strncpy_from,
  strncpy, address_space, int8_diff,
}

-- A string of `n` characters at `s`.
pub record IsString (m : Memory) (s n : ℕ) : Type 0 where
  pub nonzero : (i : ℕ) → i < n → m (s + i) ≢ 0
  pub ends : m (s + n) ≡ 0

strlen_from_lem :
    (fuel : ℕ) (m : Memory) (s n len : ℕ)
    → IsString m s n
    → len ≤ n
    → n < len + fuel
    → strlen_from fuel m s len ≡ n
unfolding strlen_from
strlen_from_lem zero m s n len str le lt = absurd (omega arith)
strlen_from_lem (suc fuel) m s n len str le lt =
    ground (arith, str.ends, str.nonzero len, strlen_from_lem fuel m s n (len + 1) str)

-- `strlen` returns the number of characters before the terminator, if that stands within the
-- 32-bit address space.
pub strlen_lem : (m : Memory) (s n : ℕ) → IsString m s n → n < 2 ^ 32 → strlen m s ≡ n
unfolding strlen
strlen_lem m s n str h = strlen_from_lem address_space m s n 0 str (omega arith) (omega arith)

-- The first `n` characters of two strings agree, up to a common terminator.
abbrev pub Agree : Memory → ℕ → ℕ → ℕ → ℕ → Type 0
Agree m s1 s2 from n =
    (i : ℕ)
    → from ≤ i
    → i < n
    → ((j : ℕ) → from ≤ j → j < i → m (s1 + j) ≢ 0)
    → m (s1 + i) ≡ m (s2 + i)

abbrev pub IsBytes : Memory → Type 0
IsBytes m = (a : ℕ) → m a < 256

int8_diff_eq : (a b : ℕ) → a < 256 → b < 256 → int8_diff a b ≡ pos 0 → a ≡ b
int8_diff_eq a b ha hb h = ground arith

strncmp_from_sound :
    (m : Memory) (s1 s2 i left : ℕ)
    → IsBytes m
    → strncmp_from m s1 s2 i left ≡ pos 0
    → Agree m s1 s2 i (i + left)
unfolding strncmp_from
strncmp_from_sound m s1 s2 i zero b h k le lt before = absurd (omega arith)
strncmp_from_sound m s1 s2 i (suc left) b h k le lt before = ground (
  arith,
  int8_diff_eq (m (s1 + i)) (m (s2 + i)) (b _) (b _),
  before i,
  λ (h' : strncmp_from m s1 s2 (i + 1) left ≡ pos 0) (p : i + 1 ≤ k).
      strncmp_from_sound m s1 s2 (i + 1) left b h' k p (omega arith)
        (λ j q r. before j (omega arith) r),
)

strncmp_from_complete :
    (m : Memory) (s1 s2 i left : ℕ)
    → Agree m s1 s2 i (i + left)
    → strncmp_from m s1 s2 i left ≡ pos 0
unfolding strncmp_from
strncmp_from_complete m s1 s2 i zero agree = refl
strncmp_from_complete m s1 s2 i (suc left) agree = ground (
  arith,
  agree i (omega arith) (omega arith) (λ j p q. absurd (omega arith)),
  λ (live : m (s1 + i) ≢ 0).
      strncmp_from_complete m s1 s2 (i + 1) left
        (λ k p q before. agree k (omega arith) (omega arith) (λ j r t. extend live before j r t)),
)
  where
    extend :
        m (s1 + i) ≢ 0
        → {k : ℕ} → ((j : ℕ) → i + 1 ≤ j → j < k → m (s1 + j) ≢ 0)
        → (j : ℕ) → i ≤ j
        → j < k
        → m (s1 + j) ≢ 0
    extend live before j r t = elim (ℕ_discrete i j) [
      | yes e ↦ subst (λ x. m (s1 + x) ≢ 0) e live
      | no ne ↦ before j (omega arith) t
    ]

-- `strncmp` returns 0 exactly when the two strings agree on their first `n` characters or up to a
-- common terminator before that, if memory holds bytes.
pub strncmp_iff :
    (m : Memory) (s1 s2 n : ℕ) → IsBytes m → (strncmp m s1 s2 n ≡ pos 0) ↔ Agree m s1 s2 0 n
unfolding strncmp
strncmp_iff m s1 s2 n b = (
  λ h i le lt. strncmp_from_sound m s1 s2 0 n b h i le (omega arith),
  λ agree. strncmp_from_complete m s1 s2 0 n (λ i le lt. agree i le (omega arith)),
)

-- A write outside of a string leaves it a string.
pub IsString-update :
    (m : Memory) (s n p v : ℕ)
    → IsString m s n
    → (p < s) ⊎ (s + n < p)
    → IsString (update m p v) s n
IsString-update m s n p v str out = record {
  nonzero = λ i h. ground (arith, str.nonzero i h);
  ends = ground (arith, str.ends);
}

-- Two ranges of `n + 1` bytes have no byte in common.
abbrev pub Apart : ℕ → ℕ → ℕ → Type 0
Apart dest src n = (dest + n < src) ⊎ (src + n < dest)

strcpy_from_lem :
    (fuel dest src i n : ℕ) (m : Memory)
    → IsString m src n
    → Apart dest src n
    → i ≤ n
    → n < i + fuel
    → (a : ℕ)
    → strcpy_from fuel dest src i m a
      ≡ (if leb (dest + i) a && leb a (dest + n) then m (src + (a - dest)) else m a)
unfolding strcpy_from
strcpy_from_lem zero dest src i n m str apart le lt a = absurd (omega arith)
strcpy_from_lem (suc fuel) dest src i n m str apart le lt a = elim (Bool-cases (m (src + i) == 0)) [
  | inl e ↦ rw (e, strcpy_from) (ground (arith, str.ends, str.nonzero i))
  | inr e ↦
      let less : i < n = ground (arith, str.ends) in
      rw (e, strcpy_from)
        (ground (
          arith,
          strcpy_from_lem fuel dest src (i + 1) n (update m (dest + i) (m (src + i)))
              (IsString-update m src n (dest + i) _ str (omega arith)) apart (omega arith)
              (omega arith) a,
        ))
]

-- `strcpy` copies the string and its terminator to the destination and changes no other byte, if
-- the two do not overlap and the string ends within the address space.
pub strcpy_lem :
    (dest src n : ℕ) (m : Memory)
    → IsString m src n
    → Apart dest src n
    → n < 2 ^ 32
    → (a : ℕ)
    → strcpy dest src m a ≡ (if leb dest a && leb a (dest + n) then m (src + (a - dest)) else m a)
unfolding strcpy
strcpy_lem dest src n m str apart h a =
    rw (strcpy_from_lem address_space dest src 0 n m str apart (omega arith) (omega arith) a)
      (ground arith)

strncpy_pad_lem :
    (dest i left : ℕ) (m : Memory) (a : ℕ)
    → strncpy_pad dest i left m a ≡ (if leb (dest + i) a && ltb a (dest + i + left) then 0 else m a)
unfolding strncpy_pad
strncpy_pad_lem dest i zero m a = ground arith
strncpy_pad_lem dest i (suc left) m a =
    ground (arith, strncpy_pad_lem dest (i + 1) left (update m (dest + i) 0) a)

-- What `strncpy` leaves at offset `j` of its destination: the source's character up to its
-- terminator at `k`, then zeros.
abbrev pub padded : Memory → ℕ → ℕ → ℕ → ℕ
padded m src k j = if ltb j k then m (src + j) else 0

strncpy_from_lem :
    (dest src i left k : ℕ) (m : Memory)
    → ((j : ℕ) → j < k → m (src + j) ≢ 0)
    → (k ≡ i + left) ⊎ (m (src + k) ≡ 0)
    → i ≤ k
    → k ≤ i + left
    → (dest + (i + left) ≤ src) ⊎ (src + (i + left) ≤ dest)
    → (a : ℕ)
    → strncpy_from dest src i left m a
      ≡ (if leb (dest + i) a && ltb a (dest + i + left) then padded m src k (a - dest) else m a)
unfolding strncpy_from
strncpy_from_lem dest src i zero k m live stop lo hi apart a = ground arith
strncpy_from_lem dest src i (suc left) k m live stop lo hi apart a =
    elim (Bool-cases (m (src + i) == 0)) [
      | inl e ↦ rw (e, strncpy_from) (ground (arith, live i, strncpy_pad_lem dest i (suc left) m a))
      | inr e ↦
          let less : i < k = ground arith in
          rw (e, strncpy_from)
            (ground (
              arith,
              strncpy_from_lem dest src (i + 1) left k (update m (dest + i) (m (src + i)))
                  (λ j lt. ground (arith, live j lt)) (ground arith) (omega arith) (omega arith)
                  (ground arith) a,
            ))
    ]

-- `strncpy` fills the `n` bytes at its destination with the source's characters up to its
-- terminator, of which there are `k` and no more than `n`, and with zeros behind them; without a
-- terminator among the first `n` it copies `n` characters. No other byte changes, if the two
-- ranges do not overlap.
pub strncpy_lem :
    (dest src n k : ℕ) (m : Memory)
    → ((j : ℕ) → j < k → m (src + j) ≢ 0)
    → (k ≡ n) ⊎ (m (src + k) ≡ 0)
    → k ≤ n
    → (dest + n ≤ src) ⊎ (src + n ≤ dest)
    → (a : ℕ)
    → strncpy dest src n m a
      ≡ (if leb dest a && ltb a (dest + n) then padded m src k (a - dest) else m a)
unfolding strncpy
strncpy_lem dest src n k m live stop hi apart a = ground (
  arith,
  strncpy_from_lem dest src 0 n k m live (omega arith) (omega arith) (omega arith) (omega arith) a,
)
