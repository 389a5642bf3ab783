-- ===== src/CString/Copy.antt =====
-- student-distrib/lib.c: `memset`, `memcpy` and `memmove`, which work by aligned double words, against
-- what they do to each byte.
use linux_like_os_kernel.Prelude.{
  ℕ, zero, suc, ◌+◌, ◌-◌, ◌*◌, ◌/◌, ◌%◌, ◌<◌, ◌≤◌, true, ◌&&◌, ltb, leb, ◌==◌, if◌then◌else◌,
  update, ◌≡◌, ◌⊎◌, inl, inr, arith, refl, Bool-cases, bit_and, holds_below, holds_below_lem,
  ==_iff,
}
use linux_like_os_kernel.Machine.{Memory}
use linux_like_os_kernel.CString.{
  store_bytes, store_dwords, memset_top, memset, move_bytes, move_dwords, memcpy_top, memcpy,
  move_bytes_down, memmove,
}

-- The byte at `a` after the `n` bytes at `d` have been set to `c`.
abbrev pub stored : Memory → ℕ → ℕ → ℕ → ℕ → ℕ
stored m d c n a = if leb d a && ltb a (d + n) then c else m a

-- The byte at `a` after the `n` bytes at `s` have been copied to `d`.
abbrev pub copied : Memory → ℕ → ℕ → ℕ → ℕ → ℕ
copied m d s n a = if leb d a && ltb a (d + n) then m (s + (a - d)) else m a

store_bytes_lem : (n d c : ℕ) (m : Memory) (a : ℕ) → store_bytes d c n m a ≡ stored m d c n a
unfolding store_bytes
store_bytes_lem zero d c m a = ground arith
store_bytes_lem (suc n) d c m a = ground (arith, store_bytes_lem n (d + 1) c (update m d c) a)

store_dwords_lem :
    (n d c : ℕ) (m : Memory) (a : ℕ) → store_dwords d c n m a ≡ stored m d c (n * 4) a
unfolding store_dwords
store_dwords_lem zero d c m a = ground arith
store_dwords_lem (suc n) d c m a = ground (
  arith,
  store_dwords_lem n (d + 4) c
      (update (update (update (update m d c) (d + 1) c) (d + 2) c) (d + 3) c) a,
)

memset_top_lem : (n d c : ℕ) (m : Memory) (a : ℕ) → memset_top d c n m a ≡ stored m d c n a
unfolding memset_top
memset_top_lem zero d c m a = ground arith
memset_top_lem (suc n) d c m a = elim (Bool-cases (d % 4 == 0)) [
  | inl e ↦
      rw (e, memset_top)
        (ground (
          arith,
          store_bytes_lem (suc n % 4) (d + suc n / 4 * 4) c (store_dwords d c (suc n / 4) m) a,
          store_dwords_lem (suc n / 4) d c m a,
        ))
  | inr e ↦ rw (e, memset_top) (ground (arith, memset_top_lem n (d + 1) c (update m d c) a))
]

-- `memset` sets the `n` bytes at `s` to the byte `c` and changes no other, at any alignment.
pub memset_lem : (s c n : ℕ) (m : Memory) → c < 256 → (a : ℕ) → memset s c n m a ≡ stored m s c n a
unfolding memset
memset_lem s c n m h a = ground (arith, low_byte c h, memset_top_lem n s (bit_and c 0xFF) m a)
  where
    table : holds_below 256 (λ x. bit_and x 0xFF == x) ≡ true
    table = unfold holds_below in refl

    low_byte : (x : ℕ) → x < 256 → bit_and x 0xFF ≡ x
    low_byte x lt = (==_iff _ _).0 (holds_below_lem 256 _ x table lt)

-- Two ranges of `n` bytes have no byte in common.
abbrev pub Disjoint : ℕ → ℕ → ℕ → Type 0
Disjoint d s n = (d + n ≤ s) ⊎ (s + n ≤ d)

-- Copying upwards also works where the destination lies below the source.
move_bytes_lem :
    (n d s : ℕ) (m : Memory)
    → (d ≤ s) ⊎ (s + n ≤ d)
    → (a : ℕ) → move_bytes d s n m a ≡ copied m d s n a
unfolding move_bytes
move_bytes_lem zero d s m h a = ground arith
move_bytes_lem (suc n) d s m h a =
    ground (arith, move_bytes_lem n (d + 1) (s + 1) (update m d (m s)) (omega arith) a)

move_dwords_lem :
    (n d s : ℕ) (m : Memory)
    → Disjoint d s (n * 4)
    → (a : ℕ) → move_dwords d s n m a ≡ copied m d s (n * 4) a
unfolding move_dwords
move_dwords_lem zero d s m h a = ground arith
move_dwords_lem (suc n) d s m h a = ground (
  arith,
  move_dwords_lem n (d + 4) (s + 4)
      (update (update (update (update m d (m s)) (d + 1) (m (s + 1))) (d + 2) (m (s + 2))) (d + 3)
        (m (s + 3)))
      (omega arith) a,
)

memcpy_top_lem :
    (n d s : ℕ) (m : Memory) → Disjoint d s n → (a : ℕ) → memcpy_top d s n m a ≡ copied m d s n a
unfolding memcpy_top
memcpy_top_lem zero d s m h a = ground arith
memcpy_top_lem (suc n) d s m h a = elim (Bool-cases (d % 4 == 0)) [
  | inl e ↦
      rw (e, memcpy_top)
        (ground (
          arith,
          move_bytes_lem (suc n % 4) (d + suc n / 4 * 4) (s + suc n / 4 * 4)
              (move_dwords d s (suc n / 4) m) (omega arith) a,
          move_dwords_lem (suc n / 4) d s m (omega arith)
              (s + suc n / 4 * 4 + (a - (d + suc n / 4 * 4))),
          move_dwords_lem (suc n / 4) d s m (omega arith) a,
        ))
  | inr e ↦
      rw (e, memcpy_top)
        (ground (arith, memcpy_top_lem n (d + 1) (s + 1) (update m d (m s)) (omega arith) a))
]

-- `memcpy` copies the `n` bytes at `src` to `dest` and changes no other byte, at any alignment, if
-- the two ranges do not overlap.
pub memcpy_lem :
    (dest src n : ℕ) (m : Memory)
    → Disjoint dest src n
    → (a : ℕ) → memcpy dest src n m a ≡ copied m dest src n a
unfolding memcpy
memcpy_lem dest src n m h a = memcpy_top_lem n dest src m h a

move_bytes_down_lem :
    (n d s : ℕ) (m : Memory) → s < d → (a : ℕ) → move_bytes_down d s n m a ≡ copied m d s n a
unfolding move_bytes_down
move_bytes_down_lem zero d s m h a = ground arith
move_bytes_down_lem (suc n) d s m h a =
    ground (arith, move_bytes_down_lem n d s (update m (d + n) (m (s + n))) h a)

-- `memmove` copies the `n` bytes at `src` as they were to `dest` and changes no other byte,
-- however the two ranges overlap.
pub memmove_lem :
    (dest src n : ℕ) (m : Memory) (a : ℕ) → memmove dest src n m a ≡ copied m dest src n a
unfolding memmove
memmove_lem dest src n m a = elim (Bool-cases (leb dest src)) [
  | inl e ↦ rw e (move_bytes_lem n dest src m (inl (ground arith)) a)
  | inr e ↦ rw e (move_bytes_down_lem n dest src m (ground arith) a)
]
