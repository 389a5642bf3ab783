-- ===== src/CString/Words.antt =====
-- student-distrib/lib.c: `memset_word` and `memset_dword`.
use linux_like_os_kernel.Prelude.{
  ℕ, zero, suc, ◌+◌, ◌-◌, ◌*◌, ◌/◌, ◌%◌, ◌^◌, ◌&&◌, ltb, leb, ◌==◌, if◌then◌else◌, ◌≡◌, arith, ◌∙◌,
}
use linux_like_os_kernel.Machine.{Memory, u8}
use linux_like_os_kernel.CString.{store_words, store_longs, memset_word, memset_dword}

-- Byte `i` of a number.
abbrev pub byte_of : ℕ → ℕ → ℕ
byte_of c i =
    if i == 0
    then u8 c
    else if i == 1
    then u8 (c / 2 ^ 8)
    else if i == 2
    then u8 (c / 2 ^ 16)
    else u8 (c / 2 ^ 24)

store_words_lem :
    (n s c : ℕ) (m : Memory) (a : ℕ)
    → store_words s c n m a
      ≡ (if leb s a && ltb a (s + n * 2) then byte_of c ((a - s) % 2) else m a)
unfolding store_words
store_words_lem zero s c m a = ground arith
store_words_lem (suc n) s c m a = store_words_lem n (s + 2) c _ a ∙ ground arith

store_longs_lem :
    (n s c : ℕ) (m : Memory) (a : ℕ)
    → store_longs s c n m a
      ≡ (if leb s a && ltb a (s + n * 4) then byte_of c ((a - s) % 4) else m a)
unfolding store_longs
store_longs_lem zero s c m a = ground arith
store_longs_lem (suc n) s c m a = store_longs_lem n (s + 4) c _ a ∙ ground arith

-- `memset_word` stores the low two bytes of its value `n` times over 2 * n bytes, and `memset_dword`
-- the four bytes of its value `n` times over 4 * n bytes; no other byte changes.
pub memset_word_lem :
    (s c n : ℕ) (m : Memory) (a : ℕ)
    → (memset_word s c n m a
        ≡ (if leb s a && ltb a (s + n * 2) then byte_of c ((a - s) % 2) else m a))
      × (memset_dword s c n m a
          ≡ (if leb s a && ltb a (s + n * 4) then byte_of c ((a - s) % 4) else m a))
unfolding memset_word memset_dword
memset_word_lem s c n m a = (store_words_lem n s c m a, store_longs_lem n s c m a)
