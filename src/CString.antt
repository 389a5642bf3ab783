-- ===== src/CString.antt =====
-- student-distrib/lib.c: the string and memory functions. Their pointers are addresses in memory;
-- a string is what stands from its pointer up to the first zero byte.
--
-- Loops up to a zero byte take fuel for the whole 32-bit address space. A string in it ends within
-- that fuel; CString.Strings proves it of every terminated string.
pub mod Strings
pub mod Copy
pub mod Words
pub mod Digits
mod Tests
use linux_like_os_kernel.Prelude.{
  ℕ, zero, suc, ◌+◌, ◌-◌, ◌*◌, ◌/◌, ◌%◌, ◌^◌, Bool, true, false, ◌&&◌, ◌||◌, ltb, leb, ◌==◌, not,
  if◌then◌else◌, ℤ, pos, negsuc, sub_ℕ, update, bit_and,
}
use linux_like_os_kernel.Machine.{Memory, u8}

abbrev pub address_space : ℕ
address_space = 2 ^ 32

-- `while (s[len] != '\0') len++;`
unfoldable pub strlen_from : ℕ → Memory → ℕ → ℕ → ℕ
strlen_from zero m s len = len
strlen_from (suc fuel) m s len = elim (m (s + len) == 0) [
  | true ↦ len
  | false ↦ strlen_from fuel m s (len + 1)
]

unfoldable pub strlen : Memory → ℕ → ℕ
unfolding strlen_from
strlen m s = strlen_from address_space m s 0

-- The int difference of two bytes that are read as int8_t.
abbrev pub int8_diff : ℕ → ℕ → ℤ
int8_diff a b = sub_ℕ (u8 (a + 128)) (u8 (b + 128))

-- The loop of `strncmp` at index `i`, with `n - i` rounds left.
unfoldable pub strncmp_from : Memory → ℕ → ℕ → ℕ → ℕ → ℤ
strncmp_from m s1 s2 i zero = pos 0
strncmp_from m s1 s2 i (suc left) = elim (not (m (s1 + i) == m (s2 + i)) || m (s1 + i) == 0) [
  | true ↦ int8_diff (m (s1 + i)) (m (s2 + i))
  | false ↦ strncmp_from m s1 s2 (i + 1) left
]

unfoldable pub strncmp : Memory → ℕ → ℕ → ℕ → ℤ
unfolding strncmp_from
strncmp m s1 s2 n = strncmp_from m s1 s2 0 n

-- The loop of `strcpy` at index `i`; the last write is the terminator.
unfoldable pub strcpy_from : ℕ → ℕ → ℕ → ℕ → Memory → Memory
strcpy_from zero dest src i m = m
strcpy_from (suc fuel) dest src i m = elim (m (src + i) == 0) [
  | true ↦ update m (dest + i) 0
  | false ↦ strcpy_from fuel dest src (i + 1) (update m (dest + i) (m (src + i)))
]

unfoldable pub strcpy : ℕ → ℕ → Memory → Memory
unfolding strcpy_from
strcpy dest src m = strcpy_from address_space dest src 0 m

-- `while (i < n) { dest[i] = '\0'; i++; }` with `n - i` rounds left
pub strncpy_pad : ℕ → ℕ → ℕ → Memory → Memory
strncpy_pad dest i zero m = m
strncpy_pad dest i (suc left) m = strncpy_pad dest (i + 1) left (update m (dest + i) 0)

-- The first loop of `strncpy` at index `i`, with `n - i` rounds left, and then the second.
pub strncpy_from : ℕ → ℕ → ℕ → ℕ → Memory → Memory
unfolding strncpy_pad
strncpy_from dest src i zero m = m
strncpy_from dest src i (suc left) m = elim (m (src + i) == 0) [
  | true ↦ strncpy_pad dest i (suc left) m
  | false ↦ strncpy_from dest src (i + 1) left (update m (dest + i) (m (src + i)))
]

unfoldable pub strncpy : ℕ → ℕ → ℕ → Memory → Memory
unfolding strncpy_from
strncpy dest src n m = strncpy_from dest src 0 n m

-- `rep stosl`, `rep movsl` of `n` double words: each is read whole and then written.
pub store_dwords : ℕ → ℕ → ℕ → Memory → Memory
store_dwords d c zero m = m
store_dwords d c (suc n) m =
    store_dwords (d + 4) c n (update (update (update (update m d c) (d + 1) c) (d + 2) c) (d + 3) c)

pub move_dwords : ℕ → ℕ → ℕ → Memory → Memory
move_dwords d s zero m = m
move_dwords d s (suc n) m = move_dwords (d + 4) (s + 4) n (
    update (update (update (update m d (m s)) (d + 1) (m (s + 1))) (d + 2) (m (s + 2))) (d + 3)
      (m (s + 3)))

-- One byte at a time, from low to high addresses: `.memset_bottom`, `.memcpy_bottom`.
pub store_bytes : ℕ → ℕ → ℕ → Memory → Memory
store_bytes d c zero m = m
store_bytes d c (suc n) m = store_bytes (d + 1) c n (update m d c)

pub move_bytes : ℕ → ℕ → ℕ → Memory → Memory
move_bytes d s zero m = m
move_bytes d s (suc n) m = move_bytes (d + 1) (s + 1) n (update m d (m s))

-- `.memset_top`: single bytes until the destination is aligned, then double words, then the rest.
pub memset_top : ℕ → ℕ → ℕ → Memory → Memory
unfolding store_dwords store_bytes
memset_top d c zero m = m
memset_top d c (suc n) m = elim (d % 4 == 0) [
  | true ↦ store_bytes (d + suc n / 4 * 4) c (suc n % 4) (store_dwords d c (suc n / 4) m)
  | false ↦ memset_top (d + 1) c n (update m d c)
]

unfoldable pub memset : ℕ → ℕ → ℕ → Memory → Memory
unfolding memset_top
memset s c n m = memset_top s (bit_and c 0xFF) n m

-- `rep stosw` of `n` words.
unfoldable pub store_words : ℕ → ℕ → ℕ → Memory → Memory
store_words d c zero m = m
store_words d c (suc n) m =
    store_words (d + 2) c n (update (update m d (u8 c)) (d + 1) (u8 (c / 2 ^ 8)))

-- `rep stosl` of `n` double words that need not be of equal bytes.
unfoldable pub store_longs : ℕ → ℕ → ℕ → Memory → Memory
store_longs d c zero m = m
store_longs d c (suc n) m = store_longs (d + 4) c n (
    update (update (update (update m d (u8 c)) (d + 1) (u8 (c / 2 ^ 8))) (d + 2) (u8 (c / 2 ^ 16)))
      (d + 3) (u8 (c / 2 ^ 24)))

-- The count is of words and double words, though the comments call it a number of bytes.
unfoldable pub memset_word : ℕ → ℕ → ℕ → Memory → Memory
memset_word s c n m = store_words s c n m

unfoldable pub memset_dword : ℕ → ℕ → ℕ → Memory → Memory
memset_dword s c n m = store_longs s c n m

-- `.memcpy_top`: single bytes until the destination is aligned, then double words, then the rest.
pub memcpy_top : ℕ → ℕ → ℕ → Memory → Memory
unfolding move_dwords move_bytes
memcpy_top d s zero m = m
memcpy_top d s (suc n) m = elim (d % 4 == 0) [
  | true ↦
      move_bytes (d + suc n / 4 * 4) (s + suc n / 4 * 4) (suc n % 4) (move_dwords d s (suc n / 4) m)
  | false ↦ memcpy_top (d + 1) (s + 1) n (update m d (m s))
]

unfoldable pub memcpy : ℕ → ℕ → ℕ → Memory → Memory
unfolding memcpy_top
memcpy dest src n m = memcpy_top dest src n m

-- `rep movsb` with the direction flag set: from the last byte down to the first.
pub move_bytes_down : ℕ → ℕ → ℕ → Memory → Memory
move_bytes_down d s zero m = m
move_bytes_down d s (suc n) m = move_bytes_down d s n (update m (d + n) (m (s + n)))

unfoldable pub memmove : ℕ → ℕ → ℕ → Memory → Memory
unfolding move_bytes move_bytes_down
memmove dest src n m =
    if leb dest src then move_bytes dest src n m else move_bytes_down dest src n m

-- The loop of `strrev`: `beg` and `end` as they run towards each other.
unfoldable pub strrev_loop : ℕ → ℕ → ℕ → ℕ → Memory → Memory
strrev_loop zero s beg end m = m
strrev_loop (suc fuel) s beg end m = elim (ltb beg end) [
  | true ↦
      strrev_loop fuel s (beg + 1) (end - 1)
        (update (update m (s + end) (m (s + beg))) (s + beg) (m (s + end)))
  | false ↦ m
]

-- The loop from both ends of a string of `n` characters. `end` is -1 for the empty string, and the
-- loop does not run.
abbrev pub strrev_between : ℕ → ℕ → Memory → Memory
strrev_between s zero m = m
strrev_between s (suc n) m = strrev_loop (suc n) s 0 n m

unfoldable pub strrev : ℕ → Memory → Memory
unfolding strrev_loop strlen
strrev s m = strrev_between s (strlen m s) m

-- `lookup[i]` for the digits below 36
abbrev pub lookup_digit : ℕ → ℕ
lookup_digit i = if ltb i 10 then b'0' + i else b'A' + (i - 10)

-- The loop of `itoa`, writing at `newbuf`; the last write is the terminator.
unfoldable pub itoa_loop : ℕ → ℕ → ℕ → ℕ → Memory → Memory
itoa_loop zero newval newbuf radix m = m
itoa_loop (suc fuel) newval newbuf radix m = elim (newval == 0) [
  | true ↦ update m newbuf 0
  | false ↦
      itoa_loop fuel (newval / radix) (newbuf + 1) radix
        (update m newbuf (lookup_digit (newval % radix)))
]

-- A uint32_t has at most 32 digits in radix 2 or above, so that 33 rounds are enough.
unfoldable pub itoa : ℕ → ℕ → ℕ → Memory → Memory
unfolding itoa_loop strrev
itoa value buf radix m = elim (value == 0) [
  | true ↦ update (update m buf b'0') (buf + 1) 0
  | false ↦ strrev buf (itoa_loop 33 value buf radix m)
]
