-- ===== src/FileSystem/Entry.antt =====
-- student-distrib/file_system.c: the directory entry that `read_dentry_by_name` and `read_dentry_by_index`
-- fill for their caller.
use linux_like_os_kernel.Prelude.{
  ℕ, ◌+◌, ◌-◌, ◌^◌, ◌<◌, ◌≤◌, ◌&&◌, leb, if◌then◌else◌, ◌≡◌, ◌⊎◌, inl, arith, ap, ◌∙◌,
}
use linux_like_os_kernel.Machine.{Memory, Fs}
use linux_like_os_kernel.CString.{strcpy}
use linux_like_os_kernel.CString.Strings.{IsString, IsBytes, strcpy_lem}
use linux_like_os_kernel.FileSystem.{read32, write32, dentry_addr, copy_dentry}

write32_outside : (m : Memory) (a v b : ℕ) → (b < a) ⊎ (a + 4 ≤ b) → write32 m a v b ≡ m b
write32_outside m a v b h = ground (arith, h)

-- Two words with the same bytes.
read32-agree :
    (m m' : Memory) (a b : ℕ)
    → ((i : ℕ) → i < 4 → m' (a + i) ≡ m (b + i))
    → read32 m' a ≡ read32 m b
read32-agree m m' a b h =
    ground (arith, h 0 (omega arith), h 1 (omega arith), h 2 (omega arith), h 3 (omega arith))

read32-write32 :
    (m m' : Memory) (a b : ℕ) → IsBytes m' → read32 (write32 m a (read32 m' b)) a ≡ read32 m' b
read32-write32 m m' a b bytes = ground (arith, bytes b, bytes (b + 1), bytes (b + 2), bytes (b + 3))

-- The entry at `src`, whose name has `n` characters, has been copied to `dentry`: the name's bytes, of
-- which a name of more than 31 has more than fit, and then the type and the inode, at the offsets 32 and
-- 36. Every other byte is as it was.
pub record IsFilled (m : Memory) (src n dentry : ℕ) (m' : Memory) : Type 0 where
  pub name : (i : ℕ) → i ≤ n → i < 32 → m' (dentry + i) ≡ m (src + i)
  pub filetype : read32 m' (dentry + 32) ≡ read32 m (src + 32)
  pub inode : read32 m' (dentry + 36) ≡ read32 m (src + 36)
  pub between : (i : ℕ) → n < i → i < 32 → m' (dentry + i) ≡ m (dentry + i)
  pub outside : (a : ℕ) → (a < dentry) ⊎ ((dentry + 40 ≤ a) × (dentry + n < a)) → m' a ≡ m a

-- The two entries, and the name where it is longer, have no byte in common.
abbrev pub IsApart : ℕ → ℕ → ℕ → Type 0
IsApart src n dentry =
    ((src + 40 ≤ dentry) × (src + n < dentry)) ⊎ ((dentry + 40 ≤ src) × (dentry + n < src))

pub copy_dentry-IsFilled :
    (m : Memory) (fs : Fs) (index n dentry : ℕ)
    → IsBytes m
    → IsString m (dentry_addr fs index) n
    → n < 2 ^ 32
    → IsApart (dentry_addr fs index) n dentry
    → IsFilled m (dentry_addr fs index) n dentry (copy_dentry m fs index dentry)
copy_dentry-IsFilled m fs index n dentry bytes str short apart = record {
  name = λ i le lt.
      write32_outside typed (dentry + 36) _ (dentry + i) (inl (omega arith))
      ∙ write32_outside named (dentry + 32) _ (dentry + i) (inl (omega arith))
      ∙ ground (arith, copied (dentry + i));
  filetype =
      read32-agree typed filled (dentry + 32) (dentry + 32)
        (λ i lt. write32_outside typed (dentry + 36) _ (dentry + 32 + i) (inl (omega arith)))
      ∙ stored (dentry + 32) (src + 32) named
          (λ i lt. ground (arith, apart, copied (src + 32 + i)));
  inode = stored (dentry + 36) (src + 36) typed (λ i lt.
      write32_outside named (dentry + 32) _ (src + 36 + i) (ground (arith, apart))
      ∙ ground (arith, apart, copied (src + 36 + i)));
  between = λ i gt lt.
      write32_outside typed (dentry + 36) _ (dentry + i) (inl (omega arith))
      ∙ write32_outside named (dentry + 32) _ (dentry + i) (inl (omega arith))
      ∙ ground (arith, copied (dentry + i));
  outside = λ a out.
      write32_outside typed (dentry + 36) _ a (ground (arith, out))
      ∙ write32_outside named (dentry + 32) _ a (ground (arith, out))
      ∙ ground (arith, out, copied a);
}
  where
    src : ℕ
    src = dentry_addr fs index

    named : Memory
    named = strcpy dentry src m

    typed : Memory
    typed = write32 named (dentry + 32) (read32 named (src + 32))

    filled : Memory
    filled = write32 typed (dentry + 36) (read32 typed (src + 36))

    copied :
        (a : ℕ)
        → named a ≡ (if leb dentry a && leb a (dentry + n) then m (src + (a - dentry)) else m a)
    copied = strcpy_lem dentry src n m str (omega (arith, apart)) short

    -- A word that is read where memory is as it was at first, and stored.
    stored :
        (at from : ℕ) (m1 : Memory)
        → ((i : ℕ) → i < 4 → m1 (from + i) ≡ m (from + i))
        → read32 (write32 m1 at (read32 m1 from)) at ≡ read32 m from
    stored at from m1 same =
        let value : read32 m1 from ≡ read32 m from = read32-agree m m1 from from same in
        ap (λ v. read32 (write32 m1 at v) at) value ∙ read32-write32 m1 m at from bytes
