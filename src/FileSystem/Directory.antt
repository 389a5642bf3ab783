-- ===== src/FileSystem/Directory.antt =====
-- student-distrib/file_system.c: `fs_init` checks the count of entries, and `dir_read` lists the
-- directory, one name to a call.
use linux_like_os_kernel.Prelude.{
  ℕ, zero, suc, ◌+◌, ◌-◌, ◌*◌, ◌%◌, ◌^◌, ◌<◌, ◌≤◌, ◌&&◌, ltb, leb, if◌then◌else◌, update, ◌≡◌, ◌≢◌,
  ◌⊎◌, arith, refl, ne→==, lt→ltb, le→ltb, pos, failure, ap, dec_lt, mod-add-mod, mod-eq_of_lt,
  mod_self, mod-lt,
}
use linux_like_os_kernel.Machine.{Memory, Fs}
use linux_like_os_kernel.CString.{strlen, strncpy}
use linux_like_os_kernel.CString.Strings.{IsString, strlen_lem, strncpy_lem, padded}
use linux_like_os_kernel.FileSystem.{fs_init, dir_read, dentry_addr, read32}

-- `fs_init` fails exactly when an address is NULL or the image counts more than 63 entries. When it
-- succeeds, the counts are those of the image, the entries stand 64 bytes into it, the inodes in the
-- second block, the data blocks behind the last inode, and the listing starts over. The regions before the data
-- blocks must fit the address space.
pub fs_init_lem :
    (start end : ℕ) (m : Memory) (fs : Fs)
    → start + (read32 m (start + 4) + 1) * 4096 < 2 ^ 32
    → start + 4096 < 2 ^ 32
    → let out = fs_init start end m fs in
      ((out.0 ≡ failure) × ((start ≡ 0) ⊎ ((end ≡ 0) ⊎ (63 < read32 m start))))
      ⊎ ((out.0 ≡ pos 0)
          × (start ≢ 0)
          × (end ≢ 0)
          × (read32 m start ≤ 63)
          × (out.1.num_dentries ≡ read32 m start)
          × (out.1.num_datablocks ≡ read32 m (start + 8))
          × (out.1.fs_dentry ≡ start + 64)
          × (out.1.inodeblk ≡ start + 4096)
          × (out.1.first_datablk ≡ out.1.inodeblk + out.1.num_inodes * 4096)
          × (out.1.num_file_read ≡ 0))
unfolding fs_init
fs_init_lem start end m fs fits fits' = ground arith

module _ (m : Memory) (fs : Fs) (buf : ℕ) where
  -- The next entry's name has `k` characters, and the buffer for it lies outside of the entry.
  pub record NextName (k : ℕ) : Type 0 where
    pub live : (j : ℕ) → j < k → m (dentry_addr fs fs.num_file_read + j) ≢ 0
    pub stop : (k ≡ 32) ⊎ (m (dentry_addr fs fs.num_file_read + k) ≡ 0)
    pub short : k ≤ 32
    pub apart :
        (buf + 33 ≤ dentry_addr fs fs.num_file_read) ⊎ (dentry_addr fs fs.num_file_read + 32 ≤ buf)

  -- While entries are left, `dir_read` puts the next entry's name into the buffer as a terminated
  -- string, pads it with zeros up to 33 bytes, changes no other byte, returns the name's length and
  -- moves on by one entry. The buffer must not be NULL and must lie outside of the entry, and there are
  -- at most 63 entries.
  pub dir_read-next :
      (k : ℕ)
      → buf ≢ 0
      → fs.num_file_read < fs.num_dentries
      → fs.num_dentries ≤ 63
      → NextName k
      → ((dir_read m fs buf).0 ≡ pos k)
        × ((a : ℕ)
            → (dir_read m fs buf).1 a ≡ (
                if leb buf a && ltb a (buf + 33)
                then padded m (dentry_addr fs fs.num_file_read) k (a - buf)
                else m a))
        × ((dir_read m fs buf).2 ≡ record fs { num_file_read = fs.num_file_read + 1 })
  unfolding dir_read
  dir_read-next k nn more bound name =
      rw (ne→== buf 0 nn, lt→ltb _ _ more)
        (
          rw (length) (ground (arith, name.short)),
          content,
          ap (λ n. record fs { num_file_read = n }) (omega arith),
        )
    where
      ended : Memory
      ended = update (strncpy buf (dentry_addr fs fs.num_file_read) 32 m) (buf + 32) 0

      copied :
          (a : ℕ)
          → strncpy buf (dentry_addr fs fs.num_file_read) 32 m a ≡ (
              if leb buf a && ltb a (buf + 32)
              then padded m (dentry_addr fs fs.num_file_read) k (a - buf)
              else m a)
      copied =
          strncpy_lem buf (dentry_addr fs fs.num_file_read) 32 k m name.live name.stop name.short
            (omega (arith, name.apart))

      content :
          (a : ℕ)
          → ended a ≡ (
              if leb buf a && ltb a (buf + 33)
              then padded m (dentry_addr fs fs.num_file_read) k (a - buf)
              else m a)
      content a = ground (arith, copied a, name.short)

      string : IsString ended buf k
      string = record {
        nonzero = λ i lt. ground (arith, content (buf + i), name.live i lt, name.short);
        ends = ground (arith, content (buf + k), name.short);
      }

      length : strlen ended buf ≡ k
      length = strlen_lem ended buf k string (omega (arith, name.short))

  -- When all entries have been listed, `dir_read` returns 0, leaves memory alone and starts over.
  pub dir_read-end :
      buf ≢ 0
      → fs.num_dentries ≤ fs.num_file_read
      → dir_read m fs buf ≡ (pos 0, m, record fs { num_file_read = 0 })
  unfolding dir_read
  dir_read-end nn all = rw (ne→== buf 0 nn, le→ltb _ _ all)

-- The file system after `n` calls of `dir_read` with one buffer.
abbrev pub after_dir_reads : Memory → Fs → ℕ → ℕ → Memory × Fs
after_dir_reads m fs buf zero = (m, fs)
after_dir_reads m fs buf (suc n) =
    let (m', fs') = after_dir_reads m fs buf n in
    let (length, m'', fs'') = dir_read m' fs' buf in (m'', fs'')

dir_read-count :
    (m : Memory) (fs : Fs) (buf : ℕ)
    → buf ≢ 0
    → fs.num_dentries ≤ 63
    → ((dir_read m fs buf).2.num_dentries ≡ fs.num_dentries)
      × ((dir_read m fs buf).2.num_file_read
          ≡ (if ltb fs.num_file_read fs.num_dentries then fs.num_file_read + 1 else 0))
unfolding dir_read
dir_read-count m fs buf nn bound = ground arith

round_lem : (x d : ℕ) → suc x % (d + 1) ≡ (if ltb (x % (d + 1)) d then x % (d + 1) + 1 else 0)
round_lem x d = elim (dec_lt (x % (d + 1)) d) [
  | yes h ↦
      ground (
        arith,
        mod-add-mod x (d + 1) 1,
        mod-eq_of_lt {n = x % (d + 1) + 1} {m = d + 1} (omega arith),
      )
  | no h ↦
      ground (arith, mod-add-mod x (d + 1) 1, mod_self (d + 1), mod-lt x {m = d + 1} (omega arith))
]

dir_read_states :
    (m : Memory) (fs : Fs) (buf n : ℕ)
    → buf ≢ 0
    → fs.num_dentries ≤ 63
    → fs.num_file_read ≡ 0
    → let fs' = (after_dir_reads m fs buf n).1 in
      (fs'.num_dentries ≡ fs.num_dentries) × (fs'.num_file_read ≡ n % (fs.num_dentries + 1))
dir_read_states m fs buf zero nn bound start = (refl, omega arith)
dir_read_states m fs buf (suc n) nn bound start =
    let (m', fs') = after_dir_reads m fs buf n in
    let (same, count) = dir_read_states m fs buf n nn bound start in
    ground (
      arith,
      same,
      count,
      dir_read-count m' fs' buf nn (rw same bound),
      round_lem n fs.num_dentries,
    )

-- Successive calls of `dir_read` with one buffer go round the directory: after `n` of them the next
-- entry is `n` modulo the number of entries and one, for the call that returns 0. The buffer must not be NULL, there are at most 63 entries, and the
-- listing is at its start.
pub dir_read_round :
    (m : Memory) (fs : Fs) (buf n : ℕ)
    → buf ≢ 0
    → fs.num_dentries ≤ 63
    → fs.num_file_read ≡ 0
    → (after_dir_reads m fs buf n).1.num_file_read ≡ n % (fs.num_dentries + 1)
dir_read_round m fs buf n nn bound start = (dir_read_states m fs buf n nn bound start).1
