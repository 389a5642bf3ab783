-- ===== src/FileSystem.antt =====
-- student-distrib/file_system.c and file_system.h: the read-only file system, which is an image in
-- memory. A block has 4096 bytes. The boot block comes first, with its directory entries of 64 bytes
-- from offset 64 on; then one block for each inode; then the data blocks.
pub mod Entry
pub mod Lookup
pub mod ReadData
pub mod Directory
mod Tests
use linux_like_os_kernel.Prelude.{
  ℕ, zero, suc, ◌+◌, ◌-◌, ◌*◌, ◌/◌, ◌%◌, ◌^◌, Bool, true, false, ◌&&◌, ◌||◌, ltb, leb, ◌==◌, not,
  if◌then◌else◌, ℤ, pos, negsuc, failure, is_zero, update, Option, none, some,
}
use linux_like_os_kernel.Machine.{Memory, Fs, u32}
use linux_like_os_kernel.CString.{strlen, strncmp, strcpy, strncpy}

abbrev pub max_file_dentries : ℕ
max_file_dentries = 63

abbrev pub max_filename_length : ℕ
max_filename_length = 32

abbrev pub fs_block_size : ℕ
fs_block_size = 4096

-- A uint32_t in memory, the low byte first.
abbrev pub read32 : Memory → ℕ → ℕ
read32 m a = m a + m (a + 1) * 2 ^ 8 + m (a + 2) * 2 ^ 16 + m (a + 3) * 2 ^ 24

abbrev pub write32 : Memory → ℕ → ℕ → Memory
write32 m a v =
    update
      (update (update (update m a (v % 2 ^ 8)) (a + 1) (v / 2 ^ 8 % 2 ^ 8)) (a + 2)
        (v / 2 ^ 16 % 2 ^ 8))
      (a + 3) (v / 2 ^ 24 % 2 ^ 8)

-- The int32_t with the bits of a uint32_t.
abbrev pub int32 : ℕ → ℤ
int32 n = if ltb n (2 ^ 31) then pos n else negsuc (2 ^ 32 - 1 - n)

-- The three counts are stored before the test that can fail. The `memcpy` into `bootblk` fills its
-- three counts, and nothing else of it is ever read.
pub fs_init : ℕ → ℕ → Memory → Fs → ℤ × Fs
fs_init fs_start_addr fs_end_addr m fs =
    if fs_start_addr == 0 || fs_end_addr == 0
    then (failure, fs)
    else (let counted : Fs = record fs {
      dentry_number = read32 m fs_start_addr;
      inode_number = read32 m (fs_start_addr + 4);
      block_number = read32 m (fs_start_addr + 8);
    } in
        if ltb max_file_dentries (read32 m fs_start_addr) then (failure, counted) else (
          pos 0,
          record counted {
            num_dentries = read32 m fs_start_addr;
            num_inodes = read32 m (fs_start_addr + 4);
            num_datablocks = read32 m (fs_start_addr + 8);
            fs_dentry = u32 (fs_start_addr + 64);
            inodeblk = u32 (fs_start_addr + fs_block_size);
            first_datablk =
                u32 (fs_start_addr + (read32 m (fs_start_addr + 4) + 1) * fs_block_size);
            num_file_read = 0;
            flag_file_read = 1;
          },
        ))

-- `&fs_dentry[index]`, whose filename stands first
abbrev pub dentry_addr : Fs → ℕ → ℕ
dentry_addr fs index = fs.fs_dentry + index * 64

abbrev pub dentry_filetype : Memory → Fs → ℕ → ℕ
dentry_filetype m fs index = read32 m (dentry_addr fs index + 32)

abbrev pub dentry_inode : Memory → Fs → ℕ → ℕ
dentry_inode m fs index = read32 m (dentry_addr fs index + 36)

-- The test in the loop of `read_dentry_by_name`.
unfoldable pub name_matches : Memory → ℕ → ℕ → Bool
name_matches m filename fname =
    let f1_length = strlen m fname in
    let f2 = strlen m filename in
    let f2_length = if leb max_filename_length f2 then max_filename_length else f2 in
    is_zero (strncmp m filename fname f1_length)
    && is_zero (strncmp m filename fname f2_length)
    && not (m fname == 0)

-- The loop of `read_dentry_by_name` from `index` on, with `left` rounds: the index that matches.
unfoldable pub find_dentry : Memory → Fs → ℕ → ℕ → ℕ → Option ℕ
find_dentry m fs fname index zero = none
find_dentry m fs fname index (suc left) = elim (name_matches m (dentry_addr fs index) fname) [
  | true ↦ some index
  | false ↦ find_dentry m fs fname (index + 1) left
]

-- The three assignments to `*dentry`.
abbrev pub copy_dentry : Memory → Fs → ℕ → ℕ → Memory
copy_dentry m fs index dentry =
    let named : Memory = strcpy dentry (dentry_addr fs index) m in
    let typed : Memory = write32 named (dentry + 32) (dentry_filetype named fs index) in
    write32 typed (dentry + 36) (dentry_inode typed fs index)

unfoldable pub read_dentry_by_name : Memory → Fs → ℕ → ℕ → ℤ × Memory
unfolding find_dentry name_matches
read_dentry_by_name m fs fname dentry =
    if fname == 0 || dentry == 0
    then (failure, m)
    else elim (find_dentry m fs fname 0 max_file_dentries) [
      | none ↦ (failure, m)
      | some index ↦ (pos 0, copy_dentry m fs index dentry)
    ]

unfoldable pub read_dentry_by_index : Memory → Fs → ℕ → ℕ → ℤ × Memory
read_dentry_by_index m fs index dentry =
    if dentry == 0
    then (failure, m)
    else if ltb index max_file_dentries
    then (pos 0, copy_dentry m fs index dentry)
    else (failure, m)

-- `inodeblk[inode].size` and `inodeblk[inode].data_blocks[k]`
abbrev pub inode_size : Memory → Fs → ℕ → ℕ
inode_size m fs inode = read32 m (fs.inodeblk + inode * fs_block_size)

abbrev pub data_block : Memory → Fs → ℕ → ℕ → ℕ
data_block m fs inode k = read32 m (fs.inodeblk + inode * fs_block_size + 4 + k * 4)

-- The address of a byte of block `k` of a file.
abbrev pub block_addr : Memory → Fs → ℕ → ℕ → ℕ → ℕ
block_addr m fs inode k byte =
    u32 (fs.first_datablk + data_block m fs inode k * fs_block_size + byte)

module _ (fs : Fs) (inode offset buf : ℕ) where
  -- One pass of the loop of `read_data` behind the change of block, and the passes after it.
  abbrev pub read_byte : (ℕ → ℕ → Memory → ℤ × Memory) → ℕ → ℕ → ℕ → Memory → ℤ × Memory
  read_byte next copied byte_in_blk cur_addr m =
      elim (leb (inode_size m fs inode) (u32 (copied + offset))) [
        | true ↦ (int32 copied, m)
        | false ↦ next (byte_in_blk + 1) (u32 (cur_addr + 1)) (update m (buf + copied) (m cur_addr))
      ]

  -- The loop of `read_data` with `left` rounds to go.
  unfoldable pub read_loop : ℕ → ℕ → ℕ → ℕ → ℕ → Memory → ℤ × Memory
  read_loop zero copied cur_datablk byte_in_blk cur_addr m = (int32 copied, m)
  read_loop (suc left) copied cur_datablk byte_in_blk cur_addr m =
      elim (leb fs_block_size byte_in_blk) [
        | true ↦
            if leb fs.num_datablocks (data_block m fs inode (cur_datablk + 1))
            then (failure, m)
            else read_byte (read_loop left (copied + 1) (cur_datablk + 1)) copied 0
                (block_addr m fs inode (cur_datablk + 1) 0) m
        | false ↦ read_byte (read_loop left (copied + 1) cur_datablk) copied byte_in_blk cur_addr m
      ]

unfoldable pub read_data : Memory → Fs → ℕ → ℕ → ℕ → ℕ → ℤ × Memory
unfolding read_loop
read_data m fs inode offset buf length =
    if buf == 0
    then (failure, m)
    else read_loop fs inode offset buf length 0 (offset / fs_block_size) (offset % fs_block_size)
        (block_addr m fs inode (offset / fs_block_size) (offset % fs_block_size)) m

unfoldable pub file_open : ℕ → ℤ
file_open file_name = pos 0

unfoldable pub file_write : ℕ → ℕ → ℕ → ℤ
file_write fd buf nbytes = failure

unfoldable pub file_close : ℕ → ℤ
file_close fd = pos 0

unfoldable pub dir_open : ℕ → ℤ
dir_open file_name = pos 0

unfoldable pub dir_read : Memory → Fs → ℕ → ℤ × Memory × Fs
dir_read m fs buf =
    if buf == 0
    then (failure, m, fs)
    else if ltb fs.num_file_read fs.num_dentries
    then (let copied : Memory =
          strncpy buf (dentry_addr fs fs.num_file_read) max_filename_length m in
        let ended : Memory = update copied (buf + max_filename_length) 0 in
        (int32 (strlen ended buf), ended, record fs { num_file_read = u32 (fs.num_file_read + 1) }))
    else (pos 0, m, record fs { num_file_read = 0 })

unfoldable pub dir_write : ℕ → ℕ → ℕ → ℤ
dir_write fd buf nbytes = failure

unfoldable pub dir_close : ℕ → ℤ
dir_close fd = pos 0
