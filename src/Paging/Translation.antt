-- ===== src/Paging/Translation.antt =====
-- How the processor reads the page directory and the page tables: the meaning of student-distrib/paging.c.
use linux_like_os_kernel.Prelude.{
  ℕ, ◌+◌, ◌*◌, ◌/◌, ◌%◌, ◌^◌, Bool, ◌&&◌, ◌==◌, if◌then◌else◌, Option, none, some,
}
use linux_like_os_kernel.Machine.{Paging}

abbrev pub is_present : ℕ → Bool
is_present entry = entry % 2 == 1

-- Bit 2 lets user programs in.
abbrev pub is_user : ℕ → Bool
is_user entry = entry / 4 % 2 == 1

-- Bit 7 of a directory entry makes it a page of 4 MB.
abbrev pub is_large : ℕ → Bool
is_large entry = entry / 128 % 2 == 1

abbrev pub page_of : ℕ → ℕ
page_of entry = entry / 4096 * 4096

-- The page table at an address.
abbrev pub table_at : Paging → ℕ → Option (ℕ → ℕ)
table_at p addr =
    if addr == p.page_tab_addr
    then some p.page_tab
    else if addr == p.page_video_tab_addr
    then some p.page_video_tab
    else none

-- The last step, in a page table; `user` is the directory entry's user bit.
abbrev pub in_table : Option (ℕ → ℕ) → Bool → ℕ → Option (ℕ × Bool)
in_table none user v = none
in_table (some table) user v =
    if is_present (table (v / 4096 % 1024))
    then some
        (page_of (table (v / 4096 % 1024)) + v % 4096, user && is_user (table (v / 4096 % 1024)))
    else none

-- What a directory entry makes of a virtual address.
abbrev pub by_entry : Paging → ℕ → ℕ → Option (ℕ × Bool)
by_entry p entry v =
    if is_present entry
    then (if is_large entry
        then some (entry / 2 ^ 22 * 2 ^ 22 + v % 2 ^ 22, is_user entry)
        else in_table (table_at p (page_of entry)) (is_user entry) v)
    else none

-- The physical address of a virtual one, and whether a user program may use it; `none` is a page
-- fault, or a table that is none of the kernel's.
abbrev pub translate : Paging → ℕ → Option (ℕ × Bool)
translate p v = by_entry p (p.page_dir (v / 2 ^ 22)) v
