-- ===== src/Paging/Mappings.antt =====
-- student-distrib/paging.c: what the kernel's mappings make of virtual addresses.
use linux_like_os_kernel.Prelude.{
  ℕ, ◌+◌, ◌*◌, ◌/◌, ◌%◌, ◌^◌, Bool, true, false, ◌&&◌, ◌==◌, if◌then◌else◌, bit_or, update, some,
  ◌≡◌, ◌≢◌, ◌⊎◌, inl, inr, refl, arith, Bool-cases, bit_or_low, ne→==, ==_refl, ap, ◌∙◌,
}
use linux_like_os_kernel.Machine.{Machine, Paging}
use linux_like_os_kernel.Paging.{pcb_mapping, syscall_video_mapping, scheduling_video_mapping}
use linux_like_os_kernel.Paging.Translation.{
  translate, by_entry, in_table, table_at, is_present, is_user, is_large, page_of,
}

-- The two tables start at different pages.
pub record IsPlaced (p : Paging) : Type 0 where
  pub tab_page : ℕ
  pub video_page : ℕ
  pub tab_aligned : p.page_tab_addr ≡ tab_page * 2 ^ 12
  pub video_aligned : p.page_video_tab_addr ≡ video_page * 2 ^ 12
  pub different : tab_page ≢ video_page

large_entry : (n : ℕ) → bit_or (0x800000 + n * 0x400000) 0x87 ≡ (n + 2) * 2 ^ 22 + 0x87
large_entry n = ap (λ a. bit_or a 0x87) (omega arith) ∙ bit_or_low 22 (n + 2) 0x87 (omega arith)

-- A directory entry with the flags 0x87 maps a page of 4 MB for user programs.
by_entry_large :
    (p : Paging) (q v : ℕ) → by_entry p (q * 2 ^ 22 + 0x87) v ≡ some (q * 2 ^ 22 + v % 2 ^ 22, true)
by_entry_large p q v = ground arith

-- After `pcb_mapping` for process `n` the 4 MB of user memory at 128 MB are the `n`-th 4 MB behind
-- 8 MB of physical memory, open to user programs, and no address outside of them is mapped
-- differently than before.
pub pcb_mapping_lem :
    (m : Machine) (n v : ℕ)
    → translate (pcb_mapping 0x8000000 (0x800000 + n * 0x400000) m).paging v ≡ (
        if v / 0x400000 == 32
        then some (0x800000 + n * 0x400000 + v % 0x400000, true)
        else translate m.paging v)
unfolding pcb_mapping
pcb_mapping_lem m n v = elim (Bool-cases (v / 0x400000 == 32)) [
  | inl e ↦
      rw (e, large_entry n)
        (by_entry_large m.paging (n + 2) v ∙ ap (λ a. some (a, true)) (omega arith))
  | inr e ↦ rw e
]

-- A directory entry for a page table at `t * 4096`, with the flags 3 or 7.
pub by_entry_table :
    (p : Paging) (t flags v : ℕ)
    → (flags ≡ 3) ⊎ (flags ≡ 7)
    → by_entry p (t * 2 ^ 12 + flags) v ≡ in_table (table_at p (t * 2 ^ 12)) (flags == 7) v
by_entry_table p t flags v h = rw (present, small, page, user)
  where
    entry : ℕ
    entry = t * 2 ^ 12 + flags

    present : is_present entry ≡ true
    present = ground arith

    small : is_large entry ≡ false
    small = ground arith

    user : is_user entry ≡ (flags == 7)
    user = ground arith

    page : page_of entry ≡ t * 2 ^ 12
    page = omega arith

-- A page table's entry for the page at `t * 4096`, with the flags 3 or 7.
pub in_table_page :
    (table : ℕ → ℕ) (t flags v : ℕ) (user : Bool)
    → (flags ≡ 3) ⊎ (flags ≡ 7)
    → table (v / 4096 % 1024) ≡ t * 2 ^ 12 + flags
    → in_table (some table) user v ≡ some (t * 2 ^ 12 + v % 4096, user && flags == 7)
in_table_page table t flags v user h e = rw e (rw (present, is_user_page, page))
  where
    entry : ℕ
    entry = t * 2 ^ 12 + flags

    present : is_present entry ≡ true
    present = ground arith

    is_user_page : is_user entry ≡ (flags == 7)
    is_user_page = ground arith

    page : page_of entry ≡ t * 2 ^ 12
    page = omega arith

table_at-video :
    (p : Paging) → IsPlaced p → table_at p p.page_video_tab_addr ≡ some p.page_video_tab
table_at-video p place = rw (
  ne→== p.page_video_tab_addr p.page_tab_addr
      (omega (arith, place.tab_aligned, place.video_aligned, place.different)),
  ==_refl p.page_video_tab_addr,
)

-- The tables with the video page at 132 MB.
abbrev with_video : ℕ → Paging → Paging
with_video f p = record p {
  page_dir = update p.page_dir 33 (bit_or p.page_video_tab_addr 0x7);
  page_video_tab = update p.page_video_tab 0 (bit_or (f * 4096) 0x7);
}

with_video_lem :
    (p : Paging) (f v : ℕ)
    → IsPlaced p
    → v / 4096 ≡ 33 * 1024
    → translate (with_video f p) v ≡ some (f * 4096 + v % 4096, true)
with_video_lem p f v place h =
    rw (dir, video_entry)
      (by_entry_table (with_video f p) place.video_page 7 v (inr refl)
        ∙ rw (← place.video_aligned, table_at-video (with_video f p) placed)
            (in_table_page (with_video f p).page_video_tab f 7 v true (inr refl) page))
  where
    dir : v / 2 ^ 22 ≡ 33
    dir = omega arith

    first : v / 4096 % 1024 ≡ 0
    first = omega arith

    video_entry : bit_or p.page_video_tab_addr 0x7 ≡ place.video_page * 2 ^ 12 + 7
    video_entry = rw place.video_aligned (bit_or_low 12 place.video_page 7 (omega arith))

    placed : IsPlaced (with_video f p)
    placed = record {
      tab_page = place.tab_page;
      video_page = place.video_page;
      tab_aligned = place.tab_aligned;
      video_aligned = place.video_aligned;
      different = place.different;
    }

    page : (with_video f p).page_video_tab (v / 4096 % 1024) ≡ f * 2 ^ 12 + 7
    page = rw first (bit_or_low 12 f 7 (omega arith))

-- `syscall_video_mapping` and `scheduling_video_mapping` map the first page at 132 MB of every user
-- program to the given page of physical memory, open to user programs. The two page tables must be
-- different pages.
pub video_mapping_lem :
    (m : Machine) (f v : ℕ)
    → IsPlaced m.paging
    → v / 4096 ≡ 33 * 1024
    → (translate (syscall_video_mapping (f * 4096) m).paging v ≡ some (f * 4096 + v % 4096, true))
      × (translate (scheduling_video_mapping (f * 4096) m).paging v
          ≡ some (f * 4096 + v % 4096, true))
unfolding syscall_video_mapping scheduling_video_mapping
video_mapping_lem m f v place h =
    (with_video_lem m.paging f v place h, with_video_lem m.paging f v place h)
