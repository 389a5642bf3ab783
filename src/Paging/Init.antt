-- ===== src/Paging/Init.antt =====
-- student-distrib/paging.c: what `paging_init` maps.
use linux_like_os_kernel.Prelude.{
  ℕ, ◌+◌, ◌*◌, ◌/◌, ◌%◌, ◌^◌, ◌<◌, Bool, false, ◌||◌, ◌==◌, if◌then◌else◌, bit_or, fill, fill_lem,
  none, some, ◌≡◌, ◌≢◌, inl, refl, arith, bit_or_low, ne→==, ==_refl, ap, ◌∙◌, lt→ltb, ℕ_discrete,
  sym,
}
use linux_like_os_kernel.Machine.{Machine, Paging}
use linux_like_os_kernel.Paging.{init_tables, paging_init, memset_word}
use linux_like_os_kernel.Paging.Translation.{translate, in_table, table_at, is_present}
use linux_like_os_kernel.Paging.Mappings.{IsPlaced, by_entry_table, in_table_page}

module _ (p : Paging) (place : IsPlaced p) where
  tables : Paging
  tables = init_tables p

  dir_zero : tables.page_dir 0 ≡ place.tab_page * 2 ^ 12 + 3
  unfolding tables init_tables
  dir_zero = rw place.tab_aligned (bit_or_low 12 place.tab_page 3 (omega arith))

  dir_one : tables.page_dir 1 ≡ 0x400083
  unfolding tables init_tables
  dir_one = refl

  dir_other : (k : ℕ) → k ≢ 0 → k ≢ 1 → k < 1024 → tables.page_dir k ≡ 0x02020202
  unfolding tables init_tables
  dir_other k h0 h1 h = ground (arith, fill_lem p.page_dir 0 (λ i. memset_word 0x00000002) 1024 k)

  filled : ℕ → ℕ
  filled = fill p.page_tab 0 (λ i. bit_or (i * 0x1000) 2) 1024

  filled_lem : (k : ℕ) → k < 1024 → filled k ≡ k * 2 ^ 12 + 2
  unfolding filled
  filled_lem k h =
      fill_lem p.page_tab 0 (λ i. bit_or (i * 0x1000) 2) 1024 k
      ∙ rw (lt→ltb k 1024 h) (ground (arith, bit_or_low 12 k 2 (omega arith)))

  tab_video : tables.page_tab 0xB8 ≡ 0xB8 * 2 ^ 12 + 3
  unfolding tables init_tables filled
  tab_video = ap (λ a. bit_or a 3) (filled_lem 0xB8 (omega arith))

  tab_other : (k : ℕ) → k ≢ 0xB8 → k < 1024 → tables.page_tab k ≡ k * 2 ^ 12 + 2
  unfolding tables init_tables filled
  tab_other k ne h = rw (ne→== k 0xB8 ne) (filled_lem k h)

  absent :
      (q : Paging) (user : Bool) (v : ℕ) (k : ℕ)
      → q.page_tab (v / 4096 % 1024) ≡ k * 2 ^ 12 + 2
      → in_table (some q.page_tab) user v ≡ none
  absent q user v k e = rw e (rw (even k))
    where
      even : (n : ℕ) → is_present (n * 2 ^ 12 + 2) ≡ false
      even n = ground arith

  own : (a : ℕ) → a ≡ p.page_tab_addr → table_at tables a ≡ some tables.page_tab
  unfolding tables init_tables
  own a e = rw (e, ==_refl p.page_tab_addr)

  in_first : (v : ℕ) → v / 2 ^ 22 ≡ 0 → translate tables v ≡ in_table (some tables.page_tab) false v
  in_first v h =
      rw (h, dir_zero)
        (by_entry_table tables place.tab_page 3 v (inl refl)
          ∙ ap (λ t. in_table t false v) own_table)
    where
      own_table : table_at tables (place.tab_page * 2 ^ 12) ≡ some tables.page_tab
      own_table = own (place.tab_page * 2 ^ 12) (sym place.tab_aligned)

  init_map :
      (v : ℕ)
      → v < 2 ^ 32
      → translate tables v ≡ (if v / 4096 == 0xB8 || v / 2 ^ 22 == 1 then some (v, false) else none)
  init_map v h = elim (ℕ_discrete (v / 2 ^ 22) 0) [
    | yes zeroth ↦ elim (ℕ_discrete (v / 4096) 0xB8) [
      | yes video ↦
          in_first v zeroth
          ∙ in_table_page tables.page_tab 0xB8 3 v false (inl refl) (rw video tab_video)
          ∙ rw video (ap (λ a. some (a, false)) (omega arith))
      | no other ↦
          in_first v zeroth
          ∙ absent tables false v (v / 4096 % 1024)
              (tab_other (v / 4096 % 1024) (omega arith) (omega arith))
          ∙ rw (ne→== (v / 4096) 0xB8 other, zeroth)
    ]
    | no later ↦ elim (ℕ_discrete (v / 2 ^ 22) 1) [
      | yes first ↦
          rw (first, dir_one, kernel_not_video first) (ap (λ a. some (a, false)) (omega arith))
      | no other ↦ rw (
        dir_other (v / 2 ^ 22) later other (omega arith),
        ne→== (v / 2 ^ 22) 1 other,
        ne→== (v / 4096) 0xB8 (omega arith),
      )
    ]
  ]
    where
      kernel_not_video : v / 2 ^ 22 ≡ 1 → (v / 4096 == 0xB8) ≡ false
      kernel_not_video e = ne→== (v / 4096) 0xB8 (omega arith)

-- Of the 4 GB only the page of video memory at 0xB8000 and the 4 MB of the kernel at 4 MB are mapped
-- when `paging_init` is done, each to itself and closed to user programs. The two page tables must be
-- different pages.
pub paging_init_lem :
    (m : Machine) (v : ℕ)
    → IsPlaced m.paging
    → v < 2 ^ 32
    → translate (paging_init m).paging v
      ≡ (if v / 4096 == 0xB8 || v / 2 ^ 22 == 1 then some (v, false) else none)
unfolding paging_init tables
paging_init_lem m v place h = init_map m.paging place v h
