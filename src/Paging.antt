-- ===== src/Paging.antt =====
-- student-distrib/paging.c and paging.h: the page directory, the page tables, and what they map.
pub mod Translation
pub mod Mappings
pub mod Init
mod Tests
use linux_like_os_kernel.Prelude.{
  ℕ, zero, suc, ◌+◌, ◌*◌, ◌/◌, ◌%◌, ◌^◌, Bool, true, false, ltb, ◌==◌, if◌then◌else◌, bit_or,
  bit_and, update, fill,
}
use linux_like_os_kernel.Machine.{Machine, Paging}

abbrev pub dir_size : ℕ
dir_size = 1024

abbrev pub tab_size : ℕ
tab_size = 1024

-- The uint32_t whose four bytes `memset` has set to the low byte of `c`.
abbrev pub memset_word : ℕ → ℕ
memset_word c = let b = bit_and c 0xFF in b + b * 2 ^ 8 + b * 2 ^ 16 + b * 2 ^ 24

-- The tables when `paging_init` turns paging on.
unfoldable pub init_tables : Paging → Paging
init_tables p =
    let dir = fill p.page_dir 0 (λ i. memset_word 0x00000002) dir_size in
    let tab = fill p.page_tab 0 (λ i. bit_or (i * 0x1000) 2) tab_size in
    record p {
      page_dir = update (update dir 0 (bit_or p.page_tab_addr 3)) 1 (bit_or 0x400000 0x83);
      page_tab = update tab 0xB8 (bit_or (tab 0xB8) 3);
    }

unfoldable pub paging_init : Machine → Machine
unfolding init_tables
paging_init m = record m { paging = init_tables m.paging }

-- `flush` reloads CR3 with its own value, which changes no table.
unfoldable pub pcb_mapping : ℕ → ℕ → Machine → Machine
pcb_mapping virtual_address physical_address m = record m {
  paging = record (m.paging) {
    page_dir = update m.paging.page_dir (virtual_address / 0x400000) (bit_or physical_address 0x87);
  };
}

-- `syscall_video_mapping` and `scheduling_video_mapping` have the same body.
unfoldable pub syscall_video_mapping : ℕ → Machine → Machine
syscall_video_mapping physical_address m = record m {
  paging = record (m.paging) {
    page_dir = update m.paging.page_dir 33 (bit_or m.paging.page_video_tab_addr 0x7);
    page_video_tab = update m.paging.page_video_tab 0 (bit_or physical_address 0x7);
  };
}

unfoldable pub scheduling_video_mapping : ℕ → Machine → Machine
scheduling_video_mapping physical_address m = record m {
  paging = record (m.paging) {
    page_dir = update m.paging.page_dir 33 (bit_or m.paging.page_video_tab_addr 0x7);
    page_video_tab = update m.paging.page_video_tab 0 (bit_or physical_address 0x7);
  };
}

unfoldable pub terminal_video_mapping : ℕ → ℕ → Machine → Machine
terminal_video_mapping physical_address page_idx m = record m {
  paging = record (m.paging) {
    page_dir = update m.paging.page_dir 0 (bit_or m.paging.page_tab_addr 0x3);
    page_tab = update m.paging.page_tab (0xB9 + page_idx) (bit_or physical_address 0x3);
  };
}
