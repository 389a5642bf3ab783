-- ===== src/Paging/Tests.antt =====
-- student-distrib/paging.c: the mappings at concrete addresses.
use linux_like_os_kernel.Prelude.{
  ◌+◌, ◌*◌, ◌/◌, ◌%◌, ◌^◌, true, false, ◌==◌, ◌||◌, if◌then◌else◌, none, some, ◌≡◌, arith,
}
use linux_like_os_kernel.Fixtures.{boot}
use linux_like_os_kernel.Paging.{paging_init, pcb_mapping}
use linux_like_os_kernel.Paging.Translation.{translate}
use linux_like_os_kernel.Paging.Mappings.{IsPlaced, pcb_mapping_lem}
use linux_like_os_kernel.Paging.Init.{paging_init_lem}

boot-IsPlaced : IsPlaced boot.paging
boot-IsPlaced = record {
  tab_page = 0x500;
  video_page = 0x501;
  tab_aligned = omega arith;
  video_aligned = omega arith;
  different = omega arith;
}

pcb_mapping_lem_example :
    translate (pcb_mapping 0x8000000 (0x800000 + 3 * 0x400000) boot).paging 0x8048018 ≡ (
      if 0x8048018 / 0x400000 == 32
      then some (0x800000 + 3 * 0x400000 + 0x8048018 % 0x400000, true)
      else translate boot.paging 0x8048018)
pcb_mapping_lem_example = pcb_mapping_lem boot 3 0x8048018

paging_init_lem_example :
    translate (paging_init boot).paging 0xB8000
    ≡ (if 0xB8000 / 4096 == 0xB8 || 0xB8000 / 2 ^ 22 == 1 then some (0xB8000, false) else none)
paging_init_lem_example = paging_init_lem boot 0xB8000 boot-IsPlaced (omega arith)
