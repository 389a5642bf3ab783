-- ===== src/Boot/Tests.antt =====
-- student-distrib/kernel.c: `entry` without modules, and the first turn of the timer.
use linux_like_os_kernel.Prelude.{◌≡◌, refl, arith, ascii, none, []}
use linux_like_os_kernel.Machine.{Machine}
use linux_like_os_kernel.Fixtures.{boot}
use linux_like_os_kernel.Interrupts.{Idt, idt_init}
use linux_like_os_kernel.Halt.Disk.{frame}
use linux_like_os_kernel.Scheduler.{pit_interrupt_handler}
use linux_like_os_kernel.Kernel.{Ends}
use linux_like_os_kernel.Kernel.Sound.{IsSound}
use linux_like_os_kernel.Boot.First.{entry-IsSound}
use linux_like_os_kernel.Boot.{MultibootInfo, waiting, entry}
use linux_like_os_kernel.Boot.Segments.{SegDesc, init_segments, IsSystemSegment, init_segments_lem}
use linux_like_os_kernel.Boot.Initial.{IsLoaded, Ended, entry-Ended}

abbrev no_modules : MultibootInfo
no_modules = record {
  flags = 1;
  mem_lower = 640;
  mem_upper = 65536;
  boot_device = 0;
  cmdline = ascii "kernel";
  mods_count = 0;
  mods = λ i. record { mod_start = 0; mod_end = 0 };
  elf_sec = record { num = 0; size = 0; addr = 0; shndx = 0 };
  mmap_length = 0;
  mmap_addr = 0;
  mmap = [];
}

abbrev no_gates : Idt
no_gates i = record {
  offset = none;
  seg_selector = 0;
  reserved4 = 0;
  reserved3 = 0;
  reserved2 = 0;
  reserved1 = 0;
  size = 0;
  reserved0 = 0;
  dpl = 0;
  present = 0;
}

boot-IsLoaded : IsLoaded boot
boot-IsLoaded = record {
  master = refl;
  slave = refl;
  no_process = λ i j. refl;
  no_keys = λ i. refl;
}

entry-Ended_example :
    Ended 0x2BADB002 no_modules no_gates boot (entry 0x2BADB002 no_modules 0 0 no_gates boot)
entry-Ended_example = entry-Ended 0x2BADB002 no_modules 0 0 no_gates boot boot-IsLoaded

entry-IsSound_example :
    (booted : Machine) × (first : Machine) × (entry 0x2BADB002 no_modules 0 0 no_gates boot
      ≡ waiting (idt_init no_gates) booted)
    × Ends (pit_interrupt_handler frame 7 8 booted) first
    × IsSound first
entry-IsSound_example = entry-IsSound no_modules 0 0 no_gates boot frame 7 8 boot-IsLoaded refl

abbrev no_descriptor : SegDesc
no_descriptor = record {
  seg_lim_15_00 = 7;
  base_15_00 = 7;
  base_23_16 = 7;
  segment_type = 7;
  sys = 1;
  dpl = 3;
  present = 0;
  seg_lim_19_16 = 7;
  avail = 1;
  reserved = 1;
  opsize = 0;
  granularity = 1;
  base_31_24 = 7;
}

init_segments_lem_example :
    IsSystemSegment 0x40A010 39 2
      (init_segments 0x40A010 39 0x40A098 103 no_descriptor no_descriptor).ldt_desc_ptr
    × IsSystemSegment 0x40A098 103 9
        (init_segments 0x40A010 39 0x40A098 103 no_descriptor no_descriptor).tss_desc_ptr
init_segments_lem_example =
    init_segments_lem 0x40A010 39 0x40A098 103 no_descriptor no_descriptor (omega arith)
      (omega arith) (omega arith) (omega arith)
