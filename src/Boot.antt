-- ===== src/Boot.antt =====
-- student-distrib/kernel.c and multiboot.h: `entry`, which the boot loader starts: what it prints of the
-- boot loader's structures, and the order in which it initialises the parts of the kernel.
pub mod Screens
pub mod Initial
pub mod First
pub mod Segments
mod Tests
use linux_like_os_kernel.Prelude.{
  ℕ, zero, suc, ◌+◌, ◌-◌, ◌^◌, Bool, true, false, ◌&&◌, not, ltb, ◌==◌, if◌then◌else◌, bit_and,
  ascii, Option, none, some, List, [], ◌∷◌, ℤ,
}
use linux_like_os_kernel.Machine.{Machine, ◌▷◌}
use linux_like_os_kernel.Pic.{i8259_init}
use linux_like_os_kernel.Console.{clear}
use linux_like_os_kernel.Printf.{Arg, word, text}
use linux_like_os_kernel.Rtc.{rtc_init}
use linux_like_os_kernel.Paging.{paging_init}
use linux_like_os_kernel.FileSystem.{fs_init}
use linux_like_os_kernel.Terminal.{term_init}
use linux_like_os_kernel.Process.{kernel_ds}
use linux_like_os_kernel.Scheduler.{pit_init}
use linux_like_os_kernel.Keyboard.{keyboard_init}
use linux_like_os_kernel.Interrupts.{Idt, idt_init, mouse_init, say_with}

-- `elf_section_header_table_t`
pub record ElfSectionHeaderTable : Type 0 where
  pub num : ℕ
  pub size : ℕ
  pub addr : ℕ
  pub shndx : ℕ

-- `module_t`, less the two fields that are not read
pub record Module : Type 0 where
  pub mod_start : ℕ
  pub mod_end : ℕ

-- `memory_map_t`
pub record MemoryMap : Type 0 where
  pub size : ℕ
  pub base_addr_low : ℕ
  pub base_addr_high : ℕ
  pub length_low : ℕ
  pub length_high : ℕ
  pub memory_type : ℕ

-- `multiboot_info_t`, and what its pointers lead to: the string at `cmdline`, the array at `mods_addr`
-- and the entries that the loop over the memory map visits.
pub record MultibootInfo : Type 0 where
  pub flags : ℕ
  pub mem_lower : ℕ
  pub mem_upper : ℕ
  pub boot_device : ℕ
  pub cmdline : List ℕ
  pub mods_count : ℕ
  pub mods : ℕ → Module
  pub elf_sec : ElfSectionHeaderTable
  pub mmap_length : ℕ
  pub mmap_addr : ℕ
  pub mmap : List MemoryMap

abbrev pub multiboot_bootloader_magic : ℕ
multiboot_bootloader_magic = 0x2BADB002

-- `CHECK_FLAG(flags, bit)`
abbrev pub check_flag : ℕ → ℕ → Bool
check_flag flags bit = not (bit_and flags (2 ^ bit) == 0)

-- A byte as the argument of a `printf`: a char is signed.
abbrev pub char_arg : ℕ → Arg
char_arg c = word (if ltb c 128 then c else 2 ^ 32 + c - 256)

-- A call of `printf`, and a part that is done if a bit of the flags is set.
unfoldable pub print : List ℕ → List Arg → Machine → Machine
print format args m = say_with format args m

unfoldable pub when : Bool → (Machine → Machine) → Machine → Machine
when b f m = if b then f m else m

-- The loop over the first bytes of a module, after `n` of them.
unfoldable pub print_bytes : ℕ → ℕ → Machine → Machine
print_bytes start zero m = m
print_bytes start (suc n) m =
    let m' = print_bytes start n m in print (ascii "0x%x ") (char_arg (m'.mem (start + n)) ∷ []) m'

-- One pass of the loop over the modules.
unfoldable pub print_module : ℕ → Module → Machine → Machine
print_module mod_count loaded m =
    m
    ▷ print (ascii "Module %d loaded at address: 0x%#x\n")
        (word mod_count ∷ word loaded.mod_start ∷ [])
    ▷ print (ascii "Module %d ends at address: 0x%#x\n") (word mod_count ∷ word loaded.mod_end ∷ [])
    ▷ print (ascii "First few bytes of module:\n") []
    ▷ print_bytes loaded.mod_start 16
    ▷ print (ascii "\n") []

-- The loop, after `n` modules.
unfoldable pub print_modules : (ℕ → Module) → ℕ → Machine → Machine
print_modules mods zero m = m
print_modules mods (suc n) m = print_module n (mods n) (print_modules mods n m)

-- The loop over the memory map.
unfoldable pub print_map : List MemoryMap → Machine → Machine
print_map [] m = m
print_map (region ∷ rest) m =
    m
    ▷ print
        (ascii "    size = 0x%x, base_addr = 0x%#x%#x\n    type = 0x%x,  length    = 0x%#x%#x\n")
        (word region.size
          ∷ word region.base_addr_high
          ∷ word region.base_addr_low
          ∷ word region.memory_type
          ∷ word region.length_high
          ∷ word region.length_low
          ∷ [])
    ▷ print_map rest

-- From "Print out the flags" to the loop over the modules.
unfoldable pub print_info : MultibootInfo → Machine → Machine
print_info mbi m =
    m
    ▷ print (ascii "flags = 0x%#x\n") (word mbi.flags ∷ [])
    ▷ when (check_flag mbi.flags 0) (
        print (ascii "mem_lower = %uKB, mem_upper = %uKB\n")
          (word mbi.mem_lower ∷ word mbi.mem_upper ∷ []))
    ▷ when (check_flag mbi.flags 1)
        (print (ascii "boot_device = 0x%#x\n") (word mbi.boot_device ∷ []))
    ▷ when (check_flag mbi.flags 2) (print (ascii "cmdline = %s\n") (text mbi.cmdline ∷ []))
    ▷ when (check_flag mbi.flags 3) (print_modules mbi.mods mbi.mods_count)

-- From the section header table to the loop over the memory map.
unfoldable pub print_tables : MultibootInfo → Machine → Machine
print_tables mbi m =
    m
    ▷ when (check_flag mbi.flags 5) (
        print (ascii "elf_sec: num = %u, size = 0x%#x, addr = 0x%#x, shndx = 0x%#x\n") (
          word mbi.elf_sec.num
          ∷ word mbi.elf_sec.size
          ∷ word mbi.elf_sec.addr
          ∷ word mbi.elf_sec.shndx
          ∷ []))
    ▷ when (check_flag mbi.flags 6) (λ x.
      x
      ▷ print (ascii "mmap_addr = 0x%#x, mmap_length = 0x%x\n")
          (word mbi.mmap_addr ∷ word mbi.mmap_length ∷ [])
      ▷ print_map mbi.mmap)

-- `fs_init(start_addr, end_addr)`, whose result is dropped. The two variables are 0 without modules.
unfoldable pub init_fs : MultibootInfo → Machine → Machine
init_fs mbi m =
    let loaded = mbi.mods 0 in
    let start_addr = if check_flag mbi.flags 3 then loaded.mod_start else 0 in
    let end_addr = if check_flag mbi.flags 3 then loaded.mod_end else 0 in
    record m { fs = (fs_init start_addr end_addr m.mem m.fs).1 }

-- From `i8259_init` to `term_init`. `prev_b` and `prev_a` are the clock's registers.
unfoldable pub init_devices : ℕ → ℕ → MultibootInfo → Machine → Option Machine
init_devices prev_b prev_a mbi m = elim (rtc_init prev_b prev_a (i8259_init m)) [
  | none ↦ none
  | some m1 ↦
      some (m1 ▷ pit_init ▷ keyboard_init ▷ mouse_init ▷ paging_init ▷ init_fs mbi ▷ term_init)
]

-- How `entry` ends: it returns to boot.S, which halts, or waits for interrupts, which are on, with the
-- table of gates that they go through; `hangs` stands for a loop of `rtc_init` that does not end.
pub data Entry : Type 0 where
  stopped : Machine → Entry
  waiting : Idt → Machine → Entry
  hangs : Entry

-- `launch_tests` runs nothing: each of its calls is commented out. Of the descriptors of the LDT and the TSS,
-- which are set up before "Enabling Interrupts", only two fields of the TSS are in the machine; the rest is
-- `init_segments` of Segments.
unfoldable pub entry : ℕ → MultibootInfo → ℕ → ℕ → Idt → Machine → Entry
entry magic mbi prev_b prev_a idt m =
    let m1 = clear m in
    if not (magic == multiboot_bootloader_magic)
    then stopped (print (ascii "Invalid magic number: 0x%#x\n") (word magic ∷ []) m1)
    else (let m2 = print_info mbi m1 in
        if check_flag mbi.flags 4 && check_flag mbi.flags 5
        then stopped (print (ascii "Both bits 4 and 5 are set.\n") [] m2)
        else (let m3 : Machine = record (print_tables mbi m2) {
          tss_ss0 = kernel_ds;
          tss_esp0 = 0x800000;
        } in
            elim (init_devices prev_b prev_a mbi (print (ascii "Enabling Interrupts\n") [] m3)) [
              | none ↦ hangs
              | some m4 ↦ waiting (idt_init idt) m4
            ]))
