-- ===== src/Boot/Initial.antt =====
-- student-distrib/kernel.c: the machine behind `entry`.
use linux_like_os_kernel.Prelude.{
  ℕ, zero, suc, ◌+◌, ◌-◌, ◌*◌, ◌<◌, Bool, true, false, ◌&&◌, ◌||◌, not, ltb, ◌==◌, if◌then◌else◌,
  ascii, some, List, [], ◌∷◌, ◌≡◌, refl, arith, ap, sym, subst, holds_below, holds_below_lem,
  Bool-cases, inl, inr, ◌⊎◌, ◌≢◌, ==_iff,
}
use linux_like_os_kernel.Machine.{Machine}
use linux_like_os_kernel.Pic.{i8259_init, enable_irq}
use linux_like_os_kernel.Pic.Masks.{is_masked}
use linux_like_os_kernel.Pic.Masks.Bits.{bit_at}
use linux_like_os_kernel.Console.{clear, attrib}
use linux_like_os_kernel.Console.Cells.{cells_at}
use linux_like_os_kernel.Console.Frame.{IsPrinting, IsPrinting-trans, IsPrinting-if}
use linux_like_os_kernel.Printf.{Arg}
use linux_like_os_kernel.Printf.Frame.{printf-IsPrinting}
use linux_like_os_kernel.Rtc.{rtc_init, rtc_set_freq, rate_loop}
use linux_like_os_kernel.Paging.{paging_init, terminal_video_mapping}
use linux_like_os_kernel.Boot.Screens.{IsFresh, three_terms_lem, three_screens_lem}
use linux_like_os_kernel.Terminal.{term_init, init_terms}
use linux_like_os_kernel.Scheduler.{pit_init}
use linux_like_os_kernel.Keyboard.{keyboard_init}
use linux_like_os_kernel.Interrupts.{Idt, idt_init, mouse_init}
use linux_like_os_kernel.Boot.{
  Module, MemoryMap, MultibootInfo, Entry, waiting, stopped, check_flag, print_bytes, print_module,
  print_modules, print_map, print, when, print_info, print_tables, init_fs, init_devices, entry,
  multiboot_bootloader_magic,
}

-- A part of `entry` that only prints.
abbrev Prints : (Machine → Machine) → Type 0
Prints f = (m : Machine) → IsPrinting m (f m)

print-Prints : (format : List ℕ) (args : List Arg) → Prints (print format args)
unfolding print
print-Prints format args m = printf-IsPrinting format args m

then-Prints : (f g : Machine → Machine) → Prints f → Prints g → Prints (λ m. g (f m))
then-Prints f g p q m = IsPrinting-trans m (f m) (g (f m)) (p m) (q (f m))

when-Prints : (b : Bool) (f : Machine → Machine) → Prints f → Prints (when b f)
unfolding when
when-Prints b f p m = IsPrinting-if b m (f m) m (p m) refl

clear-Prints : Prints clear
unfolding clear
clear-Prints m = refl

print_bytes-Prints : (start n : ℕ) → Prints (print_bytes start n)
unfolding print_bytes
print_bytes-Prints start zero m = refl
print_bytes-Prints start (suc n) m =
    IsPrinting-trans m (print_bytes start n m) _ (print_bytes-Prints start n m)
      (print-Prints (ascii "0x%x ") _ (print_bytes start n m))

print_module-Prints : (mod_count : ℕ) (loaded : Module) → Prints (print_module mod_count loaded)
unfolding print_module
print_module-Prints mod_count loaded =
    then-Prints _ _
      (then-Prints _ _
        (then-Prints _ _ (then-Prints _ _ (print-Prints _ _) (print-Prints _ _)) (print-Prints _ _))
        (print_bytes-Prints loaded.mod_start 16))
      (print-Prints _ _)

print_modules-Prints : (mods : ℕ → Module) (n : ℕ) → Prints (print_modules mods n)
unfolding print_modules
print_modules-Prints mods zero m = refl
print_modules-Prints mods (suc n) m =
    then-Prints _ _ (print_modules-Prints mods n) (print_module-Prints n (mods n)) m

print_map-Prints : (mmap : List MemoryMap) → Prints (print_map mmap)
unfolding print_map
print_map-Prints [] m = refl
print_map-Prints (region ∷ rest) m =
    then-Prints _ (print_map rest) (print-Prints _ _) (print_map-Prints rest) m

print_info-Prints : (mbi : MultibootInfo) → Prints (print_info mbi)
unfolding print_info
print_info-Prints mbi =
    then-Prints _ _
      (then-Prints _ _
        (then-Prints _ _ (then-Prints _ _ (print-Prints _ _) (when-Prints _ _ (print-Prints _ _)))
          (when-Prints _ _ (print-Prints _ _)))
        (when-Prints _ _ (print-Prints _ _)))
      (when-Prints _ _ (print_modules-Prints mbi.mods mbi.mods_count))

print_tables-Prints : (mbi : MultibootInfo) → Prints (print_tables mbi)
unfolding print_tables
print_tables-Prints mbi =
    then-Prints _ _ (when-Prints _ _ (print-Prints _ _))
      (when-Prints _ _ (then-Prints _ _ (print-Prints _ _) (print_map-Prints mbi.mmap)))

-- What the static variables hold when the boot loader starts `entry`.
pub record IsLoaded (m : Machine) : Type 0 where
  pub master : m.pic.master_mask ≡ 0xFF
  pub slave : m.pic.slave_mask ≡ 0xFF
  pub no_process : (i j : ℕ) → m.pcb_mask i j ≡ 0
  pub no_keys : (i : ℕ) → (m.term i).key_buf_idx ≡ 0

-- The interrupts that the kernel handles: the timer, the keyboard, the slave controller, the clock, the mouse.
abbrev pub is_used : ℕ → Bool
is_used j = j == 0 || j == 1 || j == 2 || j == 8 || j == 12

-- The machine that waits for interrupts: only the interrupts that the kernel handles come through, no
-- terminal is shown, each is fresh and its screen blank, and terminal 0 has had the last turn.
pub record IsBooted (m : Machine) : Type 0 where
  pub lines : (j : ℕ) → j < 16 → is_masked m j ≡ not (is_used j)
  pub shown : m.cur_term_id ≡ 3
  pub turn : m.now_term_id ≡ 0
  pub idle : (i : ℕ) → i < 3 → ((m.term i).cur_pcb_id ≡ 255) × ((m.term i).running ≡ 0)
  pub fresh : (i : ℕ) → i < 3 → IsFresh i (m.term i)
  pub blanks :
      (i k : ℕ) → i < 3 → k < 2000 → cells_at (0xB9000 + 0x1000 * i) m.mem k ≡ (b' ', attrib i)
  pub screens : (i : ℕ) → i < 3 → (m.term i).video_mem ≡ 0xB9000 + 0x1000 * i
  pub no_keys : (i : ℕ) → (m.term i).key_buf_idx ≡ 0
  pub no_process : (i j : ℕ) → m.pcb_mask i j ≡ 0
  pub stack : m.tss_esp0 ≡ 0x800000

-- The masks behind the five calls of `enable_irq`.
line_test : ℕ → Bool
line_test j =
    if (if ltb j 8 then bit_at 0xF8 j == 1 else bit_at 0xEE (j - 8) == 1)
    then not (is_used j)
    else is_used j

lines_table : holds_below 16 line_test ≡ true
unfolding holds_below line_test
lines_table = refl

agree : (a b : Bool) → (if a then not b else b) ≡ true → a ≡ not b
agree a b h = ground arith

lines_lem :
    (master slave j : ℕ)
    → master ≡ 0xF8
    → slave ≡ 0xEE
    → j < 16
    → (if ltb j 8 then bit_at master j == 1 else bit_at slave (j - 8) == 1) ≡ not (is_used j)
unfolding line_test
lines_lem master slave j p q h =
    rw (p, q) (agree _ (is_used j) (holds_below_lem 16 line_test j lines_table h))

init_devices-IsBooted :
    (prev_b prev_a : ℕ) (mbi : MultibootInfo) (m : Machine)
    → IsLoaded m
    → m.tss_esp0 ≡ 0x800000
    → (m' : Machine) × (init_devices prev_b prev_a mbi m ≡ some m') × IsBooted m'
unfolding init_devices i8259_init rtc_init rtc_set_freq rate_loop pit_init keyboard_init mouse_init
    paging_init init_fs term_init init_terms terminal_video_mapping enable_irq
init_devices-IsBooted prev_b prev_a mbi m l esp = (
  _,
  refl,
  record {
    lines = λ j h. lines_lem _ _ j (rw l.master) (rw l.slave) h;
    shown = refl;
    turn = refl;
    idle = λ i h. ground arith;
    fresh = λ i h. three_terms_lem m.term i h;
    blanks = λ i k h l. three_screens_lem _ i k h l;
    screens = λ i h. ground arith;
    no_keys = λ i. ground (arith, l.no_keys i);
    no_process = l.no_process;
    stack = esp;
  },
)

-- The static variables that `IsLoaded` speaks of are not the screen's.
IsLoaded-printed : (m m' : Machine) → IsPrinting m m' → IsLoaded m → IsLoaded m'
IsLoaded-printed m m' p l =
    subst IsLoaded (sym p) (record {
      master = l.master;
      slave = l.slave;
      no_process = l.no_process;
      no_keys = l.no_keys;
    })

-- How `entry` ends.
pub data Ended (magic : ℕ) (mbi : MultibootInfo) (idt : Idt) (m : Machine) (e : Entry)
    : Type 0 where
  boots :
      (m' : Machine)
      → magic ≡ multiboot_bootloader_magic
      → (check_flag mbi.flags 4 && check_flag mbi.flags 5) ≡ false
      → e ≡ waiting (idt_init idt) m'
      → IsBooted m'
      → Ended magic mbi idt m e
  stops :
      (m' : Machine)
      → ((magic ≢ multiboot_bootloader_magic)
          ⊎ ((check_flag mbi.flags 4 && check_flag mbi.flags 5) ≡ true))
      → e ≡ stopped m'
      → IsPrinting m m'
      → Ended magic mbi idt m e

-- Started with the boot loader's magic number and not both of the bits 4 and 5, `entry` ends with the
-- interrupts on: the gates are those of `idt_init`, only the lines 0, 1, 2, 8 and 12 come through, each
-- terminal has a blank screen, its cursor in the first cell, no line in its key buffer and no process,
-- and none is shown. Otherwise it returns, and has done
-- nothing but print. The static variables must be as the boot loader finds them.
pub entry-Ended :
    (magic : ℕ) (mbi : MultibootInfo) (prev_b prev_a : ℕ) (idt : Idt) (m : Machine)
    → IsLoaded m
    → Ended magic mbi idt m (entry magic mbi prev_b prev_a idt m)
unfolding entry
entry-Ended magic mbi prev_b prev_a idt m l =
    elim (Bool-cases (magic == multiboot_bootloader_magic)) [
      | inr wrong ↦ rw wrong (
          stops _ (inl (λ e. ne magic wrong e)) refl
            (IsPrinting-trans m (clear m) _ (clear-Prints m) (print-Prints _ _ (clear m))))
      | inl right ↦ elim (Bool-cases (check_flag mbi.flags 4 && check_flag mbi.flags 5)) [
        | inl both ↦
            rw (right, both)
              (stops _ (inr both) refl (IsPrinting-trans m m2 _ m-m2 (print-Prints _ _ m2)))
        | inr one ↦
            let (m', e, booted) =
              init_devices-IsBooted prev_b prev_a mbi (print (ascii "Enabling Interrupts\n") [] m3)
                (IsLoaded-printed m3 _ (print-Prints _ _ m3) l3)
                (ap (λ (x : Machine). x.tss_esp0)
                  (print-Prints (ascii "Enabling Interrupts\n") [] m3)) in
            rw (right, one, e)
              (boots m' ((==_iff magic multiboot_bootloader_magic).0 right) one refl booted)
      ]
    ]
  where
    ne : (k : ℕ) → (k == multiboot_bootloader_magic) ≡ false → ¬ (k ≡ multiboot_bootloader_magic)
    ne k h e = ground arith

    m2 : Machine
    m2 = print_info mbi (clear m)

    m-m2 : IsPrinting m m2
    m-m2 = IsPrinting-trans m (clear m) m2 (clear-Prints m) (print_info-Prints mbi (clear m))

    m3 : Machine
    m3 = record (print_tables mbi m2) { tss_ss0 = 0x18; tss_esp0 = 0x800000 }

    l3 : IsLoaded m3
    l3 =
        let r =
          IsLoaded-printed m (print_tables mbi m2)
            (IsPrinting-trans m m2 _ m-m2 (print_tables-Prints mbi m2)) l in
        record {
          master = r.master;
          slave = r.slave;
          no_process = r.no_process;
          no_keys = r.no_keys;
        }
