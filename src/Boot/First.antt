-- ===== src/Boot/First.antt =====
-- student-distrib/kernel.c and scheduling.c: the first turn of the timer after `entry`, which starts a shell
-- in terminal 1.
use linux_like_os_kernel.Prelude.{
  ℕ, ◌+◌, ◌%◌, Bool, true, false, ◌==◌, ltb, if◌then◌else◌, some, pos, ◌≡◌, refl, arith, sym, subst,
  fun_ext, ◌&&◌, ◌⊎◌, ◌≢◌, inl, inr,
}
use linux_like_os_kernel.Machine.{Machine, set_term, set_pcb, term_pcb_id}
use linux_like_os_kernel.Pic.{send_eoi}
use linux_like_os_kernel.Terminal.{term_save, term_restore}
use linux_like_os_kernel.Process.{
  Outcome, returned, entered, resumed, fault, Frame, Parse, parsed, long_name, overrun,
  parse_command, parse_from, execute, pcb_total_number,
}
use linux_like_os_kernel.Process.Faults.{IsLive, execute-IsLive}
use linux_like_os_kernel.Halt.{shell}
use linux_like_os_kernel.Scheduler.{term_launch, pit_interrupt_handler}
use linux_like_os_kernel.Interrupts.{Idt, idt_init}
use linux_like_os_kernel.Kernel.{Ends}
use linux_like_os_kernel.Kernel.Sound.{IsSound, IsIdle, term_restore-IsSound, set_term-IsSound}
use linux_like_os_kernel.Kernel.Calls.{Leaves, execute-Leaves}
use linux_like_os_kernel.Kernel.Turns.{launched-Leaves}
use linux_like_os_kernel.Boot.{
  MultibootInfo, waiting, entry, check_flag, multiboot_bootloader_magic,
}
use linux_like_os_kernel.Boot.Initial.{IsLoaded, IsBooted, boots, stops, entry-Ended}

-- The invariant holds of the machine with which an outcome goes on, and it is not a fault.
record IsGood (out : Outcome) : Type 0 where
  leaves : Leaves out
  live : IsLive out

if-IsGood_yes :
    (b : Bool) (out out' : Outcome) → b ≡ true → IsGood out → IsGood (if b then out else out')
if-IsGood_yes b out out' e l = rw e l

if-IsGood_no :
    (b : Bool) (out out' : Outcome) → b ≡ false → IsGood out' → IsGood (if b then out else out')
if-IsGood_no b out out' e l = rw e l

if-IsIdle : (b : Bool) (m m' : Machine) → b ≡ false → IsIdle m' → IsIdle (if b then m else m')
if-IsIdle b m m' e s = rw e s

launched-IsLive :
    (out : Outcome)
    → IsLive out
    → IsLive (elim out as (λ o. Outcome) [
      | returned result m3 ↦ returned (pos 0) m3
      | entered pc m3 ↦ entered pc m3
      | resumed st ebp esp m3 ↦ resumed st ebp esp m3
      | fault ↦ fault
    ])
launched-IsLive (returned result m3) l = tt
launched-IsLive (entered pc m3) l = tt
launched-IsLive (resumed st ebp esp m3) l = tt
launched-IsLive fault l = l

-- The loop over "shell" ends.
shell_name : Parse → ℕ → ℕ
shell_name (parsed filename fileargs) = filename
shell_name long_name = λ i. 0
shell_name overrun = λ i. 0

shell_args : Parse → ℕ → ℕ
shell_args (parsed filename fileargs) = fileargs
shell_args long_name = λ i. 0
shell_args overrun = λ i. 0

shell_parsed :
    parse_command shell
    ≡ parsed (shell_name (parse_command shell)) (shell_args (parse_command shell))
unfolding parse_command parse_from shell_name shell_args
shell_parsed = refl

-- `term_launch` of terminal 1 when no terminal is shown.
launch-IsGood :
    (frame : Frame) (m : Machine)
    → m.cur_term_id ≡ 3
    → (m.term 1).running ≡ 0
    → IsIdle m
    → IsGood (term_launch frame 1 m)
unfolding term_launch
launch-IsGood frame m shown idle s = if-IsGood_no (1 == m.cur_term_id) _ _ (rw shown) (
    if-IsGood_yes ((m.term 1).running == 0) _ _ (rw idle) (record {
      leaves = launched-Leaves (execute frame (some shell) m2) (
          execute-Leaves frame (some shell) m2 (
            set_term-IsSound 1 (λ t. record t { running = 1 }) (term_restore 1 m1) (r.shape.aside 1)
              r));
      live =
          launched-IsLive (execute frame (some shell) m2)
            (execute-IsLive frame shell _ _ m2 shell_parsed);
    }))
  where
    m1 : Machine
    m1 = if ltb m.cur_term_id 3 then term_save m.cur_term_id m else m

    r : IsSound (term_restore 1 m1)
    r = term_restore-IsSound 1 m1 (omega arith) (if-IsIdle (ltb m.cur_term_id 3) _ m (rw shown) s)

    m2 : Machine
    m2 = set_term 1 (λ t. record t { running = 1 }) (term_restore 1 m1)

-- The timer's first interrupt leaves a machine of which the kernel's invariant holds.
first-IsGood :
    (frame : Frame) (ebp esp : ℕ) (m : Machine)
    → IsBooted m
    → IsGood (pit_interrupt_handler frame ebp esp m)
unfolding pit_interrupt_handler send_eoi pcb_total_number
first-IsGood frame ebp esp m b =
    if-IsGood_yes (((m.term next).cur_pcb_id) == 255) (term_launch frame next m2) _
      (rw (one, (b.idle 1 (omega arith)).0))
      (subst (λ k. IsGood (term_launch frame k m2)) (sym one)
        (launch-IsGood frame m2 b.shown (b.idle 1 (omega arith)).1 (record {
          has_turn = omega arith;
          aside = λ i. omega (arith, b.no_keys i);
          few = rw (fun_ext (λ i. fun_ext (λ j. b.no_process i j))) (omega arith);
        })))
  where
    next : ℕ
    next = (m.now_term_id + 1) % 3

    one : next ≡ 1
    one = rw b.turn

    kept : Machine
    kept =
        set_pcb (term_pcb_id m m.now_term_id) (λ p. record p { kbp = ebp; ksp = esp })
          (send_eoi 0 m)

    m2 : Machine
    m2 = record kept { next_term_id = next; prev_term_id = m.now_term_id; now_term_id = next }

-- The machine with which a good outcome goes on.
good_end : (out : Outcome) → IsGood out → (m : Machine) × Ends out m × IsSound m
good_end (returned z m) g = (m, refl, g.leaves)
good_end (entered pc m) g = (m, refl, g.leaves)
good_end (resumed st ebp esp m) g = (m, refl, g.leaves)
good_end fault g = absurd g.live

-- Started with the boot loader's magic number and not both of the bits 4 and 5, `entry` comes to wait
-- for interrupts, and the timer's first one ends without a fault, with a machine of which the kernel's
-- invariant holds: the terminal that is shown and the one whose turn it is are among the three, every
-- key buffer holds at most 128 characters, at most six processes run, and the cursor is on the screen.
-- The static variables must be as the boot loader finds them.
pub entry-IsSound :
    (mbi : MultibootInfo) (prev_b prev_a : ℕ) (idt : Idt) (m : Machine) (frame : Frame)
    (ebp esp : ℕ)
    → IsLoaded m
    → (check_flag mbi.flags 4 && check_flag mbi.flags 5) ≡ false
    → (booted : Machine) × (first : Machine) × (entry multiboot_bootloader_magic mbi prev_b prev_a
          idt m
        ≡ waiting (idt_init idt) booted)
      × Ends (pit_interrupt_handler frame ebp esp booted) first
      × IsSound first
entry-IsSound mbi prev_b prev_a idt m frame ebp esp l one =
    elim (entry-Ended multiboot_bootloader_magic mbi prev_b prev_a idt m l) [
      | boots booted right one' e b ↦
          (let (first, ends, s) = good_end _ (first-IsGood frame ebp esp booted b) in
            (booted, first, e, ends, s))
      | stops m' reason e p ↦ absurd (no_reason reason)
    ]
  where
    no_reason :
        (multiboot_bootloader_magic ≢ multiboot_bootloader_magic)
          ⊎ ((check_flag mbi.flags 4 && check_flag mbi.flags 5) ≡ true)
        → ⊥
    no_reason (inl ne) = ne refl
    no_reason (inr both) = true_or_false _ both one
      where
        true_or_false : (b : Bool) → b ≡ true → b ≡ false → ⊥
        true_or_false b p q = ground arith
