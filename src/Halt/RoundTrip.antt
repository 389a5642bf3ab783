-- ===== src/Halt/RoundTrip.antt =====
-- student-distrib/system_call.c: `halt` against the call of `execute` that had started the process.
use linux_like_os_kernel.Prelude.{
  ℕ, ◌+◌, ◌-◌, ◌*◌, ◌/◌, ◌%◌, ◌<◌, ◌==◌, if◌then◌else◌, ℤ, pos, failure, Option, List, bit_or, some,
  true, ◌≤◌, ◌≡◌, ◌≢◌, inl, inr, arith, ◌∙◌, ap, ne→==, sym, subst,
}
use linux_like_os_kernel.Machine.{Machine, Pcb, now_pcb_id, u8}
use linux_like_os_kernel.Paging.Translation.{translate}
use linux_like_os_kernel.Process.{
  entered, resumed, Frame, Mask, set_mask, pcb_process_number, execute,
}
use linux_like_os_kernel.Process.Mask.{pcb_process_number_lem}
use linux_like_os_kernel.Process.Start.{IsStarted, Starts, execute-Starts}
use linux_like_os_kernel.Halt.{halt}
use linux_like_os_kernel.Halt.Resume.{IsResumed, halt-IsResumed}

-- A number that is taken and given back leaves the table as it was.
set_mask-back :
    (mask : Mask) (t i : ℕ)
    → mask t i ≡ 0
    → (a b : ℕ) → set_mask (set_mask mask t i 1) t i 0 a b ≡ mask a b
set_mask-back mask t i free a b = ground (arith, free)

-- The numbers up to the one that is taken are taken.
taken_slot :
    (mask : Mask) (t i : ℕ)
    → ((j : ℕ) → j < i → mask t j ≢ 0)
    → (j : ℕ) → j ≤ i
    → set_mask mask t i 1 t j ≢ 0
taken_slot mask t i lowest j h = ground (arith, lowest j)

-- The number that a successful call has taken.
record IsSlot (term : ℕ) (mask : Mask) (n : ℕ) (after : Mask) : Type 0 where
  slot : ℕ
  in_row : slot < 4
  free : mask term slot ≡ 0
  lowest : (j : ℕ) → j < slot → mask term j ≢ 0
  number : n ≡ slot + term * 4
  changed : after ≡ set_mask mask term slot 1

IsTaken-IsSlot :
    (term : ℕ) (mask : Mask) (n : ℕ) (after : Mask)
    → term < 3
    → pcb_process_number term mask ≡ (pos n, after)
    → IsSlot term mask n after
IsTaken-IsSlot term mask n after h e = elim (pcb_process_number_lem term mask h) [
  | inl t ↦ record {
    slot = t.slot;
    in_row = t.in_row;
    free = t.free;
    lowest = t.lowest;
    number = same n (t.slot + term * 4) (ap (λ (x : ℤ × Mask). x.0) (sym e ∙ t.result));
    changed = ap (λ (x : ℤ × Mask). x.1) (sym e ∙ t.result);
  }
  | inr r ↦ absurd (refused n (ap (λ (x : ℤ × Mask). x.0) (sym e) ∙ r.failed))
]
  where
    same : (a b : ℕ) → pos a ≡ pos b → a ≡ b
    same a b p = cc p

    refused : (a : ℕ) → ¬ (pos a ≡ failure)
    refused a p = cc p

-- The process numbers of terminal `t` that are taken are those of their PCBs.
abbrev pub AreNumbered : Machine → ℕ → Type 0
AreNumbered m t =
    (j : ℕ) → j < 4 → m.pcb_mask t j ≢ 0 → (m.pcb (j + t * 4)).process_number ≡ j + t * 4

-- A PCB has what `execute` has stored for `halt`.
pub record IsKept (p p' : Pcb) : Type 0 where
  pub number : p'.process_number ≡ p.process_number
  pub parent : p'.parent_process_number ≡ p.parent_process_number
  pub kbp : p'.parent_kbp ≡ p.parent_kbp
  pub ksp : p'.parent_ksp ≡ p.parent_ksp

-- A program has run from machine `m` to `m'`, where it has the turn again: what of the machine its calls and
-- the interrupts bring back. The rest, such as memory, the screen and the descriptors, may differ.
pub record HasRun (m m' : Machine) : Type 0 where
  pub turn : m'.now_term_id ≡ m.now_term_id
  pub current : (m'.term m.now_term_id).cur_pcb_id ≡ (m.term m.now_term_id).cur_pcb_id
  pub mask : m'.pcb_mask ≡ m.pcb_mask
  pub no_exception : m'.interrupt_halt_flag ≡ m.interrupt_halt_flag
  pub kept :
      (t j : ℕ) → j < 4 → m.pcb_mask t j ≢ 0 → IsKept (m.pcb (j + t * 4)) (m'.pcb (j + t * 4))

-- The machine `after` goes on with process `caller` of the terminal that ran in machine `m`, with the process
-- numbers of `m`, and the user memory and the kernel stack of the process.
pub record IsBack (m : Machine) (caller : ℕ) (after : Machine) : Type 0 where
  pub numbers : (t j : ℕ) → after.pcb_mask t j ≡ m.pcb_mask t j
  pub current : (after.term m.now_term_id).cur_pcb_id + m.now_term_id * 4 ≡ caller
  pub memory :
      (v : ℕ)
      → v / 0x400000 ≡ 32
      → translate after.paging v ≡ some (0x800000 + caller * 0x400000 + v % 0x400000, true)
  pub kernel_stack : after.tss_esp0 ≡ 0x800000 - caller * 0x2000 - 4
  pub no_exception : after.interrupt_halt_flag ≡ 0

-- `execute` enters a program in a terminal that has a shell already, the program runs, and it halts: the
-- call of `execute` returns the status, to the registers that it had, to the process with the number
-- before the program's, with this process's user memory and kernel stack, and every process number is
-- free or taken as it was. The terminal that runs must be the one that is shown, and one of the three,
-- its PCBs must have their numbers, and the run must keep what `HasRun` says; descriptors and the rest
-- of memory are not spoken of.
pub execute-halt :
    (frame frame' : Frame) (command : Option (List ℕ)) (m m' m'' : Machine) (pc status : ℕ)
    → m.now_term_id < 3
    → m.cur_term_id ≡ m.now_term_id
    → m.pcb_mask m.now_term_id 0 ≢ 0
    → AreNumbered m m.now_term_id
    → execute frame command m ≡ entered pc m'
    → HasRun m' m''
    → (caller : ℕ) × (after : Machine) × (halt frame' status m''
        ≡ resumed status frame.ebp frame.esp after)
      × (caller + 1 ≡ (m'.term m.now_term_id).cur_pcb_id + m.now_term_id * 4)
      × IsBack m caller after
execute-halt frame frame' command m m' m'' pc status small shown has_shell numbered e run = (
  n - 1,
  r.after,
  r.registers
      ∙ ap
          (λ f.
            resumed (if f == 0 then status else bit_or status 0x100)
              (m''.pcb (now_pcb_id m'')).parent_kbp (m''.pcb (now_pcb_id m'')).parent_ksp r.after)
          (run.no_exception ∙ s.no_exception)
      ∙ ap (λ q. resumed status (m''.pcb q).parent_kbp (m''.pcb q).parent_ksp r.after) now
      ∙ ap (λ x. resumed status x (m''.pcb n).parent_ksp r.after) (own.kbp ∙ s.kept_ebp)
      ∙ ap (λ x. resumed status frame.ebp x r.after) (own.ksp ∙ s.kept_esp),
  omega (arith, current, t.number, t.in_row, row, nonzero),
  record {
    numbers = λ a b.
        ap (λ (f : Mask). f a b) r.freed
        ∙ ap (λ (f : Mask). set_mask f (of_own / 4) (of_own % 4) 0 a b) run.mask
        ∙ ap (λ k. set_mask m'.pcb_mask (k / 4) (k % 4) 0 a b) number
        ∙ ap (λ i. set_mask m'.pcb_mask i (n % 4) 0 a b) (omega (arith, t.number, t.in_row))
        ∙ ap (λ j. set_mask m'.pcb_mask m.now_term_id j 0 a b) row
        ∙ ap (λ (f : Mask). set_mask f m.now_term_id t.slot 0 a b) t.changed
        ∙ set_mask-back m.pcb_mask m.now_term_id t.slot t.free a b;
    current = omega (arith, back, parent, t.number, t.in_row, nonzero);
    memory =
        λ v h. r.memory v h ∙ ap (λ k. some (0x800000 + k * 0x400000 + v % 0x400000, true)) caller;
    kernel_stack = r.stack ∙ ap (λ k. 0x800000 - k * 0x2000 - 4) caller;
    no_exception = r.no_exception;
  },
)
  where
    started : (n : ℕ) × IsStarted m frame n m'
    started = subst (Starts m frame) e (execute-Starts frame command m)

    n : ℕ
    n = started.0

    s : IsStarted m frame n m'
    s = started.1

    t : IsSlot m.now_term_id m.pcb_mask n m'.pcb_mask
    t = IsTaken-IsSlot m.now_term_id m.pcb_mask n m'.pcb_mask small (rw (← shown) s.taken)

    nonzero : t.slot ≢ 0
    nonzero z = has_shell (ap (m.pcb_mask m.now_term_id) (sym z) ∙ t.free)

    row : n % 4 ≡ t.slot
    row = omega (arith, t.number, t.in_row)

    current : (m'.term m.now_term_id).cur_pcb_id ≡ n % 4
    current = ap (λ k. (m'.term k).cur_pcb_id) (sym shown) ∙ s.current

    now : now_pcb_id m'' ≡ n
    now =
        ap (λ i. u8 ((m''.term i).cur_pcb_id + i * 4)) run.turn
        ∙ ap (λ i. u8 (i + m'.now_term_id * 4)) run.current
        ∙ ap (λ i. u8 ((m'.term i).cur_pcb_id + i * 4)) s.turn
        ∙ ap (λ i. u8 (i + m.now_term_id * 4)) current
        ∙ omega (arith, t.number, t.in_row)

    taken : (j : ℕ) → j ≤ t.slot → m'.pcb_mask m.now_term_id j ≢ 0
    taken j le z =
        taken_slot m.pcb_mask m.now_term_id t.slot t.lowest j le
          (sym (ap (λ (f : Mask). f m.now_term_id j) t.changed) ∙ z)

    own : IsKept (m'.pcb n) (m''.pcb n)
    own =
        subst (λ q. IsKept (m'.pcb q) (m''.pcb q)) (sym t.number)
          (run.kept m.now_term_id t.slot t.in_row (taken t.slot (omega arith)))

    of_own : ℕ
    of_own = (m''.pcb (now_pcb_id m'')).process_number

    number : of_own ≡ n
    number = ap (λ q. (m''.pcb q).process_number) now ∙ own.number ∙ s.number

    parent : (m''.pcb (now_pcb_id m'')).parent_process_number ≡ n - 1
    parent =
        ap (λ q. (m''.pcb q).parent_process_number) now
        ∙ own.parent
        ∙ s.parent
        ∙ rw (ne→== (n % 4) 0 (omega (arith, row, nonzero)))

    before : (t.slot - 1) + m.now_term_id * 4 ≡ n - 1
    before = omega (arith, t.number, nonzero)

    caller : (m''.pcb (m''.pcb (now_pcb_id m'')).parent_process_number).process_number ≡ n - 1
    caller =
        ap (λ q. (m''.pcb q).process_number) (parent ∙ sym before)
        ∙ (run.kept m.now_term_id (t.slot - 1) (omega (arith, t.in_row))
            (taken (t.slot - 1) (omega arith))).number
        ∙ ap (λ (p : Pcb). p.process_number)
            (s.others ((t.slot - 1) + m.now_term_id * 4) (omega (arith, t.number, nonzero)))
        ∙ numbered (t.slot - 1) (omega (arith, t.in_row))
            (t.lowest (t.slot - 1) (omega (arith, nonzero)))
        ∙ before

    r : IsResumed m'' status (halt frame' status m'')
    r = halt-IsResumed frame' status m'' (omega (arith, parent, t.number, t.in_row))

    back :
        (r.after.term m.now_term_id).cur_pcb_id
        ≡ (m''.pcb (now_pcb_id m'')).parent_process_number % 4
    back = ap (λ i. (r.after.term i).cur_pcb_id) (sym (run.turn ∙ s.turn)) ∙ r.current
