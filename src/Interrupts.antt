-- ===== src/Interrupts.antt =====
-- student-distrib/idt.c and idt.h, with the jump table of idt_handler.S and student-distrib/mouse.c: the
-- table of interrupt gates, and the handlers that are not a device's.
pub mod Gates
pub mod Exceptions
mod Tests
use linux_like_os_kernel.Prelude.{
  ℕ, zero, suc, ◌<◌, Bool, true, false, ltb, if◌then◌else◌, update, ascii, ℤ, pos, failure, Option,
  none, some, List, [], ◌∷◌, ◌++◌,
}
use linux_like_os_kernel.Machine.{Machine, ◌▷◌}
use linux_like_os_kernel.Pic.{enable_irq, send_eoi}
use linux_like_os_kernel.Printf.{Arg, word, text, printf}
use linux_like_os_kernel.Process.{Outcome, returned, entered, resumed, fault, Frame, say}
use linux_like_os_kernel.Halt.{halt}

-- The handlers that `idt_table` defines.
pub data Exception : Type 0 where
  de db nmi bp of br ud nm df cso ts np ss gp mf ac mc xf : Exception

abbrev pub interrupt_msg : Exception → List ℕ
interrupt_msg de = ascii "Divide Error Exception"
interrupt_msg db = ascii "Debug Exception"
interrupt_msg nmi = ascii "NMI Interrupt"
interrupt_msg bp = ascii "Breakpoint Exception"
interrupt_msg of = ascii "Overflow Exception"
interrupt_msg br = ascii "BOUND Range Exceeded Exception"
interrupt_msg ud = ascii "Invalid Opcode Exception"
interrupt_msg nm = ascii "Device Not Available Exception"
interrupt_msg df = ascii "Double Fault Exception"
interrupt_msg cso = ascii "Coprocessor Segment Overrun"
interrupt_msg ts = ascii "Invalid TSS Exception"
interrupt_msg np = ascii "Segment Not Present"
interrupt_msg ss = ascii "Stack Fault Exception"
interrupt_msg gp = ascii "General Protection Exception"
interrupt_msg mf = ascii "x87 FPU Floating-Point Error"
interrupt_msg ac = ascii "Alignment Check Exception"
interrupt_msg mc = ascii "Machine-Check Exception"
interrupt_msg xf = ascii "SIMD Floating-Point Exception"

-- The functions whose addresses are stored in gates.
pub data Handler : Type 0 where
  def_interrupt : Exception → Handler
  page_fault kbd_handler rtc_handler syc_handler pit_handler mse_handler undef_interrupt : Handler

-- `idt_desc_t`. The two halves of the offset are the handler; `none` is an offset that was never set.
pub record Gate : Type 0 where
  pub offset : Option Handler
  pub seg_selector : ℕ
  pub reserved4 : ℕ
  pub reserved3 : ℕ
  pub reserved2 : ℕ
  pub reserved1 : ℕ
  pub size : ℕ
  pub reserved0 : ℕ
  pub dpl : ℕ
  pub present : ℕ

abbrev pub Idt : Type 0
Idt = ℕ → Gate

abbrev pub num_vec : ℕ
num_vec = 256

abbrev pub kernel_cs : ℕ
kernel_cs = 0x0010

abbrev pub kbd_vec : ℕ
kbd_vec = 0x21

abbrev pub rtc_vec : ℕ
rtc_vec = 0x28

abbrev pub sys_vec : ℕ
sys_vec = 0x80

abbrev pub pit_vec : ℕ
pit_vec = 0x20

abbrev pub mse_vec : ℕ
mse_vec = 0x2C

-- `SET_IDT_ENTRY(idt[index], handler)`
abbrev pub set_idt_entry : ℕ → Handler → Idt → Idt
set_idt_entry index handler idt = update idt index (record (idt index) { offset = some handler })

-- One pass of the loop of `idt_init`.
abbrev pub init_gate : ℕ → Gate → Gate
init_gate index gate = record {
  offset = if ltb 31 index then some undef_interrupt else gate.offset;
  seg_selector = kernel_cs;
  reserved4 = 0;
  reserved3 = 0;
  reserved2 = 1;
  reserved1 = 1;
  size = 1;
  reserved0 = 0;
  dpl = 0;
  present = 1;
}

-- The loop, after `n` vectors.
unfoldable pub init_gates : ℕ → Idt → Idt
init_gates zero idt = idt
init_gates (suc n) idt = let idt' = init_gates n idt in update idt' n (init_gate n (idt' n))

-- The entries of the exceptions.
abbrev pub exception_entries : List (ℕ × Handler)
exception_entries =
    (0, def_interrupt de)
    ∷ (1, def_interrupt db)
    ∷ (2, def_interrupt nmi)
    ∷ (3, def_interrupt bp)
    ∷ (4, def_interrupt of)
    ∷ (5, def_interrupt br)
    ∷ (6, def_interrupt ud)
    ∷ (7, def_interrupt nm)
    ∷ (8, def_interrupt df)
    ∷ (9, def_interrupt cso)
    ∷ (10, def_interrupt ts)
    ∷ (11, def_interrupt np)
    ∷ (12, def_interrupt ss)
    ∷ (13, def_interrupt gp)
    ∷ (14, page_fault)
    ∷ (16, def_interrupt mf)
    ∷ (17, def_interrupt ac)
    ∷ (18, def_interrupt mc)
    ∷ (19, def_interrupt xf)
    ∷ []

-- The entries of the devices and of the system calls.
abbrev pub device_entries : List (ℕ × Handler)
device_entries =
    (kbd_vec, kbd_handler)
    ∷ (rtc_vec, rtc_handler)
    ∷ (sys_vec, syc_handler)
    ∷ (pit_vec, pit_handler)
    ∷ (mse_vec, mse_handler)
    ∷ []

-- One `SET_IDT_ENTRY` after another.
unfoldable pub set_entries : List (ℕ × Handler) → Idt → Idt
set_entries [] idt = idt
set_entries ((index, handler) ∷ rest) idt = set_entries rest (set_idt_entry index handler idt)

unfoldable pub idt_init : Idt → Idt
idt_init idt =
    let gates = init_gates num_vec idt in
    update gates sys_vec (record (gates sys_vec) { dpl = 3 })
    ▷ set_entries exception_entries
    ▷ set_entries device_entries

-- A `printf` with arguments that fit its format.
abbrev pub say_with : List ℕ → List Arg → Machine → Machine
say_with format args m = elim (printf format args m) [ none ↦ m | some (n, m') ↦ m' ]

abbrev pub raise_flag : Machine → Machine
raise_flag m = record m { interrupt_halt_flag = 1 }

-- Where `halt` comes back, the handlers wait for ever.
unfoldable pub exception_handler : Exception → Frame → Machine → Outcome
exception_handler e frame m =
    halt frame 0 (m ▷ raise_flag ▷ say_with (ascii "%s\n") (text (interrupt_msg e) ∷ []))

-- `cr` is the address that faulted, and `error` the processor's error code.
unfoldable pub pf_handler : ℕ → ℕ → Frame → Machine → Outcome
pf_handler cr error frame m = halt frame 0 (
    m
    ▷ raise_flag
    ▷ say (ascii "page-fault\n")
    ▷ say_with (ascii "%x\n") (word cr ∷ [])
    ▷ say_with (ascii "%x\n") (word error ∷ []))

unfoldable pub undefined_interrupt : Machine → Machine
undefined_interrupt m = say (ascii "Undefined Interrupt") m

-- mouse.c
abbrev pub mouse_irq : ℕ
mouse_irq = 12

unfoldable pub mouse_init : Machine → Machine
mouse_init = enable_irq mouse_irq

unfoldable pub mouse_interrupt_handler : Machine → Machine
mouse_interrupt_handler m = m ▷ say (ascii "Mouse interrupt has occurred!") ▷ send_eoi mouse_irq
