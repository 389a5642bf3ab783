-- ===== src/Interrupts/Gates.antt =====
-- student-distrib/idt.c: what `idt_init` leaves in each gate.
use linux_like_os_kernel.Prelude.{
  ℕ, Bool, true, ◌&&◌, ◌||◌, not, ltb, ◌==◌, update, some, List, [], ◌∷◌, map, ◌≡◌,
}
use linux_like_os_kernel.Interrupts.{Gate, Idt, Handler, init_gates}

-- Whether a vector is one of those of the devices and of the system calls.
abbrev pub is_device : ℕ → Bool
is_device i = i == 0x20 || i == 0x21 || i == 0x28 || i == 0x2C || i == 0x80

-- A gate that the processor takes as an interrupt gate (type 0xE, which turns interrupts off): present, with
-- a 32-bit handler in the kernel's code segment.
pub record IsGate (gate : Gate) (dpl : ℕ) : Type 0 where
  pub is_present : gate.present ≡ 1
  pub wide : gate.size ≡ 1
  pub storage : gate.reserved0 ≡ 0
  pub bit_2 : gate.reserved1 ≡ 1
  pub bit_1 : gate.reserved2 ≡ 1
  pub bit_0 : gate.reserved3 ≡ 0
  pub unused : gate.reserved4 ≡ 0
  pub selector : gate.seg_selector ≡ 0x10
  pub level : gate.dpl ≡ dpl

-- No entry is for the vector.
abbrev pub is_absent : ℕ → List (ℕ × Handler) → Bool
is_absent i [] = true
is_absent i ((index, handler) ∷ rest) = not (i == index) && is_absent i rest

-- The table behind the loop, with the level of the system calls' gate.
abbrev levelled : Idt → Idt
levelled idt = update (init_gates 256 idt) 0x80 (record (init_gates 256 idt 0x80) { dpl = 3 })

-- Whether a vector has an entry: those of the exceptions but 15, and those of `is_device`.
abbrev pub is_known : ℕ → Bool
is_known i = is_device i || ltb i 20 && not (i == 15)

-- The handlers of some entries are in their gates.
abbrev pub AreEntered : Idt → List (ℕ × Handler) → Type 0
AreEntered idt entries =
    map (λ (e : ℕ × Handler). (idt e.0).offset) entries
    ≡ map (λ (e : ℕ × Handler). some e.1) entries
