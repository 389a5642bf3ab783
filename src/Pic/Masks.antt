-- ===== src/Pic/Masks.antt =====
-- student-distrib/i8259.c: which interrupt lines the masks let through after each operation, and
-- what `send_eoi` sends.
pub mod Bits
use linux_like_os_kernel.Prelude.{
  ℕ, ◌+◌, ◌-◌, ◌*◌, ◌/◌, ◌%◌, ◌^◌, ◌<◌, ◌≤◌, bit_and, bit_or, ltb, leb, ◌==◌, if◌then◌else◌, List,
  ◌∷◌, ◌≡◌, ◌≢◌, Bool, true, false, ◌&&◌, arith, Bool-cases, inl, inr, refl, ltb→lt, ap,
}
use linux_like_os_kernel.Machine.{Machine, Pic, u8, outb, ◌▷◌}
use linux_like_os_kernel.Pic.{
  enable_irq, disable_irq, send_eoi, complement, line_bit, master_cmd, slave_cmd, master_data,
  slave_data, eoi, send_eoi_master,
}
use Bits.{bit_at, bit_at-enable, bit_at-disable, enable_lt, disable_lt, eoi_line}

-- The masks are bytes.
pub record IsValid (m : Machine) : Type 0 where
  pub master_byte : m.pic.master_mask < 256
  pub slave_byte : m.pic.slave_mask < 256

-- Whether line `j`, of 0 to 15, is masked.
abbrev pub is_masked : Machine → ℕ → Bool
is_masked m j =
    if ltb j 8 then bit_at m.pic.master_mask j == 1 else bit_at m.pic.slave_mask (j - 8) == 1

-- `enable_irq` unmasks its line and no other line changes; masks that are bytes stay bytes, and a number
-- above 15 changes nothing.
pub is_masked-enable_irq :
    (m : Machine) (irq j : ℕ)
    → IsValid m
    → j < 16
    → (is_masked (enable_irq irq m) j ≡ (if j == irq then false else is_masked m j))
      × IsValid (enable_irq irq m)
unfolding enable_irq
is_masked-enable_irq m irq j v h = ground (
  arith,
  bit_at-enable m.pic.master_mask irq j,
  bit_at-enable m.pic.slave_mask (irq - 8) (j - 8),
  enable_lt m.pic.master_mask irq,
  enable_lt m.pic.slave_mask (irq - 8),
)

-- Whether lines `i` and `j` belong to the same controller.
abbrev pub same_controller : ℕ → ℕ → Bool
same_controller i j = if ltb i 8 then ltb j 8 else leb 8 j

-- `disable_irq` masks every other line of its line's controller and leaves its own line as it was;
-- the other controller does not change and masks that are bytes stay bytes. The line is one of
-- 0 to 15.
pub is_masked-disable_irq :
    (m : Machine) (irq j : ℕ)
    → IsValid m
    → irq < 16
    → j < 16
    → (is_masked (disable_irq irq m) j ≡ (
        if j == irq then is_masked m j else if same_controller irq j then true else is_masked m j))
      × IsValid (disable_irq irq m)
unfolding disable_irq
is_masked-disable_irq m irq j v hi h = ground (
  arith,
  bit_at-disable m.pic.master_mask irq j,
  bit_at-disable m.pic.slave_mask (irq - 8) (j - 8),
  disable_lt m.pic.master_mask irq,
  disable_lt m.pic.slave_mask (irq - 8),
)

-- A line that is enabled stays enabled after `disable_irq` of that line, and every other line of
-- its controller is masked.
pub disable_irq-keeps_enabled :
    (m : Machine) (irq j : ℕ)
    → IsValid m
    → irq < 16
    → j < 16
    → j ≢ irq
    → same_controller irq j ≡ true
    → (is_masked (disable_irq irq (enable_irq irq m)) irq ≡ false)
      × (is_masked (disable_irq irq (enable_irq irq m)) j ≡ true)
disable_irq-keeps_enabled m irq j v hi hj ne same = ground (
  arith,
  is_masked-enable_irq m irq irq v,
  is_masked-disable_irq (enable_irq irq m) irq irq,
  is_masked-disable_irq (enable_irq irq m) irq j,
)

-- `send_eoi` sends 0x60 plus the line to the master's command port for a line of the master; for a
-- line of the slave it sends 0x60 plus the line's number there to the slave, then 0x62 to the
-- master; above 15 it does nothing. It changes nothing else.
pub send_eoi_lem :
    (m : Machine) (irq : ℕ)
    → send_eoi irq m ≡ record m {
      ports =
          if ltb irq 8
          then (0x60 + irq, 0x20) ∷ m.ports
          else if ltb irq 16
          then (0x62, 0x20) ∷ (0x60 + (irq - 8), 0xA0) ∷ m.ports
          else m.ports;
    }
unfolding send_eoi
send_eoi_lem m irq = ground (arith, eoi_line irq, eoi_line (irq - 8))
