-- ===== src/Pic.antt =====
-- student-distrib/i8259.c: the masks of the two interrupt controllers and the bytes sent to them.
pub mod Masks
mod Tests
use linux_like_os_kernel.Prelude.{
  ℕ, ◌+◌, ◌-◌, ◌*◌, ◌^◌, bit_and, bit_or, ltb, if◌then◌else◌, List, ◌∷◌,
}
use linux_like_os_kernel.Machine.{Machine, Pic, u8, outb, ◌▷◌}

abbrev pub master_cmd : ℕ
master_cmd = 0x20

abbrev pub master_data : ℕ
master_data = 0x21

abbrev pub slave_cmd : ℕ
slave_cmd = 0xA0

abbrev pub slave_data : ℕ
slave_data = 0xA1

abbrev pub eoi : ℕ
eoi = 0x60

-- `~x` on the int that a uint8_t is promoted to; only its low eight bits are kept by the
-- assignment that follows.
abbrev pub complement : ℕ → ℕ
complement x = 255 - x

-- `(uint8_t)(0x01 << k)`
abbrev pub line_bit : ℕ → ℕ
line_bit k = u8 (2 ^ k)

-- An `irq_num` is unsigned, so that `irq_num < 0` never holds.
unfoldable pub enable_irq : ℕ → Machine → Machine
enable_irq irq_num m =
    if ltb 15 irq_num
    then m
    else if ltb irq_num 8
    then (let mask = bit_and m.pic.master_mask (complement (line_bit irq_num)) in
        outb mask master_data (record m { pic = record (m.pic) { master_mask = mask } }))
    else (let mask = bit_and m.pic.slave_mask (complement (line_bit (irq_num - 8))) in
        outb mask slave_data (record m { pic = record (m.pic) { slave_mask = mask } }))

unfoldable pub disable_irq : ℕ → Machine → Machine
disable_irq irq_num m =
    if ltb 15 irq_num
    then m
    else if ltb irq_num 8
    then (let mask = bit_or m.pic.master_mask (complement (line_bit irq_num)) in
        outb mask master_data (record m { pic = record (m.pic) { master_mask = mask } }))
    else (let mask = bit_or m.pic.slave_mask (complement (line_bit (irq_num - 8))) in
        outb mask slave_data (record m { pic = record (m.pic) { slave_mask = mask } }))

-- The branch of `send_eoi` for a line of the master. `send_eoi(2)`, the recursive call, takes it.
abbrev pub send_eoi_master : ℕ → Machine → Machine
send_eoi_master irq_num = outb (bit_or eoi irq_num) master_cmd

unfoldable pub send_eoi : ℕ → Machine → Machine
send_eoi irq_num m =
    if ltb 15 irq_num
    then m
    else if ltb irq_num 8
    then send_eoi_master irq_num m
    else (m ▷ outb (bit_or eoi (irq_num - 8)) slave_cmd ▷ send_eoi_master 2)

unfoldable pub i8259_init : Machine → Machine
unfolding enable_irq
i8259_init m =
    m
    ▷ outb 0x11 master_cmd
    ▷ outb 0x20 master_data
    ▷ outb 0x04 master_data
    ▷ outb 0x01 master_data
    ▷ outb 0x11 slave_cmd
    ▷ outb 0x28 slave_data
    ▷ outb 0x02 slave_data
    ▷ outb 0x01 slave_data
    ▷ outb m.pic.master_mask master_data
    ▷ outb m.pic.slave_mask slave_data
    ▷ enable_irq 2
