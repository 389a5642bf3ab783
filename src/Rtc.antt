-- ===== src/Rtc.antt =====
-- student-distrib/rtc.c: the real time clock. The device always ticks at 1024 Hz, and each process has
-- a frequency of its own and a counter of ticks.
pub mod Frequency
pub mod Ticks
mod Tests
use linux_like_os_kernel.Prelude.{
  ℕ, zero, suc, ◌+◌, ◌-◌, ◌*◌, ◌/◌, ◌%◌, ◌^◌, Bool, true, false, ◌&&◌, ◌||◌, not, ltb, leb, ◌==◌,
  if◌then◌else◌, ℤ, pos, failure, bit_and, bit_or, update, Option, none, some,
}
use linux_like_os_kernel.Machine.{
  Machine, Memory, Pcb, u8, outb, ◌▷◌, set_pcb, term_pcb_id, now_pcb_id,
}
use linux_like_os_kernel.Pic.{enable_irq, send_eoi}
use linux_like_os_kernel.FileSystem.{read32}

abbrev pub rtc_irq : ℕ
rtc_irq = 8

abbrev pub rtc_index : ℕ
rtc_index = 0x70

abbrev pub rtc_data : ℕ
rtc_data = 0x71

abbrev pub rtc_reg_a : ℕ
rtc_reg_a = 0x8A

abbrev pub rtc_reg_b : ℕ
rtc_reg_b = 0x8B

abbrev pub rtc_reg_c : ℕ
rtc_reg_c = 0x8C

-- `while (freq < 32768) { freq *= 2; rate += 0x01; }`; `none` means that the fuel ran out. For a
-- frequency of at least 1 there are at most 15 rounds.
unfoldable pub rate_loop : ℕ → ℕ → ℕ → Option ℕ
rate_loop zero freq rate = if ltb freq 32768 then none else some rate
rate_loop (suc fuel) freq rate = elim (ltb freq 32768) [
  | true ↦ rate_loop fuel (freq * 2) (u8 (rate + 1))
  | false ↦ some rate
]

-- `prev` is what the port gives for register A. A frequency of 0 would not end the loop.
unfoldable pub rtc_set_freq : ℕ → ℕ → Machine → Option Machine
rtc_set_freq freq prev m = if freq == 32768 then some m else elim (rate_loop 15 freq 1) [
  | none ↦ none
  | some rate ↦ some (
      m
      ▷ outb rtc_reg_a rtc_index
      ▷ outb rtc_reg_a rtc_index
      ▷ outb (bit_or (bit_and prev 0xF0) rate) rtc_data)
]

-- `prev_b` and `prev_a` are what the port gives for the registers B and A.
unfoldable pub rtc_init : ℕ → ℕ → Machine → Option Machine
rtc_init prev_b prev_a m =
    m
    ▷ outb rtc_reg_b rtc_index
    ▷ outb rtc_reg_b rtc_index
    ▷ outb (bit_or prev_b 0x40) rtc_data
    ▷ enable_irq rtc_irq
    ▷ rtc_set_freq 1024 prev_a

-- `if (cur_pcb->rtc_counter > 0) cur_pcb->rtc_counter--;`
abbrev pub tick : Pcb → Pcb
tick p = if ltb 0 p.rtc_counter then record p { rtc_counter = p.rtc_counter - 1 } else p

-- The handler's loop, after `n` terminals.
unfoldable pub tick_terms : ℕ → Machine → Machine
tick_terms zero m = m
tick_terms (suc n) m = let m' = tick_terms n m in set_pcb (term_pcb_id m' n) tick m'

unfoldable pub rtc_interrupt_handler : Machine → Machine
rtc_interrupt_handler m = m ▷ send_eoi rtc_irq ▷ tick_terms 3 ▷ outb rtc_reg_c rtc_index

unfoldable pub rtc_open : Machine → ℤ × Machine
rtc_open m =
    (pos 0, set_pcb (now_pcb_id m) (λ p. record p { rtc_freq = 2; rtc_counter = 1024 / 2 }) m)

unfoldable pub rtc_close : ℕ → ℤ
rtc_close fd = pos 0

-- `while (cur_pcb->rtc_counter > 0);` with the interrupts that come meanwhile; `none` means that
-- they were not enough.
unfoldable pub rtc_wait : ℕ → ℕ → Machine → Option Machine
rtc_wait id zero m = if ltb 0 (m.pcb id).rtc_counter then none else some m
rtc_wait id (suc interrupts) m = elim (ltb 0 (m.pcb id).rtc_counter) [
  | true ↦ rtc_wait id interrupts (rtc_interrupt_handler m)
  | false ↦ some m
]

-- `interrupts` is the number of clock interrupts that come while the call waits, and no other
-- interrupt comes. `none` stands for a call that still waits, and for a division by zero.
unfoldable pub rtc_read : ℕ → Machine → Option (ℤ × Machine)
unfolding rtc_wait
rtc_read interrupts m =
    let id = now_pcb_id m in
    if (m.pcb id).rtc_freq == 0
    then none
    else elim (rtc_wait id interrupts
        (set_pcb id (λ p. record p { rtc_counter = 1024 / p.rtc_freq }) m)) [
          | none ↦ none
          | some m' ↦ some (pos 0, m')
        ]

-- Comparisons of the int with the bits of `w`.
abbrev pub is_negative : ℕ → Bool
is_negative w = leb (2 ^ 31) w

-- The condition of `rtc_write` on the frequency with the bits of `w`.
unfoldable pub valid_freq : ℕ → ℕ → Bool
valid_freq w nbytes =
    (not (w == 0) && bit_and w ((w + 2 ^ 32 - 1) % 2 ^ 32) == 0)
    && (is_negative w || leb w 1024)
    && nbytes == 4
    && (not (is_negative w) && ltb 1 w)

unfoldable pub rtc_write : ℕ → ℕ → Machine → ℤ × Machine
unfolding valid_freq
rtc_write buf nbytes m =
    if buf == 0
    then (failure, m)
    else (let freq = read32 m.mem buf in
        if valid_freq freq nbytes
        then (pos 0, set_pcb (now_pcb_id m) (λ p. record p { rtc_freq = freq }) m)
        else (failure, m))
