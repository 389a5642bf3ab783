-- ===== src/Scheduler.antt =====
-- student-distrib/scheduling.c and scheduling.h, with `term_launch` of student-distrib/terminal.c: the timer
-- interrupt gives the processor to the terminals in turn, and starts a shell where none runs.
pub mod Round
mod Tests
use linux_like_os_kernel.Prelude.{
  ℕ, ◌+◌, ◌-◌, ◌*◌, ◌/◌, ◌%◌, ◌^◌, ltb, leb, ◌==◌, if◌then◌else◌, bit_and, pos, failure, some,
  update,
}
use linux_like_os_kernel.Machine.{
  Machine, Term, outb, ◌▷◌, set_pcb, set_term, term_pcb_id, u8, term_max, max_pcb_mask_len,
  byte_minus_one,
}
use linux_like_os_kernel.Pic.{enable_irq, send_eoi}
use linux_like_os_kernel.Console.{set_vidmem, video}
use linux_like_os_kernel.Paging.{pcb_mapping, scheduling_video_mapping}
use linux_like_os_kernel.Terminal.{term_save, term_restore, term_switch}
use linux_like_os_kernel.Process.{
  Outcome, returned, entered, resumed, fault, Frame, execute, kernel_ds,
}
use linux_like_os_kernel.Halt.{shell}

-- Where `execute` returns, `term_launch` returns 0.
unfoldable pub term_launch : Frame → ℕ → Machine → Outcome
term_launch frame id m =
    if leb term_max id
    then returned failure m
    else if id == m.cur_term_id
    then returned (pos 0) m
    else if (m.term id).running == 0
    then (let m1 = if ltb m.cur_term_id term_max then term_save m.cur_term_id m else m in
        let m2 = set_term id (λ t. record t { running = 1 }) (term_restore id m1) in
        elim (execute frame (some shell) m2) [
          | returned result m3 ↦ returned (pos 0) m3
          | entered pc m3 ↦ entered pc m3
          | resumed s ebp esp m3 ↦ resumed s ebp esp m3
          | fault ↦ fault
        ])
    else returned (pos 0) (term_switch m.cur_term_id id m)

abbrev pub pit_freq : ℕ
pit_freq = 11931

unfoldable pub pit_init : Machine → Machine
pit_init m =
    record (m
      ▷ outb 0x36 0x43
      ▷ outb (bit_and pit_freq 0xFF) 0x40
      ▷ outb (pit_freq / 2 ^ 8) 0x40
      ▷ enable_irq 0) { now_term_id = 0 }

-- Where the video memory that the running program and `video_mem` see comes from.
abbrev pub video_of : Machine → Term → ℕ
video_of m next_term = if m.cur_term_id == m.now_term_id then video else next_term.video_mem

-- `ebp` and `esp` are the registers in the handler; `resumed` says with which it goes on.
unfoldable pub pit_interrupt_handler : Frame → (ebp esp : ℕ) → Machine → Outcome
pit_interrupt_handler frame ebp esp m0 =
    let m = send_eoi 0 m0 in
    let next = (m.now_term_id + 1) % term_max in
    let pcb_number = (m.term next).cur_pcb_id + next * max_pcb_mask_len in
    let m1 = set_pcb (term_pcb_id m m.now_term_id) (λ p. record p { kbp = ebp; ksp = esp }) m in
    let m2 : Machine = record m1 {
      next_term_id = next;
      prev_term_id = m.now_term_id;
      now_term_id = next;
    } in
    if (m.term next).cur_pcb_id == byte_minus_one
    then term_launch frame next m2
    else (let next_pcb = m2.pcb (term_pcb_id m2 next) in
        let m3 = pcb_mapping 0x8000000 (0x800000 + pcb_number * 0x400000) m2 in
        let next_term = m3.term next_pcb.term_id in
        let m4 = scheduling_video_mapping (video_of m3 next_term) m3 in
        let m5 = set_vidmem (video_of m3 next_term) m4 in
        resumed 0 next_pcb.kbp next_pcb.ksp
          (record m5 { tss_ss0 = kernel_ds; tss_esp0 = 0x800000 - pcb_number * 0x2000 - 0x4 }))
