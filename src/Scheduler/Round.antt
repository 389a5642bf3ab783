-- ===== src/Scheduler/Round.antt =====
-- student-distrib/scheduling.c: what the timer interrupt does where every terminal has a process.
use linux_like_os_kernel.Prelude.{
  ℕ, zero, suc, ◌+◌, ◌-◌, ◌*◌, ◌%◌, ◌<◌, false, ◌==◌, ◌≡◌, ◌≢◌, refl, arith, ne→==, ==_refl, ap,
}
use linux_like_os_kernel.Machine.{Machine, now_pcb_id, term_pcb_id, set_pcb}
use linux_like_os_kernel.Pic.{send_eoi}
use linux_like_os_kernel.Paging.{pcb_mapping, scheduling_video_mapping}
use linux_like_os_kernel.Rtc.Ticks.{IsRunning}
use linux_like_os_kernel.Process.{Outcome, resumed, Frame, kernel_ds}
use linux_like_os_kernel.Console.{set_vidmem}
use linux_like_os_kernel.Scheduler.{pit_interrupt_handler, video_of}

-- The terminal whose turn it is.
abbrev pub next_term : Machine → ℕ
next_term m = (m.now_term_id + 1) % 3

-- The handler has gone over to the next terminal's process: the registers are those kept for that
-- process, those of the interrupted one are kept, and the kernel stack is the process's own.
pub record IsSwitched (m : Machine) (ebp esp : ℕ) (out : Outcome) : Type 0 where
  pub after : Machine
  pub registers :
      out
      ≡ resumed 0
          (m.pcb (term_pcb_id m (next_term m))).kbp
          (m.pcb (term_pcb_id m (next_term m))).ksp
          after
  pub turn : after.now_term_id ≡ next_term m
  pub kept_ebp : (after.pcb (now_pcb_id m)).kbp ≡ ebp
  pub kept_esp : (after.pcb (now_pcb_id m)).ksp ≡ esp
  pub stack : after.tss_esp0 ≡ 0x800000 - term_pcb_id m (next_term m) * 0x2000 - 4
  pub others : (id : ℕ) → id ≢ now_pcb_id m → after.pcb id ≡ m.pcb id

running_id : (m : Machine) (i : ℕ) → IsRunning m → i < 3 → (m.term i).cur_pcb_id < 4
running_id m zero r h = r.first
running_id m (suc zero) r h = r.second
running_id m (suc (suc zero)) r h = r.third
running_id m (suc (suc (suc n))) r h = absurd (omega arith)

-- The timer interrupt keeps the registers of the process that it interrupts and goes on with the
-- process of the terminal that follows in the order 0, 1, 2, 0, with that process's registers and
-- kernel stack, and changes no other process. Each terminal must have a process.
pub pit_interrupt_handler_lem :
    (frame : Frame) (ebp esp : ℕ) (m : Machine)
    → IsRunning m
    → m.now_term_id < 3
    → IsSwitched m ebp esp (pit_interrupt_handler frame ebp esp m)
unfolding pit_interrupt_handler send_eoi pcb_mapping scheduling_video_mapping
pit_interrupt_handler_lem frame ebp esp m r h = record {
  after = after;
  registers = rw (e, other);
  turn = refl;
  kept_ebp = rw (==_refl (now_pcb_id m));
  kept_esp = rw (==_refl (now_pcb_id m));
  stack = ap (λ k. 0x800000 - k * 0x2000 - 4) (omega (arith, small));
  others = λ id ne. rw (ne→== id (now_pcb_id m) ne);
}
  where
    next : ℕ
    next = next_term m

    small : (m.term next).cur_pcb_id < 4
    small = running_id m next r (omega arith)

    e : ((m.term next).cur_pcb_id == 255) ≡ false
    e = ne→== (m.term next).cur_pcb_id 255 (omega (arith, small))

    other : (term_pcb_id m next == now_pcb_id m) ≡ false
    other =
        ne→== (term_pcb_id m next) (now_pcb_id m)
          (omega (arith, small, running_id m m.now_term_id r h))

    n : ℕ
    n = (m.term next).cur_pcb_id + next * 4

    m2 : Machine
    m2 = record (set_pcb (now_pcb_id m) (λ p. record p { kbp = ebp; ksp = esp }) (send_eoi 0 m)) {
      next_term_id = next;
      prev_term_id = m.now_term_id;
      now_term_id = next;
    }

    m3 : Machine
    m3 = pcb_mapping 0x8000000 (0x800000 + n * 0x400000) m2

    shown : ℕ
    shown = video_of m3 (m3.term (m2.pcb (term_pcb_id m2 next)).term_id)

    after : Machine
    after = record (set_vidmem shown (scheduling_video_mapping shown m3)) {
      tss_ss0 = kernel_ds;
      tss_esp0 = 0x800000 - n * 0x2000 - 4;
    }
