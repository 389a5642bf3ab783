-- ===== src/Kernel/Turns.antt =====
-- student-distrib/scheduling.c, terminal.c, idt.c and keyboard.c: the timer, the exceptions and the keyboard's
-- interrupt keep the kernel's invariant, wherever they go on.
use linux_like_os_kernel.Prelude.{
  ℕ, ◌+◌, ◌%◌, ◌<◌, ltb, leb, ◌==◌, if◌then◌else◌, pos, some, List, [], ◌∷◌, ascii, inl, inr, arith,
  Bool-cases,
}
use linux_like_os_kernel.Machine.{Machine, set_term, set_pcb, term_pcb_id}
use linux_like_os_kernel.Pic.{send_eoi}
use linux_like_os_kernel.Paging.{pcb_mapping, scheduling_video_mapping}
use linux_like_os_kernel.Terminal.{term_save, term_restore, term_switch}
use linux_like_os_kernel.Process.{Outcome, returned, entered, resumed, fault, Frame, execute}
use linux_like_os_kernel.Halt.{shell, halt}
use linux_like_os_kernel.Scheduler.{term_launch, pit_interrupt_handler}
use linux_like_os_kernel.Printf.{Arg, word, text}
use linux_like_os_kernel.Keyboard.{press, keyboard_interrupt_handler}
use linux_like_os_kernel.Interrupts.{
  Exception, interrupt_msg, raise_flag, say_with, exception_handler, pf_handler,
  mouse_interrupt_handler,
}
use linux_like_os_kernel.Kernel.Sound.{
  IsSound, IsSound-IsIdle, if-IsSound, set_term-IsSound, after_printf-IsSound, printf-IsSound,
  term_save-IsSound, term_restore-IsSound, term_switch-IsSound,
}
use linux_like_os_kernel.Kernel.Keys.{keyboard-IsSound, press-IsSound, send_eoi-IsSound}
use linux_like_os_kernel.Kernel.Calls.{Leaves, if-Leaves, say-IsSound, execute-Leaves, halt-Leaves}

-- Another terminal has its turn.
turn-IsSound :
    (now next prev : ℕ) (m : Machine)
    → now < 3
    → IsSound m
    → IsSound (record m { next_term_id = next; prev_term_id = prev; now_term_id = now })
turn-IsSound now next prev m h s = record {
  shape = record {
    is_shown = s.shape.is_shown;
    has_turn = h;
    here = s.shape.here;
    aside = s.shape.aside;
    few = s.shape.few;
    column = s.shape.column;
    row = s.shape.row;
  };
}

-- Where `execute` returns, `term_launch` returns 0.
pub launched-Leaves :
    (out : Outcome)
    → Leaves out
    → Leaves (elim out as (λ o. Outcome) [
      | returned result m3 ↦ returned (pos 0) m3
      | entered pc m3 ↦ entered pc m3
      | resumed st ebp esp m3 ↦ resumed st ebp esp m3
      | fault ↦ fault
    ])
launched-Leaves (returned result m3) l = l
launched-Leaves (entered pc m3) l = l
launched-Leaves (resumed st ebp esp m3) l = l
launched-Leaves fault l = tt

pub term_launch-Leaves :
    (frame : Frame) (id : ℕ) (m : Machine) → IsSound m → Leaves (term_launch frame id m)
unfolding term_launch
term_launch-Leaves frame id m s = elim (Bool-cases (leb 3 id)) [
  | inl out ↦ rw out s
  | inr inside ↦ rw inside (
      if-Leaves (id == m.cur_term_id) (returned (pos 0) m) _ s (
        if-Leaves ((m.term id).running == 0) _ (returned (pos 0) (term_switch m.cur_term_id id m))
          (launched-Leaves (execute frame (some shell) m2)
            (execute-Leaves frame (some shell) m2 (m2-IsSound (ground arith))))
          (term_switch-IsSound m.cur_term_id id m (ground arith) s)))
]
  where
    m1 : Machine
    m1 = if ltb m.cur_term_id 3 then term_save m.cur_term_id m else m

    m2 : Machine
    m2 = set_term id (λ t. record t { running = 1 }) (term_restore id m1)

    m2-IsSound : id < 3 → IsSound m2
    m2-IsSound h =
        let saved = if-IsSound (ltb m.cur_term_id 3) _ m (term_save-IsSound m.cur_term_id m s) s in
        let r = term_restore-IsSound id m1 h (IsSound-IsIdle m1 saved) in
        set_term-IsSound id (λ t. record t { running = 1 }) _ (r.shape.aside id) r

pub pit_interrupt_handler-Leaves :
    (frame : Frame) (ebp esp : ℕ) (m : Machine)
    → IsSound m
    → Leaves (pit_interrupt_handler frame ebp esp m)
unfolding pit_interrupt_handler pcb_mapping scheduling_video_mapping
pit_interrupt_handler-Leaves frame ebp esp m0 s =
    if-Leaves ((m.term next).cur_pcb_id == 255) (term_launch frame next m2) _
      (term_launch-Leaves frame next m2 s2) (record { shape = s2.shape })
  where
    m : Machine
    m = send_eoi 0 m0

    next : ℕ
    next = (m.now_term_id + 1) % 3

    kept : Machine
    kept = set_pcb (term_pcb_id m m.now_term_id) (λ p. record p { kbp = ebp; ksp = esp }) m

    m2 : Machine
    m2 = record kept { next_term_id = next; prev_term_id = m.now_term_id; now_term_id = next }

    s2 : IsSound m2
    s2 =
        turn-IsSound next next m.now_term_id kept (omega arith)
          (record { shape = (send_eoi-IsSound 0 m0 s).shape })

say_with-IsSound :
    (format : List ℕ) (args : List Arg) (m : Machine) → IsSound m → IsSound (say_with format args m)
say_with-IsSound format args m s = after_printf-IsSound m _ s (printf-IsSound format args m s)

pub exception_handler-Leaves :
    (e : Exception) (frame : Frame) (m : Machine) → IsSound m → Leaves (exception_handler e frame m)
unfolding exception_handler
exception_handler-Leaves e frame m s = halt-Leaves frame 0 _ (
    say_with-IsSound (ascii "%s\n") (text (interrupt_msg e) ∷ []) (raise_flag m)
      (record { shape = s.shape }))

pub pf_handler-Leaves :
    (cr error : ℕ) (frame : Frame) (m : Machine) → IsSound m → Leaves (pf_handler cr error frame m)
unfolding pf_handler
pf_handler-Leaves cr error frame m s = halt-Leaves frame 0 _ (
    say_with-IsSound (ascii "%x\n") (word error ∷ []) _ (
      say_with-IsSound (ascii "%x\n") (word cr ∷ []) _
        (say-IsSound (ascii "page-fault\n") (raise_flag m) (record { shape = s.shape }))))

pub mouse_interrupt_handler-IsSound :
    (m : Machine) → IsSound m → IsSound (mouse_interrupt_handler m)
unfolding mouse_interrupt_handler
mouse_interrupt_handler-IsSound m s = send_eoi-IsSound 12 _ (say-IsSound _ m s)

pub keyboard_interrupt_handler-Leaves :
    (frame : Frame) (code : ℕ) (m : Machine)
    → IsSound m
    → Leaves (keyboard_interrupt_handler frame code m)
unfolding keyboard_interrupt_handler
keyboard_interrupt_handler-Leaves frame code m s =
    if-Leaves (m3.keyboard.ctrl_c_flag == 0) (returned (pos 0) m3) (halt frame 1 m3) s3
      (halt-Leaves frame 1 m3 s3)
  where
    m1 : Machine
    m1 = record m { keyboard = record (m.keyboard) { keyboard_enabled = 1; ctrl_c_flag = 0 } }

    m2 : Machine
    m2 = press code m1

    released : Machine
    released = record m2 { keyboard = record (m2.keyboard) { keyboard_enabled = 0 } }

    m3 : Machine
    m3 = send_eoi 1 released

    s2 : IsSound m2
    s2 = press-IsSound code m1 (keyboard-IsSound m1.keyboard m s.shape.here s)

    s3 : IsSound m3
    s3 = send_eoi-IsSound 1 released (keyboard-IsSound released.keyboard m2 s2.shape.here s2)
