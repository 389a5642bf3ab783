-- ===== src/Interrupts/Exceptions.antt =====
-- student-distrib/idt.c: how an exception ends the program that raised it.
use linux_like_os_kernel.Prelude.{
  ℕ, ◌/◌, ◌%◌, List, [], ◌∷◌, ascii, ◌≡◌, ◌≢◌, arith, refl, ap, none, some, sym, subst,
}
use linux_like_os_kernel.Machine.{Machine, now_pcb_id}
use linux_like_os_kernel.Console.{put_all, putc}
use linux_like_os_kernel.Console.Frame.{IsPrinting, IsPrinting-trans}
use linux_like_os_kernel.Printf.{Arg, word, text, printf}
use linux_like_os_kernel.Printf.Plain.{print_with-text}
use linux_like_os_kernel.Printf.Frame.{printf-IsPrinting}
use linux_like_os_kernel.Process.{Outcome, resumed, Frame, set_mask, say}
use linux_like_os_kernel.Halt.{halt}
use linux_like_os_kernel.Halt.Resume.{IsResumed, halt-IsResumed}
use linux_like_os_kernel.Interrupts.{
  Exception, interrupt_msg, raise_flag, say_with, exception_handler, pf_handler,
}

say_with-IsPrinting :
    (format : List ℕ) (args : List Arg) (m : Machine) → IsPrinting m (say_with format args m)
say_with-IsPrinting format args m = printf-IsPrinting format args m

-- The program that the machine ran is ended by an exception: a message has been printed with the flag up, at
-- `printed`, and `halt` with status 0 from there is the outcome. So the call of `execute` that had started the
-- program returns 256, its process number is free, and the flag is down again.
pub record IsSquashed (frame : Frame) (m printed : Machine) (out : Outcome) : Type 0 where
  pub halted : out ≡ halt frame 0 printed
  pub after : Machine
  pub registers :
      out ≡ resumed 256 (m.pcb (now_pcb_id m)).parent_kbp (m.pcb (now_pcb_id m)).parent_ksp after
  pub no_exception : after.interrupt_halt_flag ≡ 0
  pub freed :
      after.pcb_mask
      ≡ set_mask m.pcb_mask
          ((m.pcb (now_pcb_id m)).process_number / 4)
          ((m.pcb (now_pcb_id m)).process_number % 4)
          0

-- `printf` of "%s\n" puts the string and a newline.
said_line :
    (s : List ℕ) (m : Machine)
    → say_with (ascii "%s\n") (text s ∷ []) m ≡ putc b'\n' (put_all putc s m)
unfolding printf put_all
said_line s m =
    ap (λ r. elim r as (λ x. Machine) [ none ↦ m | some (n, m') ↦ m' ])
      (print_with-text putc [] s (b'\n' ∷ []) m tt ((λ e. absurd (omega arith)), tt))

-- `halt(0)` after a message that has been printed with the flag up.
halt-IsSquashed :
    (frame : Frame) (m m' : Machine)
    → (m.pcb (now_pcb_id m)).parent_process_number ≢ 255
    → IsPrinting (raise_flag m) m'
    → IsSquashed frame m m' (halt frame 0 m')
halt-IsSquashed frame m m' has_parent p =
    subst (λ x. IsSquashed frame m x (halt frame 0 x)) (sym p)
      (record {
        halted = refl;
        after = r.after;
        registers = r.registers;
        no_exception = r.no_exception;
        freed = r.freed;
      })
  where
    printed : Machine
    printed = record (raise_flag m) { mem = m'.mem; ports = m'.ports; console = m'.console }

    r : IsResumed printed 0 (halt frame 0 printed)
    r = halt-IsResumed frame 0 printed has_parent

-- An exception of a program that another has started puts the characters of its message and a newline on
-- the screen, one by one, with the flag up, and ends the program as `halt` does: the call of `execute`
-- in the parent returns 256, the process number is free and the flag is down again.
pub exception_handler-IsSquashed :
    (e : Exception) (frame : Frame) (m : Machine)
    → (m.pcb (now_pcb_id m)).parent_process_number ≢ 255
    → IsSquashed frame m
        (putc b'\n' (put_all putc (interrupt_msg e) (raise_flag m)))
        (exception_handler e frame m)
unfolding exception_handler
exception_handler-IsSquashed e frame m has_parent =
    subst (λ x. IsSquashed frame m x (halt frame 0 said)) shown
      (halt-IsSquashed frame m said has_parent
        (say_with-IsPrinting (ascii "%s\n") (text (interrupt_msg e) ∷ []) (raise_flag m)))
  where
    said : Machine
    said = say_with (ascii "%s\n") (text (interrupt_msg e) ∷ []) (raise_flag m)

    shown : said ≡ putc b'\n' (put_all putc (interrupt_msg e) (raise_flag m))
    shown = said_line (interrupt_msg e) (raise_flag m)

-- A page fault ends its program in the same way, after a line of text and the address and the error code,
-- whatever these are.
pub pf_handler-IsSquashed :
    (cr error : ℕ) (frame : Frame) (m : Machine)
    → (m.pcb (now_pcb_id m)).parent_process_number ≢ 255
    → IsSquashed frame m
        (say_with
          (ascii "%x\n")
          (word error ∷ [])
          (say_with (ascii "%x\n") (word cr ∷ []) (say (ascii "page-fault\n") (raise_flag m))))
        (pf_handler cr error frame m)
unfolding pf_handler
pf_handler-IsSquashed cr error frame m has_parent =
    halt-IsSquashed frame m (say_with hex (word error ∷ []) (say_with hex (word cr ∷ []) m1))
      has_parent
      (IsPrinting-trans (raise_flag m) m1 _ (say_with-IsPrinting message [] (raise_flag m)) (
        IsPrinting-trans m1 (say_with hex (word cr ∷ []) m1) _
          (say_with-IsPrinting hex (word cr ∷ []) m1)
          (say_with-IsPrinting hex (word error ∷ []) (say_with hex (word cr ∷ []) m1))))
  where
    hex : List ℕ
    hex = ascii "%x\n"

    message : List ℕ
    message = ascii "page-fault\n"

    m1 : Machine
    m1 = say_with message [] (raise_flag m)
