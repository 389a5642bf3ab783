-- ===== src/Interrupts/Tests.antt =====
-- student-distrib/idt.c: the gate of an exception that has no handler, and a program that divides by zero.
use linux_like_os_kernel.Prelude.{none, arith, ascii}
use linux_like_os_kernel.Console.{put_all, putc}
use linux_like_os_kernel.Machine.{Machine, set_pcb}
use linux_like_os_kernel.Fixtures.{boot}
use linux_like_os_kernel.Halt.Disk.{frame}
use linux_like_os_kernel.Interrupts.{Idt, de, raise_flag, exception_handler}
use linux_like_os_kernel.Interrupts.Exceptions.{IsSquashed, exception_handler-IsSquashed}

abbrev no_gates : Idt
no_gates i = record {
  offset = none;
  seg_selector = 0;
  reserved4 = 0;
  reserved3 = 0;
  reserved2 = 0;
  reserved1 = 0;
  size = 0;
  reserved0 = 0;
  dpl = 0;
  present = 0;
}

-- Process 4 runs, and process 3 has started it.
abbrev child : Machine
child = set_pcb 4 (λ p. record p { parent_process_number = 3; process_number = 4 }) boot

exception_handler-IsSquashed_example :
    IsSquashed frame child
      (putc b'\n' (put_all putc (ascii "Divide Error Exception") (raise_flag child)))
      (exception_handler de frame child)
exception_handler-IsSquashed_example = exception_handler-IsSquashed de frame child (omega arith)
