-- ===== src/Scheduler/Tests.antt =====
-- student-distrib/scheduling.c: a timer interrupt of the machine with three idle processes.
use linux_like_os_kernel.Prelude.{arith}
use linux_like_os_kernel.Fixtures.{boot}
use linux_like_os_kernel.Rtc.Ticks.{IsRunning}
use linux_like_os_kernel.Process.{Frame}
use linux_like_os_kernel.Scheduler.{pit_interrupt_handler}
use linux_like_os_kernel.Scheduler.Round.{IsSwitched, pit_interrupt_handler_lem}

abbrev frame : Frame
frame = record { filename_at = 30000; headerbuf_at = 30100; magic_at = 30200; ebp = 7; esp = 8 }

boot-IsRunning : IsRunning boot
boot-IsRunning = record { first = omega arith; second = omega arith; third = omega arith }

pit_interrupt_handler_lem_example : IsSwitched boot 16 32 (pit_interrupt_handler frame 16 32 boot)
pit_interrupt_handler_lem_example =
    pit_interrupt_handler_lem frame 16 32 boot boot-IsRunning (omega arith)
