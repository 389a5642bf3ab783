-- ===== src/Kernel/Tests.antt =====
-- student-distrib/: a run of the kernel: the timer, a key, the mouse, a tick of the clock, and a call of
-- `close` that fails.
use linux_like_os_kernel.Prelude.{refl, arith, negsuc}
use linux_like_os_kernel.Machine.{Machine}
use linux_like_os_kernel.Fixtures.{boot}
use linux_like_os_kernel.Pic.{send_eoi}
use linux_like_os_kernel.Console.{putc, set_screen_cursor, enter, place_cursor, scroll_up}
use linux_like_os_kernel.Paging.{pcb_mapping, scheduling_video_mapping}
use linux_like_os_kernel.Keyboard.{press, default_key, letter_key, keyboard_interrupt_handler}
use linux_like_os_kernel.Keyboard.Scancodes.{scancode_map}
use linux_like_os_kernel.Rtc.{rtc_interrupt_handler}
use linux_like_os_kernel.Files.{close}
use linux_like_os_kernel.Scheduler.{pit_interrupt_handler}
use linux_like_os_kernel.Process.{pcb_total_number}
use linux_like_os_kernel.Halt.Disk.{machine_of, frame}
use linux_like_os_kernel.Interrupts.{mouse_interrupt_handler}
use linux_like_os_kernel.Kernel.{Step, here, next, key, clock, timer, mouse, call_close}
use linux_like_os_kernel.Kernel.Sound.{IsSound}
use linux_like_os_kernel.Kernel.Invariant.{Reach-IsSound}

abbrev turned : Machine
turned = machine_of (pit_interrupt_handler frame 7 8 boot)

abbrev pressed : Machine
pressed = machine_of (keyboard_interrupt_handler frame 0x1E turned)

abbrev ticked : Machine
ticked = rtc_interrupt_handler (mouse_interrupt_handler pressed)

turn-Step : Step boot turned
unfolding pit_interrupt_handler send_eoi
turn-Step = timer frame 7 8 refl

press-Step : Step turned pressed
unfolding keyboard_interrupt_handler press default_key letter_key scancode_map putc
    set_screen_cursor enter place_cursor scroll_up send_eoi pit_interrupt_handler pcb_mapping
    scheduling_video_mapping
press-Step = key frame 0x1E refl

boot-IsSound : IsSound boot
unfolding pcb_total_number
boot-IsSound = record {
  shape = record {
    is_shown = omega arith;
    has_turn = omega arith;
    here = omega arith;
    aside = λ i. omega arith;
    few = omega arith;
    column = omega arith;
    row = omega arith;
  };
}

Reach-IsSound_example : IsSound (close (negsuc 0) ticked).1
Reach-IsSound_example =
    Reach-IsSound
      (next (next (next (next (next here turn-Step) press-Step) (mouse refl)) (clock refl))
        (call_close (negsuc 0) refl))
      boot-IsSound
