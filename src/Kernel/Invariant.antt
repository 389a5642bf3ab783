-- ===== src/Kernel/Invariant.antt =====
-- The kernel's invariant, kept by every interrupt and every call: student-distrib/keyboard.c, rtc.c,
-- scheduling.c, idt.c and system_call.c together.
use linux_like_os_kernel.Prelude.{
  ℕ, ◌||◌, ltb, leb, ◌==◌, ℤ, pos, failure, Option, none, some, sym, subst,
}
use linux_like_os_kernel.Machine.{Machine, set_mem, now_pcb_id, ◌▷◌}
use linux_like_os_kernel.FileSystem.{write32, find_dentry, dentry_filetype, dentry_inode}
use linux_like_os_kernel.Paging.{syscall_video_mapping}
use linux_like_os_kernel.Files.{open_file, find_fd, take_fd, attach, set_fd}
use linux_like_os_kernel.Rtc.{rtc_open}
use linux_like_os_kernel.Terminal.{below}
use linux_like_os_kernel.Halt.{getargs, vidmap, array_strlen}
use linux_like_os_kernel.Process.{Outcome, returned, entered, resumed, fault}
use linux_like_os_kernel.Kernel.{
  Ends, Step, key, clock, timer, mouse, exception, page_fault, call_execute, call_halt, call_open,
  call_close, call_read, call_write, call_getargs, call_vidmap, Reach, here, next,
}
use linux_like_os_kernel.Kernel.Sound.{IsSound, Ok, if-IsSound}
use linux_like_os_kernel.Kernel.Keys.{rtc_interrupt_handler-IsSound}
use linux_like_os_kernel.Kernel.Calls.{
  Leaves, if-second, set_mem-IsSound, execute-Leaves, halt-Leaves, close-IsSound,
}
use linux_like_os_kernel.Kernel.Turns.{
  pit_interrupt_handler-Leaves, exception_handler-Leaves, pf_handler-Leaves,
  mouse_interrupt_handler-IsSound, keyboard_interrupt_handler-Leaves,
}
use linux_like_os_kernel.Kernel.Descriptors.{read-Ok, write-Ok}

attach-IsSound :
    (id fd filetype inode : ℕ) (m : Machine) → IsSound m → IsSound (attach id fd filetype inode m)
unfolding attach rtc_open
attach-IsSound id fd filetype inode m s =
    if-IsSound (filetype == 0) _ _ (record { shape = s.shape })
      (if-IsSound (filetype == 1) _ _ (record { shape = s.shape })
        (if-IsSound (filetype == 2) _ _ (record { shape = s.shape }) s))

open_file-IsSound : (filename : ℕ) (m : Machine) → IsSound m → IsSound (open_file filename m).1
unfolding open_file
open_file-IsSound filename m s =
    if-second (filename == 0) (failure, m) _ s (opens (find_dentry m.mem m.fs filename 0 63))
  where
    id : ℕ
    id = now_pcb_id m

    attached : ℕ → ℕ → ℤ × Machine
    attached index fd = (
      pos fd,
      attach id fd (dentry_filetype m.mem m.fs index) (dentry_inode m.mem m.fs index)
          (set_fd id fd take_fd m),
    )

    taken :
        (index : ℕ) (fd : Option ℕ)
        → IsSound
            (elim fd as (λ o. ℤ × Machine) [ none ↦ (failure, m) | some i ↦ attached index i ]).1
    taken index none = s
    taken index (some i) = attach-IsSound id i _ _ _ (record { shape = s.shape })

    opens :
        (found : Option ℕ)
        → IsSound
            (elim found as (λ o. ℤ × Machine) [
              | none ↦ (failure, m)
              | some index ↦ elim (find_fd (m.pcb id).fds 0 8) as (λ o. ℤ × Machine) [
                | none ↦ (failure, m)
                | some i ↦ attached index i
              ]
            ]).1
    opens none = s
    opens (some index) = taken index (find_fd (m.pcb id).fds 0 8)

getargs-IsSound :
    (buf : ℕ) (nbytes : ℤ) (m : Machine) → IsSound m → IsSound (getargs buf nbytes m).1
unfolding getargs
getargs-IsSound buf nbytes m s =
    if-second _ (failure, m) _ s
      (if-second (below (array_strlen (m.pcb (now_pcb_id m)).argbuf 0 100) nbytes) _ (failure, m)
        (set_mem-IsSound _ m s) s)

vidmap-IsSound :
    (screen_start at : ℕ) (m : Machine) → IsSound m → IsSound (vidmap screen_start at m).1
unfolding vidmap syscall_video_mapping
vidmap-IsSound screen_start at m s =
    if-second (screen_start == 0 || ltb screen_start 0x8000000 || leb 0x8400000 screen_start)
      (failure, m) (pos 0, mapped) s (record { shape = s.shape })
  where
    mapped : Machine
    mapped = syscall_video_mapping 0xB8000 m ▷ λ m1. set_mem (write32 m1.mem at 0x8400000) m1

-- The machine with which an outcome goes on is the one that it leaves.
pub Ends-IsSound : (out : Outcome) (m : Machine) → Leaves out → Ends out m → IsSound m
Ends-IsSound (returned z m') m l e = subst IsSound e l
Ends-IsSound (entered pc m') m l e = subst IsSound e l
Ends-IsSound (resumed status ebp esp m') m l e = subst IsSound e l
Ends-IsSound fault m l e = absurd e

-- Each interrupt and each call keeps the invariant: it holds of the machine with which the kernel goes on,
-- if it held before.
pub Step-IsSound : (m m' : Machine) → Step m m' → IsSound m → IsSound m'
Step-IsSound m m' (key frame code e) s =
    Ends-IsSound _ m' (keyboard_interrupt_handler-Leaves frame code m s) e
Step-IsSound m m' (clock e) s = subst IsSound (sym e) (rtc_interrupt_handler-IsSound m s)
Step-IsSound m m' (timer frame ebp esp e) s =
    Ends-IsSound _ m' (pit_interrupt_handler-Leaves frame ebp esp m s) e
Step-IsSound m m' (mouse e) s = subst IsSound (sym e) (mouse_interrupt_handler-IsSound m s)
Step-IsSound m m' (exception e frame ends) s =
    Ends-IsSound _ m' (exception_handler-Leaves e frame m s) ends
Step-IsSound m m' (page_fault cr error frame e) s =
    Ends-IsSound _ m' (pf_handler-Leaves cr error frame m s) e
Step-IsSound m m' (call_execute frame command e) s =
    Ends-IsSound _ m' (execute-Leaves frame command m s) e
Step-IsSound m m' (call_halt frame status e) s = Ends-IsSound _ m' (halt-Leaves frame status m s) e
Step-IsSound m m' (call_open filename e) s = subst IsSound (sym e) (open_file-IsSound filename m s)
Step-IsSound m m' (call_close fd e) s = subst IsSound (sym e) (close-IsSound fd m s)
Step-IsSound m m' (call_read ticks codes fd nbytes z buf e) s =
    subst Ok e (read-Ok ticks codes fd nbytes buf m s)
Step-IsSound m m' (call_write fd nbytes z buf e) s = subst Ok e (write-Ok fd nbytes buf m s)
Step-IsSound m m' (call_getargs buf nbytes e) s =
    subst IsSound (sym e) (getargs-IsSound buf nbytes m s)
Step-IsSound m m' (call_vidmap screen_start at e) s =
    subst IsSound (sym e) (vidmap-IsSound screen_start at m s)

-- Whatever keys, interrupts, exceptions and calls come, in any order and any number: the terminal that is
-- shown and the one whose turn it is are among the three, every key buffer holds at most 128 characters,
-- at most six processes run, and the cursor is on the screen, if that was so at first.
pub Reach-IsSound : {m m' : Machine} → Reach m m' → IsSound m → IsSound m'
Reach-IsSound here s = s
Reach-IsSound (next {m1 = m1} {m2 = m2} r t) s = Step-IsSound m1 m2 t (Reach-IsSound r s)
