-- ===== src/Kernel.antt =====
-- The kernel as a whole: what a program, a key, the clock and the timer can do to the machine, one step
-- at a time. Sources: student-distrib/system_call.c, keyboard.c, rtc.c, scheduling.c, idt.c.
pub mod Sound
pub mod Keys
pub mod Calls
pub mod Turns
pub mod Descriptors
pub mod Invariant
mod Tests
use linux_like_os_kernel.Prelude.{ℕ, ◌<◌, ◌≤◌, ℤ, pos, Option, none, some, List, [], ◌∷◌, ◌≡◌}
use linux_like_os_kernel.Machine.{Machine}
use linux_like_os_kernel.Rtc.{rtc_interrupt_handler}
use linux_like_os_kernel.Files.{open_file, close, read, write}
use linux_like_os_kernel.Process.{Outcome, returned, entered, resumed, fault, Frame, execute}
use linux_like_os_kernel.Halt.{halt, getargs, vidmap}
use linux_like_os_kernel.Scheduler.{pit_interrupt_handler}
use linux_like_os_kernel.Keyboard.{press, keyboard_interrupt_handler}
use linux_like_os_kernel.Interrupts.{
  Exception, exception_handler, pf_handler, mouse_interrupt_handler,
}

-- The machine with which an outcome goes on.
abbrev pub Ends : Outcome → Machine → Type 0
Ends (returned z m) m' = m ≡ m'
Ends (entered pc m) m' = m ≡ m'
Ends (resumed status ebp esp m) m' = m ≡ m'
Ends fault m' = ⊥

-- Keys that come one after the other.
unfoldable pub presses : List ℕ → List (Machine → Machine)
presses [] = []
presses (code ∷ codes) = press code ∷ presses codes

-- One interrupt or one call. A call of `read` that waits sees clock interrupts and keys meanwhile.
pub data Step (m m' : Machine) : Type 0 where
  key : (frame : Frame) (code : ℕ) → Ends (keyboard_interrupt_handler frame code m) m' → Step m m'
  clock : m' ≡ rtc_interrupt_handler m → Step m m'
  timer :
      (frame : Frame) (ebp esp : ℕ) → Ends (pit_interrupt_handler frame ebp esp m) m' → Step m m'
  mouse : m' ≡ mouse_interrupt_handler m → Step m m'
  exception : (e : Exception) (frame : Frame) → Ends (exception_handler e frame m) m' → Step m m'
  page_fault : (cr error : ℕ) (frame : Frame) → Ends (pf_handler cr error frame m) m' → Step m m'
  call_execute :
      (frame : Frame) (command : Option (List ℕ)) → Ends (execute frame command m) m' → Step m m'
  call_halt : (frame : Frame) (status : ℕ) → Ends (halt frame status m) m' → Step m m'
  call_open : (filename : ℕ) → m' ≡ (open_file filename m).1 → Step m m'
  call_close : (fd : ℤ) → m' ≡ (close fd m).1 → Step m m'
  call_read :
      (ticks : ℕ) (codes : List ℕ) (fd nbytes z : ℤ) (buf : ℕ)
      → read ticks (presses codes) fd buf nbytes m ≡ some (z, m')
      → Step m m'
  call_write : (fd nbytes z : ℤ) (buf : ℕ) → write fd buf nbytes m ≡ some (z, m') → Step m m'
  call_getargs : (buf : ℕ) (nbytes : ℤ) → m' ≡ (getargs buf nbytes m).1 → Step m m'
  call_vidmap : (screen_start at : ℕ) → m' ≡ (vidmap screen_start at m).1 → Step m m'

-- What a machine can become, in any number of steps.
pub data Reach (m : Machine) : Machine → Type 0 where
  here : Reach m m
  next : {m1 m2 : Machine} → Reach m m1 → Step m1 m2 → Reach m m2
