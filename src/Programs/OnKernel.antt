-- ===== src/Programs/OnKernel.antt =====
-- syscalls/ on student-distrib/: the system calls that a program makes, as the kernel answers them. The
-- pointers of a program are physical addresses.
pub mod Strings
pub mod Names
pub mod Served
pub mod Refuses
pub mod Opens
pub mod Passes
mod Tests
use linux_like_os_kernel.Prelude.{
  ℕ, ◌+◌, ◌%◌, ◌==◌, ltb, ◌||◌, Bool, if◌then◌else◌, ℤ, pos, negsuc, failure, is_failure, Option,
  none, some, List,
}
use linux_like_os_kernel.Machine.{Machine, Memory, set_mem}
use linux_like_os_kernel.CString.{address_space}
use linux_like_os_kernel.FileSystem.{int32}
use linux_like_os_kernel.Paging.Translation.{translate}
use linux_like_os_kernel.Terminal.{bytes_until}
use linux_like_os_kernel.Files.{read, write, open_file, close}
use linux_like_os_kernel.Process.{Outcome, returned, entered, resumed, fault, Frame, execute}
use linux_like_os_kernel.Halt.{halt, getargs, vidmap, set_handler, sigreturn}
use linux_like_os_kernel.Programs.{Syscalls}

-- The program runs on a machine, until a call faults, still waits or gives the processor to another
-- program.
abbrev pub Running : Type 0
Running = Option Machine

abbrev back : Option (ℤ × Machine) → ℤ × Running
back none = (failure, none)
back (some (result, m)) = (result, some m)

abbrev pub call : (Machine → Option (ℤ × Machine)) → Running → ℤ × Running
call f none = (failure, none)
call f (some m) = back (f m)

abbrev returns : Outcome → Option (ℤ × Machine)
returns (returned result m) = some (result, m)
returns (entered pc m) = none
returns (resumed status ebp esp m) = none
returns fault = none

abbrev command_at : ℕ → Machine → Option (List ℕ)
command_at command m = if command == 0 then none else some (bytes_until m.mem command address_space)

-- `vidmap` stores through its pointer only when it does not refuse it.
abbrev mapped : Option (ℕ × Bool) → ℕ → Machine → Option (ℤ × Machine)
mapped (some (at, writable)) screen_start m = some (vidmap screen_start at m)
mapped none screen_start m =
    if is_failure (vidmap screen_start 0 m).0 then some (vidmap screen_start 0 m) else none

abbrev vidmap_at : ℕ → Machine → Option (ℤ × Machine)
vidmap_at screen_start m = mapped (translate m.paging screen_start) screen_start m

-- The registers that a program leaves in %ebx, %ecx and %edx.
pub record Registers : Type 0 where
  pub ebx : ℕ
  pub ecx : ℕ
  pub edx : ℕ

-- What the program does not choose: where the kernel's arrays lie in `execute`, the interrupts that come
-- while a call waits, and the registers.
module _ (frame : Frame) (ticks : ℕ) (keys : List (Machine → Machine)) (r : Registers) where
  -- The jump table of `syc_handler`, for the number in %eax.
  abbrev syc_jumptable : ℕ → Machine → Option (ℤ × Machine)
  syc_jumptable eax m =
      if eax == 1
      then returns (halt frame (r.ebx % 256) m)
      else if eax == 2
      then returns (execute frame (command_at r.ebx m) m)
      else if eax == 3
      then read ticks keys (int32 r.ebx) r.ecx (int32 r.edx) m
      else if eax == 4
      then write (int32 r.ebx) r.ecx (int32 r.edx) m
      else if eax == 5
      then some (open_file r.ebx m)
      else if eax == 6
      then some (close (int32 r.ebx) m)
      else if eax == 7
      then some (getargs r.ebx (int32 r.ecx) m)
      else if eax == 8
      then vidmap_at r.ebx m
      else if eax == 9
      then some (set_handler (int32 r.ebx) r.ecx, m)
      else some (sigreturn, m)

  -- A number below 1 or above 10 is no call's.
  unfoldable pub syc_handler : ℤ → Machine → Option (ℤ × Machine)
  syc_handler (negsuc k) m = some (failure, m)
  syc_handler (pos eax) m =
      if eax == 0 || ltb 10 eax then some (failure, m) else syc_jumptable eax m

  -- `literal` is where the string constants are.
  abbrev pub kernel : (List ℕ → ℕ) → Syscalls Running
  kernel literal = record {
    memory = λ w. elim w [ none ↦ (λ a. 0) | some m ↦ m.mem ];
    store = λ f w. elim w [ none ↦ none | some m ↦ some (set_mem (f m.mem) m) ];
    literal = literal;
    ece391_open = λ name. call (λ m. some (open_file name m));
    ece391_read = λ fd buf n. call (read ticks keys fd buf (pos n));
    ece391_write = λ fd buf n. call (write fd buf n);
    ece391_getargs = λ buf n. call (λ m. some (getargs buf (pos n) m));
    ece391_execute = λ command. call (λ m. returns (execute frame (command_at command m) m));
    ece391_close = λ fd. call (λ m. some (close fd m));
    ece391_vidmap = λ screen_start. call (vidmap_at screen_start);
    int_0x80 = λ number. call (syc_handler number);
  }
