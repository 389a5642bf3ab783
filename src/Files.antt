-- ===== src/Files.antt =====
-- student-distrib/system_call.c: the system calls on file descriptors. A process has eight of them; 0 and 1
-- are the terminal's. Each file type has a table of four functions, `FileOps`. The calls that wait
-- take the interrupts that come meanwhile.
pub mod Descriptors
mod Tests
use linux_like_os_kernel.Prelude.{
  ℕ, zero, suc, ◌+◌, ◌-◌, ◌*◌, ◌/◌, ◌^◌, Bool, true, false, ltb, leb, ◌==◌, if◌then◌else◌, ℤ, pos,
  negsuc, failure, update, bit_and, Option, none, some, List,
}
use linux_like_os_kernel.Machine.{
  Machine, Pcb, FileDesc, FileOps, stdin_fop, stdout_fop, rtc_fop, dir_fop, file_fop, error_fop,
  set_pcb, now_pcb_id, max_file_num, u32,
}
use linux_like_os_kernel.FileSystem.{
  find_dentry, max_file_dentries, dentry_filetype, dentry_inode, read_data, dir_read, file_open,
  file_write, file_close, dir_open, dir_write, dir_close,
}
use linux_like_os_kernel.Rtc.{rtc_open, rtc_read, rtc_write, rtc_close}
use linux_like_os_kernel.Terminal.{term_read, term_write, term_close}

unfoldable pub operation_error : ℤ
operation_error = failure

-- The bits of an int, as a uint32_t.
abbrev pub bits : ℤ → ℕ
bits (pos n) = u32 n
bits (negsuc n) = u32 (2 ^ 32 - 1 - n)

-- The PCB that `get_cur_pcb` finds from the stack pointer: PCB `id` lies at
-- 0x800000 - (id + 1) * 0x2000, at the bottom of its process's kernel stack.
abbrev pub get_cur_pcb : ℕ → ℕ
get_cur_pcb esp = (0x800000 - bit_and esp 0xFFFFE000) / 0x2000 - 1

-- Assignments to `fds[i]` of a PCB.
abbrev pub set_fd : ℕ → ℕ → (FileDesc → FileDesc) → Machine → Machine
set_fd id i f = set_pcb id (λ p. record p { fds = update p.fds i (f (p.fds i)) })

-- A system call runs on the kernel stack that starts at `tss.esp0`, 4 bytes below the stack's end.
unfoldable pub file_read : ℕ → ℕ → ℤ → Machine → ℤ × Machine
file_read fd buf nbytes m =
    let id = get_cur_pcb m.tss_esp0 in
    let desc = (m.pcb id).fds fd in
    if fd == 0
    then (failure, m)
    else if buf == 0
    then (failure, m)
    else (let (increment, mem) =
          read_data m.mem m.fs desc.inode desc.file_position buf (bits nbytes) in
        (
          increment,
          set_fd id fd (λ d. record d { file_position = u32 (d.file_position + bits increment) })
              (record m { mem = mem }),
        ))

-- The descriptor that an int names, if it is in range.
abbrev pub fd_index : ℤ → Option ℕ
fd_index (pos n) = if ltb n max_file_num then some n else none
fd_index (negsuc n) = none

-- `optable.read`
unfoldable pub read_op :
    FileOps → ℕ → List (Machine → Machine) → ℕ → ℕ → ℤ → Machine → Option (ℤ × Machine)
read_op stdin_fop ticks keys fd buf nbytes m = term_read keys buf nbytes m
read_op stdout_fop ticks keys fd buf nbytes m = some (operation_error, m)
read_op rtc_fop ticks keys fd buf nbytes m = rtc_read ticks m
read_op dir_fop ticks keys fd buf nbytes m =
    let (length, mem, fs) = dir_read m.mem m.fs buf in
    some (length, record m { mem = mem; fs = fs })
read_op file_fop ticks keys fd buf nbytes m = some (file_read fd buf nbytes m)
read_op error_fop ticks keys fd buf nbytes m = some (operation_error, m)

-- `ticks` and `keys` are the interrupts that come while the call waits; `none` means that it still
-- waits, or a fault of the operation.
unfoldable pub read : ℕ → List (Machine → Machine) → ℤ → ℕ → ℤ → Machine → Option (ℤ × Machine)
read ticks keys fd buf nbytes m = elim (fd_index fd) [
  | none ↦ some (failure, m)
  | some i ↦
      if buf == 0
      then some (failure, m)
      else if ((m.pcb (now_pcb_id m)).fds i).flags == 0
      then some (failure, m)
      else read_op ((m.pcb (now_pcb_id m)).fds i).optable ticks keys i buf nbytes m
]

-- `optable.write`
unfoldable pub write_op : FileOps → ℕ → ℕ → ℤ → Machine → Option (ℤ × Machine)
write_op stdin_fop fd buf nbytes m = some (operation_error, m)
write_op stdout_fop fd buf nbytes m = term_write buf nbytes m
write_op rtc_fop fd buf nbytes m = some (rtc_write buf (bits nbytes) m)
write_op dir_fop fd buf nbytes m = some (dir_write fd buf (bits nbytes), m)
write_op file_fop fd buf nbytes m = some (file_write fd buf (bits nbytes), m)
write_op error_fop fd buf nbytes m = some (operation_error, m)

unfoldable pub write : ℤ → ℕ → ℤ → Machine → Option (ℤ × Machine)
write fd buf nbytes m = elim (fd_index fd) [
  | none ↦ some (failure, m)
  | some i ↦
      if buf == 0
      then some (failure, m)
      else if ((m.pcb (now_pcb_id m)).fds i).flags == 0
      then some (failure, m)
      else write_op ((m.pcb (now_pcb_id m)).fds i).optable i buf nbytes m
]

-- The loop of `open` from `fd` on, with `left` rounds: the first descriptor whose flag is 0.
unfoldable pub find_fd : (ℕ → FileDesc) → ℕ → ℕ → Option ℕ
find_fd fds fd zero = none
find_fd fds fd (suc left) = elim ((fds fd).flags == 0) [
  | true ↦ some fd
  | false ↦ find_fd fds (fd + 1) left
]

-- The assignments to the descriptor that `open` has found.
abbrev pub take_fd : FileDesc → FileDesc
take_fd d = record d { flags = 1; file_position = 0 }

-- The switch on the file's type, at a descriptor that has been taken. `rtc_open`, `dir_open` and
-- `file_open` return 0, so that their checks pass.
unfoldable pub attach : ℕ → ℕ → ℕ → ℕ → Machine → Machine
attach id fd filetype inode m =
    if filetype == 0
    then set_fd id fd (λ d. record d { inode = 0; optable = rtc_fop }) (rtc_open m).1
    else if filetype == 1
    then set_fd id fd (λ d. record d { inode = 0; optable = dir_fop }) m
    else if filetype == 2
    then set_fd id fd (λ d. record d { inode = inode; optable = file_fop }) m
    else m

-- `local_dentry` holds the type and the inode of the entry that is found.
unfoldable pub open_file : ℕ → Machine → ℤ × Machine
open_file filename m =
    let id = now_pcb_id m in
    if filename == 0
    then (failure, m)
    else elim (find_dentry m.mem m.fs filename 0 max_file_dentries) [
      | none ↦ (failure, m)
      | some index ↦ elim (find_fd (m.pcb id).fds 0 max_file_num) [
        | none ↦ (failure, m)
        | some fd ↦ (
          pos fd,
          attach id fd (dentry_filetype m.mem m.fs index) (dentry_inode m.mem m.fs index)
              (set_fd id fd take_fd m),
        )
      ]
    ]

-- `optable.close`
unfoldable pub close_op : FileOps → ℕ → ℤ
close_op stdin_fop fd = term_close fd
close_op stdout_fop fd = term_close fd
close_op rtc_fop fd = rtc_close fd
close_op dir_fop fd = dir_close fd
close_op file_fop fd = file_close fd
close_op error_fop fd = operation_error

-- The descriptors that can be closed are 2 to 7.
abbrev pub closable : ℤ → Option ℕ
closable (pos n) = if leb max_file_num n then none else if ltb n 2 then none else some n
closable (negsuc n) = none

unfoldable pub close : ℤ → Machine → ℤ × Machine
close fd m =
    let id = now_pcb_id m in
    elim (closable fd) [
      | none ↦ (failure, m)
      | some i ↦
          if ((m.pcb id).fds i).flags == 0
          then (failure, m)
          else (close_op ((m.pcb id).fds i).optable i, set_fd id i (λ d. record d { flags = 0 }) m)
    ]
