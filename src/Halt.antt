-- ===== src/Halt.antt =====
-- student-distrib/system_call.c: `halt`, `getargs`, `vidmap` and the two calls for signals.
pub mod Parent
pub mod Resume
pub mod RoundTrip
pub mod Disk
mod Tests
use linux_like_os_kernel.Prelude.{
  ℕ, zero, suc, ◌+◌, ◌-◌, ◌*◌, ◌/◌, ◌%◌, Bool, true, false, ◌&&◌, ◌||◌, ltb, leb, ◌==◌,
  if◌then◌else◌, ℤ, pos, negsuc, failure, bit_or, update, fill, Option, none, some, List, [], ◌∷◌,
}
use linux_like_os_kernel.Machine.{
  Machine, Memory, error_fop, set_term, set_mem, now_pcb_id, max_pcb_mask_len, max_file_num,
  byte_minus_one, ◌▷◌,
}
use linux_like_os_kernel.FileSystem.{write32}
use linux_like_os_kernel.CString.{strlen}
use linux_like_os_kernel.Paging.{pcb_mapping, syscall_video_mapping}
use linux_like_os_kernel.Terminal.{buf_clear, below}
use linux_like_os_kernel.Files.{close, set_fd}
use linux_like_os_kernel.Process.{
  Outcome, returned, entered, resumed, fault, Frame, execute, set_mask, say,
}

abbrev pub shell : List ℕ
shell = b's' ∷ b'h' ∷ b'e' ∷ b'l' ∷ b'l' ∷ []

abbrev pub last_shell : List ℕ
last_shell =
    b'H' ∷ b'a' ∷ b'l' ∷ b't' ∷ b'i' ∷ b'n' ∷ b'g' ∷ b' ' ∷ b't' ∷ b'h' ∷ b'e' ∷ b' ' ∷ b'l' ∷ b'a'
    ∷ b's' ∷ b't' ∷ b' ' ∷ b's' ∷ b'h' ∷ b'e' ∷ b'l' ∷ b'l' ∷ b' ' ∷ b'i' ∷ b's' ∷ b' ' ∷ b'n'
    ∷ b'o' ∷ b't' ∷ b' ' ∷ b'a' ∷ b'l' ∷ b'l' ∷ b'o' ∷ b'w' ∷ b'e' ∷ b'd' ∷ b'!' ∷ b'\n' ∷ []

-- One pass of the loop over the descriptors of the process `id`. `close(i)` looks its PCB up again.
unfoldable pub close_one : ℕ → ℕ → Machine → Machine
close_one id i m =
    set_fd id i (λ d. record d { optable = error_fop })
      (if ((m.pcb id).fds i).flags == 1
        then (close (pos i) (set_fd id i (λ d. record d { flags = 0 }) m)).1
        else m)

-- The loop, after `n` descriptors.
unfoldable pub close_all : ℕ → ℕ → Machine → Machine
close_all id zero m = m
close_all id (suc n) m = close_one id n (close_all id n m)

-- `parent_process_number % MAX_PCB_MASK_LEN`, which is -1 for -1.
abbrev pub parent_slot : ℕ → ℕ
parent_slot p = if p == byte_minus_one then byte_minus_one else p % max_pcb_mask_len

-- Up to the end of the loop over the descriptors.
unfoldable pub release : ℕ → Machine → Machine
release id m =
    let p = m.pcb id in
    let m1 =
      set_term m.now_term_id (λ t. record t { cur_pcb_id = parent_slot p.parent_process_number })
        m in
    close_all id max_file_num (record m1 {
      pcb_mask =
          set_mask m1.pcb_mask (p.process_number / max_pcb_mask_len)
            (p.process_number % max_pcb_mask_len) 0;
    })

-- From "Get the parent pcb" on, for a process `id` that has a parent.
unfoldable pub resume_parent : ℕ → ℕ → Machine → Outcome
resume_parent id status m =
    let p = m.pcb id in
    let parent = m.pcb p.parent_process_number in
    let m1 = pcb_mapping 0x8000000 (0x800000 + parent.process_number * 0x400000) m in
    resumed (if m.interrupt_halt_flag == 0 then status else bit_or status 0x100) p.parent_kbp
      p.parent_ksp
      (record m1 {
        tss_esp0 = 0x800000 - parent.process_number * 0x2000 - 0x4;
        interrupt_halt_flag = 0;
      })

-- Where `execute` returns after the last shell, the source takes 0x800000 for a parent's PCB.
unfoldable pub halt : Frame → ℕ → Machine → Outcome
halt frame status m =
    let m1 = buf_clear m in
    let id = now_pcb_id m1 in
    let m2 = release id m1 in
    if (m2.pcb id).parent_process_number == byte_minus_one
    then elim (execute frame (some shell) (say last_shell m2)) [
      | returned result m3 ↦ fault
      | entered pc m3 ↦ entered pc m3
      | resumed s ebp esp m3 ↦ resumed s ebp esp m3
      | fault ↦ fault
    ]
    else resume_parent id status m2

-- The length of a string in an array, which is at most `left` long.
unfoldable pub array_strlen : (ℕ → ℕ) → ℕ → ℕ → ℕ
array_strlen s i zero = i
array_strlen s i (suc left) = elim (s i == 0) [ true ↦ i | false ↦ array_strlen s (i + 1) left ]

-- `argbuf` ends with the zero that `execute` has stored at its index 100.
unfoldable pub getargs : ℕ → ℤ → Machine → ℤ × Machine
getargs buf nbytes m =
    let argbuf = (m.pcb (now_pcb_id m)).argbuf in
    let arg_length = array_strlen argbuf 0 100 in
    if arg_length == 0
    then (failure, m)
    else if below arg_length nbytes
    then (pos 0, set_mem (update (fill m.mem buf argbuf arg_length) (buf + arg_length) 0) m)
    else (failure, m)

-- `at` is the physical address of `*screen_start`.
unfoldable pub vidmap : ℕ → ℕ → Machine → ℤ × Machine
vidmap screen_start at m =
    if screen_start == 0 || ltb screen_start 0x8000000 || leb 0x8400000 screen_start
    then (failure, m)
    else (pos 0, syscall_video_mapping 0xB8000 m ▷ λ m1. set_mem (write32 m1.mem at 0x8400000) m1)

unfoldable pub set_handler : ℤ → ℕ → ℤ
set_handler signum handler_address = failure

unfoldable pub sigreturn : ℤ
sigreturn = failure
