-- ===== src/Process/Faults.antt =====
-- student-distrib/system_call.c: `execute` faults only where its loop over the command writes behind an array.
use linux_like_os_kernel.Prelude.{
  ℕ, ◌+◌, ◌*◌, Bool, true, false, is_zero, is_failure, if◌then◌else◌, ℤ, pos, negsuc, failure, fill,
  Option, none, some, List, ◌≡◌, subst, sym,
}
use linux_like_os_kernel.Machine.{Machine, set_mem}
use linux_like_os_kernel.Paging.{pcb_mapping}
use linux_like_os_kernel.CString.{strncmp}
use linux_like_os_kernel.FileSystem.{find_dentry, dentry_inode, inode_size, read_data}
use linux_like_os_kernel.Process.{
  Outcome, returned, entered, resumed, fault, Frame, parsed, long_name, overrun, parse_command,
  pcb_process_number, say, no_space, start_process, load_process, allocate_process, check_program,
  execute, resolve, start_virtual_addr, header_num, magic_number,
}

-- An outcome that the source defines.
abbrev pub IsLive : Outcome → Type 0
IsLive (returned z m) = Unit {0}
IsLive (entered pc m) = Unit {0}
IsLive (resumed status ebp esp m) = Unit {0}
IsLive fault = ⊥

if-IsLive :
    (b : Bool) (out out' : Outcome) → IsLive out → IsLive out' → IsLive (if b then out else out')
if-IsLive true out out' p q = p
if-IsLive false out out' p q = q

found-IsLive :
    (found : Option ℕ) (out : Outcome) (next : ℕ → Outcome)
    → IsLive out
    → ((index : ℕ) → IsLive (next index))
    → IsLive (elim found as (λ o. Outcome) [ none ↦ out | some index ↦ next index ])
found-IsLive none out next p q = p
found-IsLive (some index) out next p q = q index

load_process-IsLive :
    (n : ℕ) (frame : Frame) (fileargs : ℕ → ℕ) (m : Machine)
    → IsLive (load_process n frame fileargs m)
unfolding load_process
load_process-IsLive n frame fileargs m =
    found-IsLive (find_dentry m1.mem m1.fs frame.filename_at 0 63) _ _ tt (λ index.
      let inode = dentry_inode m1.mem m1.fs index in
      let (result, mem) =
        read_data m1.mem m1.fs inode 0 (resolve m1 start_virtual_addr)
          (inode_size m1.mem m1.fs inode) in
      if-IsLive (is_failure result) (returned failure (set_mem mem m1))
        (start_process n frame fileargs (set_mem mem m1)) tt tt)
  where
    m1 : Machine
    m1 = pcb_mapping 0x8000000 (0x800000 + n * 0x400000) m

allocate_process-IsLive :
    (frame : Frame) (fileargs : ℕ → ℕ) (m : Machine) → IsLive (allocate_process frame fileargs m)
unfolding allocate_process
allocate_process-IsLive frame fileargs m = numbered (pcb_process_number m.cur_term_id m.pcb_mask).0
  where
    m1 : Machine
    m1 = record m { pcb_mask = (pcb_process_number m.cur_term_id m.pcb_mask).1 }

    numbered :
        (number : ℤ)
        → IsLive (elim number as (λ o. Outcome) [
          | negsuc k ↦ returned (pos 0) (say no_space m1)
          | pos n ↦ load_process n frame fileargs m1
        ])
    numbered (negsuc k) = tt
    numbered (pos n) = load_process-IsLive n frame fileargs m1

check_program-IsLive :
    (frame : Frame) (filename fileargs : ℕ → ℕ) (m : Machine)
    → IsLive (check_program frame filename fileargs m)
unfolding check_program
check_program-IsLive frame filename fileargs m =
    found-IsLive (find_dentry m1.mem m1.fs frame.filename_at 0 63) _ _ tt (λ index.
      let (result, mem) =
        read_data m1.mem m1.fs (dentry_inode m1.mem m1.fs index) 0 frame.headerbuf_at header_num in
      if-IsLive (is_zero (strncmp mem frame.headerbuf_at frame.magic_at 4))
        (allocate_process frame fileargs (set_mem mem m1)) (returned failure (set_mem mem m1))
        (allocate_process-IsLive frame fileargs (set_mem mem m1)) tt)
  where
    m1 : Machine
    m1 = set_mem (fill (fill m.mem frame.filename_at filename 32) frame.magic_at magic_number 4) m

-- A command that fits the two arrays never makes `execute` fault.
pub execute-IsLive :
    (frame : Frame) (command : List ℕ) (filename fileargs : ℕ → ℕ) (m : Machine)
    → parse_command command ≡ parsed filename fileargs
    → IsLive (execute frame (some command) m)
unfolding execute
execute-IsLive frame command filename fileargs m e =
    subst
      (λ r. IsLive (elim r as (λ o. Outcome) [
        | long_name ↦ returned failure m
        | overrun ↦ fault
        | parsed filename fileargs ↦ check_program frame filename fileargs m
      ]))
      (sym e) (check_program-IsLive frame filename fileargs m)
