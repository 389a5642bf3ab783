-- ===== src/Process/Start.antt =====
-- student-distrib/system_call.c: the process that `execute` starts.
use linux_like_os_kernel.Prelude.{
  ℕ, ◌+◌, ◌-◌, ◌*◌, ◌/◌, ◌%◌, ◌<◌, Bool, true, false, ltb, ◌==◌, is_zero, is_failure, if◌then◌else◌,
  ℤ, pos, negsuc, failure, fill, fill_lem, Option, none, some, List, ◌≡◌, ◌≢◌, refl, arith, ◌∙◌, ap,
  ne→==, ==_refl,
}
use linux_like_os_kernel.Machine.{
  Machine, Memory, Pcb, FileDesc, stdin_fop, stdout_fop, error_fop, set_mem,
}
use linux_like_os_kernel.CString.{strncmp}
use linux_like_os_kernel.FileSystem.{find_dentry, dentry_inode, inode_size, read_data}
use linux_like_os_kernel.Paging.{pcb_mapping}
use linux_like_os_kernel.Paging.Translation.{translate}
use linux_like_os_kernel.Paging.Mappings.{pcb_mapping_lem}
use linux_like_os_kernel.Process.{
  Outcome, returned, entered, resumed, fault, Frame, Mask, pcb_process_number, magic_number,
  resolve, initial_fds, start_process, load_process, allocate_process, check_program, execute,
  Parse, parsed, long_name, overrun, parse_command, no_space, say, closed_fd,
}

-- Process `n` has been started in machine `m`, and `m'` enters it.
pub record IsStarted (m : Machine) (frame : Frame) (n : ℕ) (m' : Machine) : Type 0 where
  pub taken : pcb_process_number m.cur_term_id m.pcb_mask ≡ (pos n, m'.pcb_mask)
  pub current : (m'.term m.cur_term_id).cur_pcb_id ≡ n % 4
  pub number : (m'.pcb n).process_number ≡ n
  pub parent : (m'.pcb n).parent_process_number ≡ (if n % 4 == 0 then 255 else n - 1)
  pub kept_ebp : (m'.pcb n).parent_kbp ≡ frame.ebp
  pub kept_esp : (m'.pcb n).parent_ksp ≡ frame.esp
  pub others : (q : ℕ) → q ≢ n → m'.pcb q ≡ m.pcb q
  pub descriptors : (i : ℕ) → i < 8 → ((m'.pcb n).fds i).flags ≡ (if ltb i 2 then 1 else 0)
  pub operations :
      (i : ℕ)
      → i < 8
      → ((m'.pcb n).fds i).optable
        ≡ (if i == 0 then stdin_fop else if i == 1 then stdout_fop else error_fop)
  pub kernel_stack : m'.tss_esp0 ≡ 0x800000 - n * 0x2000 - 0x4
  pub stack_segment : m'.tss_ss0 ≡ 0x18
  pub memory :
      (v : ℕ)
      → v / 0x400000 ≡ 32
      → translate m'.paging v ≡ some (0x800000 + n * 0x400000 + v % 0x400000, true)
  pub turn : m'.now_term_id ≡ m.now_term_id
  pub no_exception : m'.interrupt_halt_flag ≡ 0

-- If a program is entered, a process has been started.
abbrev pub Starts : Machine → Frame → Outcome → Type 0
Starts m frame (returned z m') = Unit {0}
Starts m frame (entered pc m') = (n : ℕ) × IsStarted m frame n m'
Starts m frame (resumed s ebp esp m') = Unit {0}
Starts m frame fault = Unit {0}

Starts-if :
    (b : Bool) (m : Machine) (frame : Frame) (out out' : Outcome)
    → Starts m frame out
    → Starts m frame out'
    → Starts m frame (if b then out else out')
Starts-if true m frame out out' p q = p
Starts-if false m frame out out' p q = q

-- What must be so of the machine with which process `n` is loaded.
record IsPrepared (m : Machine) (n : ℕ) (m1 : Machine) : Type 0 where
  taken : pcb_process_number m.cur_term_id m.pcb_mask ≡ (pos n, m1.pcb_mask)
  pcb : m1.pcb ≡ m.pcb
  shown : m1.cur_term_id ≡ m.cur_term_id
  turn : m1.now_term_id ≡ m.now_term_id

descriptors_lem :
    (fds : ℕ → FileDesc) (i : ℕ) → i < 8 → (initial_fds fds i).flags ≡ (if ltb i 2 then 1 else 0)
descriptors_lem fds i h = ground (arith, fill_lem fds 0 (λ (k : ℕ). closed_fd) 8 i)

operations_lem :
    (fds : ℕ → FileDesc) (i : ℕ)
    → i < 8
    → (initial_fds fds i).optable
      ≡ (if i == 0 then stdin_fop else if i == 1 then stdout_fop else error_fop)
operations_lem fds i h = ground (arith, fill_lem fds 0 (λ (k : ℕ). closed_fd) 8 i)

start_process-Starts :
    (m : Machine) (n : ℕ) (frame : Frame) (fileargs : ℕ → ℕ) (m1 : Machine)
    → IsPrepared m n m1
    → ((v : ℕ)
        → v / 0x400000 ≡ 32
        → translate m1.paging v ≡ some (0x800000 + n * 0x400000 + v % 0x400000, true))
    → Starts m frame (start_process n frame fileargs m1)
start_process-Starts m n frame fileargs m1 p mapped = (
  n,
  record {
    taken = p.taken;
    current = rw (p.shown, ==_refl m.cur_term_id);
    number = rw (==_refl n);
    parent = rw (==_refl n);
    kept_ebp = rw (==_refl n);
    kept_esp = rw (==_refl n);
    others = λ q ne. rw (ne→== q n ne) (ap (λ (f : ℕ → Pcb). f q) p.pcb);
    descriptors = λ i h. rw (==_refl n) (descriptors_lem _ i h);
    operations = λ i h. rw (==_refl n) (operations_lem _ i h);
    kernel_stack = refl;
    stack_segment = refl;
    memory = mapped;
    turn = p.turn;
    no_exception = refl;
  },
)

load_process-Starts :
    (m : Machine) (n : ℕ) (frame : Frame) (fileargs : ℕ → ℕ) (m1 : Machine)
    → IsPrepared m n m1
    → Starts m frame (load_process n frame fileargs m1)
unfolding load_process
load_process-Starts m n frame fileargs m1 p =
    found (find_dentry mapped.mem mapped.fs frame.filename_at 0 63)
  where
    mapped : Machine
    mapped = pcb_mapping 0x8000000 (0x800000 + n * 0x400000) m1

    loaded : Machine → ℤ × Memory → Outcome
    loaded m2 (result, mem) =
        if is_failure result
        then returned failure (set_mem mem m2)
        else start_process n frame fileargs (set_mem mem m2)

    found :
        (o : Option ℕ)
        → Starts m frame (elim o as (λ x. Outcome) [
          | none ↦ returned failure mapped
          | some index ↦ loaded mapped (
              read_data mapped.mem mapped.fs
                (dentry_inode mapped.mem mapped.fs index)
                0
                (resolve mapped 0x08048000)
                (inode_size mapped.mem mapped.fs (dentry_inode mapped.mem mapped.fs index)))
        ])
    found none = tt
    found (some index) =
        let out : ℤ × Memory =
          read_data mapped.mem mapped.fs (dentry_inode mapped.mem mapped.fs index) 0
            (resolve mapped 0x08048000)
            (inode_size mapped.mem mapped.fs (dentry_inode mapped.mem mapped.fs index)) in
        Starts-if (is_failure out.0) m frame _ _ tt (
          start_process-Starts m n frame fileargs (set_mem out.1 mapped)
            (record {
              taken = unfold pcb_mapping in p.taken;
              pcb = unfold pcb_mapping in p.pcb;
              shown = unfold pcb_mapping in p.shown;
              turn = unfold pcb_mapping in p.turn;
            })
            (λ v e. pcb_mapping_lem m1 n v ∙ rw e))

allocate_process-Starts :
    (m m1 : Machine) (frame : Frame) (fileargs : ℕ → ℕ)
    → m1.pcb_mask ≡ m.pcb_mask
    → m1.pcb ≡ m.pcb
    → m1.cur_term_id ≡ m.cur_term_id
    → m1.now_term_id ≡ m.now_term_id
    → Starts m frame (allocate_process frame fileargs m1)
unfolding allocate_process
allocate_process-Starts m m1 frame fileargs mask pcb shown turn =
    allocated (pcb_process_number m1.cur_term_id m1.pcb_mask) refl
  where
    allocated :
        (out : ℤ × Mask)
        → pcb_process_number m1.cur_term_id m1.pcb_mask ≡ out
        → Starts m frame (elim out.0 as (λ z. Outcome) [
          | negsuc k ↦ returned (pos 0) (say no_space (record m1 { pcb_mask = out.1 }))
          | pos n ↦ load_process n frame fileargs (record m1 { pcb_mask = out.1 })
        ])
    allocated (negsuc k, after) e = tt
    allocated (pos n, after) e =
        load_process-Starts m n frame fileargs (record m1 { pcb_mask = after })
          (record { taken = rw (← shown, ← mask) e; pcb = pcb; shown = shown; turn = turn })

check_program-Starts :
    (frame : Frame) (filename fileargs : ℕ → ℕ) (m : Machine)
    → Starts m frame (check_program frame filename fileargs m)
unfolding check_program
check_program-Starts frame filename fileargs m =
    found (find_dentry m1.mem m1.fs frame.filename_at 0 63)
  where
    m1 : Machine
    m1 = record m {
      mem = fill (fill m.mem frame.filename_at filename 32) frame.magic_at magic_number 4;
    }

    checked : ℤ × Memory → Outcome
    checked (result, mem) =
        if is_zero (strncmp mem frame.headerbuf_at frame.magic_at 4)
        then allocate_process frame fileargs (set_mem mem m1)
        else returned failure (set_mem mem m1)

    found :
        (o : Option ℕ)
        → Starts m frame (elim o as (λ x. Outcome) [
          | none ↦ returned failure m1
          | some index ↦
              checked
                (read_data m1.mem m1.fs (dentry_inode m1.mem m1.fs index) 0 frame.headerbuf_at 40)
        ])
    found none = tt
    found (some index) =
        let out : ℤ × Memory =
          read_data m1.mem m1.fs (dentry_inode m1.mem m1.fs index) 0 frame.headerbuf_at 40 in
        Starts-if (is_zero (strncmp out.1 frame.headerbuf_at frame.magic_at 4)) m frame _ _
          (allocate_process-Starts m (set_mem out.1 m1) frame fileargs refl refl refl refl) tt

-- Whenever `execute` enters a program, it has started a process: it has taken a process number of the
-- terminal that is shown, the process is that terminal's, its parent is the process with the number
-- before, or none if it is a terminal's first, its PCB keeps the registers of the call, only its
-- descriptors 0 and 1 are open, with the operations of the keyboard and of the screen, the task state
-- segment has its kernel stack, the user memory is the process's own, and no other PCB differs.
pub execute-Starts :
    (frame : Frame) (command : Option (List ℕ)) (m : Machine)
    → Starts m frame (execute frame command m)
unfolding execute
execute-Starts frame none m = tt
execute-Starts frame (some command) m = parses (parse_command command)
  where
    parses :
        (p : Parse)
        → Starts m frame (elim p as (λ x. Outcome) [
          | long_name ↦ returned failure m
          | overrun ↦ fault
          | parsed filename fileargs ↦ check_program frame filename fileargs m
        ])
    parses long_name = tt
    parses overrun = tt
    parses (parsed filename fileargs) = check_program-Starts frame filename fileargs m
