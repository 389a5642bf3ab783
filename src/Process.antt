-- ===== src/Process.antt =====
-- student-distrib/system_call.c: the table of processes, and `execute`; `halt` is in Halt. Each of
-- the three terminals has four process numbers; the PCB of process `n` is `pcb n`.
pub mod Mask
pub mod Command
pub mod Start
pub mod Faults
mod Tests
use linux_like_os_kernel.Prelude.{
  ℕ, zero, suc, ◌+◌, ◌-◌, ◌*◌, ◌/◌, ◌%◌, ◌^◌, Bool, true, false, ◌&&◌, ◌||◌, not, ltb, leb, ◌==◌,
  if◌then◌else◌, ℤ, pos, negsuc, failure, is_zero, is_failure, bit_or, update, fill, Option, none,
  some, List, [], ◌∷◌,
}
use linux_like_os_kernel.Machine.{
  Machine, Memory, Pcb, FileDesc, FileOps, stdin_fop, stdout_fop, error_fop, set_pcb, set_term,
  set_mem, now_pcb_id, max_pcb_mask_len, term_max, max_file_num, max_arg_length, byte_minus_one,
}
use linux_like_os_kernel.CString.{strlen, strncmp}
use linux_like_os_kernel.FileSystem.{
  find_dentry, max_file_dentries, max_filename_length, dentry_inode, inode_size, read_data, read32,
}
use linux_like_os_kernel.Printf.{printf}
use linux_like_os_kernel.Paging.{pcb_mapping, syscall_video_mapping}
use linux_like_os_kernel.Paging.Translation.{translate}
use linux_like_os_kernel.Terminal.{buf_clear}
use linux_like_os_kernel.Files.{close, set_fd}

abbrev pub Mask : Type 0
Mask = ℕ → ℕ → ℕ

-- The inner loop of `PCB_total_number`, after `n` rounds, and the outer one.
abbrev pub count_row : (ℕ → ℕ) → ℕ → ℕ
count_row row zero = 0
count_row row (suc n) = count_row row n + (if row n == 0 then 0 else 1)

abbrev pub count_rows : Mask → ℕ → ℕ
count_rows mask zero = 0
count_rows mask (suc n) = count_rows mask n + count_row (mask n) max_pcb_mask_len

unfoldable pub pcb_total_number : Mask → ℕ
pcb_total_number mask = count_rows mask term_max

abbrev pub set_mask : Mask → ℕ → ℕ → ℕ → Mask
set_mask mask i j v = update mask i (update (mask i) j v)

-- The loop of `PCB_process_number` from `i` on, with `left` rounds.
unfoldable pub process_number_from : ℕ → ℕ → ℕ → Mask → ℤ × Mask
process_number_from term i zero mask = (failure, mask)
process_number_from term i (suc left) mask = elim (mask term i == 0) [
  | true ↦
      if ltb 6 (pcb_total_number (set_mask mask term i 1))
      then (failure, set_mask (set_mask mask term i 1) term i 0)
      else (pos (i + term * max_pcb_mask_len), set_mask mask term i 1)
  | false ↦ process_number_from term (i + 1) left mask
]

unfoldable pub pcb_process_number : ℕ → Mask → ℤ × Mask
pcb_process_number term mask = process_number_from term 0 max_pcb_mask_len mask

-- How the loop of `execute` over the command ends: with the file name and the arguments, by the
-- check for a long name, or by a write behind the end of one of the two local arrays.
pub data Parse : Type 0 where
  parsed : (ℕ → ℕ) → (ℕ → ℕ) → Parse
  long_name overrun : Parse

-- `filename_flag`: -1, 0, 1 and 2.
pub data Flag : Type 0 where
  leading naming between arguing : Flag

-- The loop at index `i`; `offset`, `filename` and `fileargs` are the variables of the source.
unfoldable pub parse_from : List ℕ → ℕ → Flag → ℕ → (ℕ → ℕ) → (ℕ → ℕ) → Parse
parse_from [] i flag offset filename fileargs = parsed filename fileargs
parse_from (c ∷ command) i leading offset filename fileargs = elim (c == b' ') [
  | true ↦ parse_from command (i + 1) leading offset filename fileargs
  | false ↦ elim (ltb offset max_filename_length) [
    | true ↦ parse_from command (i + 1) naming (offset + 1) (update filename offset c) fileargs
    | false ↦ overrun
  ]
]
parse_from (c ∷ command) i naming offset filename fileargs = elim (ltb max_filename_length i) [
  | true ↦ long_name
  | false ↦ elim (c == b' ') [
    | true ↦ parse_from command (i + 1) between 0 filename fileargs
    | false ↦ elim (ltb offset max_filename_length) [
      | true ↦ parse_from command (i + 1) naming (offset + 1) (update filename offset c) fileargs
      | false ↦ overrun
    ]
  ]
]
parse_from (c ∷ command) i between offset filename fileargs = elim (c == b' ') [
  | true ↦ parse_from command (i + 1) between 0 filename fileargs
  | false ↦ elim (ltb offset max_arg_length) [
    | true ↦ parse_from command (i + 1) arguing (offset + 1) filename (update fileargs offset c)
    | false ↦ overrun
  ]
]
parse_from (c ∷ command) i arguing offset filename fileargs = elim (ltb offset max_arg_length) [
  | true ↦ parse_from command (i + 1) arguing (offset + 1) filename (update fileargs offset c)
  | false ↦ overrun
]

-- The arrays start out as zeros. The command is the list of its characters up to the terminator.
unfoldable pub parse_command : List ℕ → Parse
parse_command command = parse_from command 0 leading 0 (λ i. 0) (λ i. 0)

-- How a call of the kernel ends: it returns to its caller, starts a user program at an address, or
-- goes back into the call of `execute` that had started the process, with a result. `fault` stands
-- for what the source leaves undefined.
pub data Outcome : Type 0 where
  returned : ℤ → Machine → Outcome
  entered : ℕ → Machine → Outcome
  resumed : (status ebp esp : ℕ) → Machine → Outcome
  fault : Outcome

-- Where the local arrays of `execute` lie on the kernel stack, and the registers on entry.
pub record Frame : Type 0 where
  pub filename_at : ℕ
  pub headerbuf_at : ℕ
  pub magic_at : ℕ
  pub ebp : ℕ
  pub esp : ℕ

-- The bytes that an executable starts with.
abbrev pub magic_number : ℕ → ℕ
magic_number i = if i == 0 then 0x7f else if i == 1 then 0x45 else if i == 2 then 0x4c else 0x46

abbrev pub start_virtual_addr : ℕ
start_virtual_addr = 0x08048000

abbrev pub header_num : ℕ
header_num = 40

abbrev pub kernel_ds : ℕ
kernel_ds = 0x0018

-- The physical address behind a virtual one. `mem` is physical memory.
abbrev pub resolve : Machine → ℕ → ℕ
resolve m v = elim (translate m.paging v) [ none ↦ v | some (p, user) ↦ p ]

-- A message without conversions.
abbrev pub say : List ℕ → Machine → Machine
say s m = elim (printf s [] m) [ none ↦ m | some (n, m') ↦ m' ]

abbrev pub closed_fd : FileDesc
closed_fd = record { optable = error_fop; inode = 0; file_position = 0; flags = 0 }

-- The descriptors of a new process.
abbrev pub initial_fds : (ℕ → FileDesc) → ℕ → FileDesc
initial_fds fds =
    let empty = fill fds 0 (λ i. closed_fd) max_file_num in
    update (update empty 0 (record closed_fd { optable = stdin_fop; flags = 1 })) 1
      (record closed_fd { optable = stdout_fop; flags = 1 })

-- "Create PCB". `argbuf[100]`, behind the array's end, is the padding that follows it.
abbrev pub create_pcb : ℕ → ℕ → Frame → (ℕ → ℕ) → Pcb → Pcb
create_pcb n cur_term_id frame fileargs p = record p {
  parent_kbp = frame.ebp;
  parent_ksp = frame.esp;
  process_number = n;
  term_id = cur_term_id;
  parent_process_number = if n % 4 == 0 then byte_minus_one else n - 1;
  fds = initial_fds p.fds;
  argbuf = update (fill p.argbuf 0 fileargs max_arg_length) max_arg_length 0;
}

-- From "Create PCB" to the jump into the program.
abbrev pub start_process : ℕ → Frame → (ℕ → ℕ) → Machine → Outcome
start_process n frame fileargs m =
    let m1 = set_pcb n (create_pcb n m.cur_term_id frame fileargs) m in
    let m2 = set_term m.cur_term_id (λ t. record t { cur_pcb_id = n % 4 }) m1 in
    entered (read32 m2.mem (frame.headerbuf_at + 24)) (record m2 {
      tss_esp0 = 0x800000 - n * 0x2000 - 0x4;
      tss_ss0 = kernel_ds;
      interrupt_halt_flag = 0;
    })

-- From the mapping of the program's memory on, for process number `n`.
unfoldable pub load_process : ℕ → Frame → (ℕ → ℕ) → Machine → Outcome
load_process n frame fileargs m =
    let m1 = pcb_mapping 0x8000000 (0x800000 + n * 0x400000) m in
    elim (find_dentry m1.mem m1.fs frame.filename_at 0 max_file_dentries) [
      | none ↦ returned failure m1
      | some index ↦
          (let inode = dentry_inode m1.mem m1.fs index in
            let (result, mem) =
              read_data m1.mem m1.fs inode 0 (resolve m1 start_virtual_addr)
                (inode_size m1.mem m1.fs inode) in
            if is_failure result
            then returned failure (set_mem mem m1)
            else start_process n frame fileargs (set_mem mem m1))
    ]

abbrev pub no_space : List ℕ
no_space =
    b'T' ∷ b'h' ∷ b'e' ∷ b'r' ∷ b'e' ∷ b' ' ∷ b'a' ∷ b'r' ∷ b'e' ∷ b' ' ∷ b'n' ∷ b'o' ∷ b' ' ∷ b'a'
    ∷ b'v' ∷ b'a' ∷ b'i' ∷ b'l' ∷ b'a' ∷ b'b' ∷ b'l' ∷ b'e' ∷ b' ' ∷ b's' ∷ b'p' ∷ b'a' ∷ b'c'
    ∷ b'e' ∷ b' ' ∷ b'i' ∷ b'n' ∷ b' ' ∷ b't' ∷ b'h' ∷ b'e' ∷ b' ' ∷ b'P' ∷ b'C' ∷ b'B' ∷ b'\n' ∷ []

-- "Paging": the process number is taken in the terminal that is shown.
unfoldable pub allocate_process : Frame → (ℕ → ℕ) → Machine → Outcome
allocate_process frame fileargs m =
    let (number, mask) = pcb_process_number m.cur_term_id m.pcb_mask in
    let m1 : Machine = record m { pcb_mask = mask } in
    elim number [
      | negsuc k ↦ returned (pos 0) (say no_space m1)
      | pos n ↦ load_process n frame fileargs m1
    ]

-- The checks of the file's name and of its first four bytes.
unfoldable pub check_program : Frame → (ℕ → ℕ) → (ℕ → ℕ) → Machine → Outcome
check_program frame filename fileargs m =
    let named = fill m.mem frame.filename_at filename max_filename_length in
    let m1 : Machine = record m { mem = fill named frame.magic_at magic_number 4 } in
    elim (find_dentry m1.mem m1.fs frame.filename_at 0 max_file_dentries) [
      | none ↦ returned failure m1
      | some index ↦
          (let (result, mem) =
              read_data m1.mem m1.fs (dentry_inode m1.mem m1.fs index) 0 frame.headerbuf_at
                header_num in
            if is_zero (strncmp mem frame.headerbuf_at frame.magic_at 4)
            then allocate_process frame fileargs (set_mem mem m1)
            else returned failure (set_mem mem m1))
    ]

-- A NULL command is `none`.
unfoldable pub execute : Frame → Option (List ℕ) → Machine → Outcome
execute frame none m = returned failure m
execute frame (some command) m = elim (parse_command command) [
  | long_name ↦ returned failure m
  | overrun ↦ fault
  | parsed filename fileargs ↦ check_program frame filename fileargs m
]
