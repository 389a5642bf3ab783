-- ===== src/Kernel/Calls.antt =====
-- student-distrib/system_call.c, scheduling.c and idt.c: `execute`, `halt`, the timer and the exceptions keep
-- the kernel's invariant, wherever they go on.
use linux_like_os_kernel.Prelude.{
  ℕ, zero, suc, ◌+◌, ◌*◌, ◌%◌, ◌<◌, ◌≤◌, Bool, true, false, ◌==◌, is_zero, is_failure,
  if◌then◌else◌, ℤ, pos, negsuc, failure, update, fill, Option, none, some, List, [], inl, inr,
  arith, ap, fun_ext, le_trans, le_refl, ℕ_discrete, ==_refl, ne→==,
}
use linux_like_os_kernel.Machine.{Machine, Memory, set_mem, now_pcb_id}
use linux_like_os_kernel.Paging.{pcb_mapping}
use linux_like_os_kernel.FileSystem.{find_dentry, dentry_inode, read_data, inode_size}
use linux_like_os_kernel.CString.{strncmp}
use linux_like_os_kernel.Files.{close, closable, close_op, set_fd}
use linux_like_os_kernel.Terminal.{buf_clear}
use linux_like_os_kernel.Process.{
  Outcome, returned, entered, resumed, fault, Frame, Mask, Parse, parsed, long_name, overrun,
  count_row, count_rows, pcb_total_number, set_mask, pcb_process_number, say, start_process,
  load_process, allocate_process, check_program, parse_command, execute, no_space, resolve,
  start_virtual_addr, header_num, magic_number,
}
use linux_like_os_kernel.Process.Mask.{pcb_process_number_lem}
use linux_like_os_kernel.Halt.{
  close_one, close_all, release, resume_parent, parent_slot, shell, last_shell, halt,
}
use linux_like_os_kernel.Kernel.Sound.{
  IsSound, if-IsSound, set_term-IsSound, after_printf-IsSound, printf-IsSound,
}
use linux_like_os_kernel.Kernel.Keys.{buf_clear-IsSound}

-- The invariant holds of the machine with which an outcome goes on.
abbrev pub Leaves : Outcome → Type 0
Leaves (returned z m) = IsSound m
Leaves (entered pc m) = IsSound m
Leaves (resumed status ebp esp m) = IsSound m
Leaves fault = Unit {0}

pub if-Leaves :
    (b : Bool) (out out' : Outcome) → Leaves out → Leaves out' → Leaves (if b then out else out')
if-Leaves true out out' p q = p
if-Leaves false out out' p q = q

pub if-second :
    (b : Bool) (r r' : ℤ × Machine) → IsSound r.1 → IsSound r'.1 → IsSound (if b then r else r').1
if-second true r r' p q = p
if-second false r r' p q = q

pub set_mem-IsSound : (mem : Memory) (m : Machine) → IsSound m → IsSound (set_mem mem m)
set_mem-IsSound mem m s = record { shape = s.shape }

count_row-clear : (row : ℕ → ℕ) (i n : ℕ) → count_row (update row i 0) n ≤ count_row row n
count_row-clear row i zero = omega arith
count_row-clear row i (suc n) = ground (arith, count_row-clear row i n)

row-clear : (mask : Mask) (t i n : ℕ) → count_row (set_mask mask t i 0 n) 4 ≤ count_row (mask n) 4
row-clear mask t i n = elim (ℕ_discrete n t) [
  | yes e ↦ rw (e, ==_refl t) (count_row-clear (mask t) i 4)
  | no ne ↦ rw (ne→== n t ne) (le_refl (count_row (mask n) 4))
]

-- Freeing a process number never makes the number of processes grow.
pcb_total_number-clear :
    (mask : Mask) (t i : ℕ) → pcb_total_number (set_mask mask t i 0) ≤ pcb_total_number mask
unfolding pcb_total_number
pcb_total_number-clear mask t i = rows 3
  where
    rows : (n : ℕ) → count_rows (set_mask mask t i 0) n ≤ count_rows mask n
    rows zero = omega arith
    rows (suc n) = omega (arith, rows n, row-clear mask t i n)

pcb_process_number-few :
    (term : ℕ) (mask : Mask)
    → term < 3
    → pcb_total_number mask ≤ 6
    → pcb_total_number (pcb_process_number term mask).1 ≤ 6
pcb_process_number-few term mask h few = elim (pcb_process_number_lem term mask h) [
  | inl t ↦ omega (arith, t.counted, t.room)
  | inr r ↦ rw (ap pcb_total_number (fun_ext (λ t. fun_ext (λ j. r.same t j)))) few
]

mask-IsSound :
    (mask : Mask) (m : Machine)
    → pcb_total_number mask ≤ 6
    → IsSound m
    → IsSound (record m { pcb_mask = mask })
mask-IsSound mask m h s = record {
  shape = record {
    is_shown = s.shape.is_shown;
    has_turn = s.shape.has_turn;
    here = s.shape.here;
    aside = s.shape.aside;
    few = h;
    column = s.shape.column;
    row = s.shape.row;
  };
}

pub say-IsSound : (message : List ℕ) (m : Machine) → IsSound m → IsSound (say message m)
say-IsSound message m s = after_printf-IsSound m _ s (printf-IsSound message [] m s)

start_process-Leaves :
    (n : ℕ) (frame : Frame) (fileargs : ℕ → ℕ) (m : Machine)
    → IsSound m
    → Leaves (start_process n frame fileargs m)
start_process-Leaves n frame fileargs m s = record {
  shape =
      (set_term-IsSound m.cur_term_id (λ t. record t { cur_pcb_id = n % 4 }) m
        (s.shape.aside m.cur_term_id) s).shape;
}

load_process-Leaves :
    (n : ℕ) (frame : Frame) (fileargs : ℕ → ℕ) (m : Machine)
    → IsSound m
    → Leaves (load_process n frame fileargs m)
unfolding load_process pcb_mapping
load_process-Leaves n frame fileargs m s = loaded (find_dentry m1.mem m1.fs frame.filename_at 0 63)
  where
    m1 : Machine
    m1 = pcb_mapping 0x8000000 (0x800000 + n * 0x400000) m

    s1 : IsSound m1
    s1 = record { shape = s.shape }

    loaded :
        (found : Option ℕ)
        → Leaves (elim found as (λ o. Outcome) [
          | none ↦ returned failure m1
          | some index ↦
              (let inode = dentry_inode m1.mem m1.fs index in
                let (result, mem) =
                  read_data m1.mem m1.fs inode 0
                    (resolve m1 start_virtual_addr)
                    (inode_size m1.mem m1.fs inode) in
                if is_failure result
                then returned failure (set_mem mem m1)
                else start_process n frame fileargs (set_mem mem m1))
        ])
    loaded none = record { shape = s.shape }
    loaded (some index) =
        let inode = dentry_inode m1.mem m1.fs index in
        let (result, mem) =
          read_data m1.mem m1.fs inode 0 (resolve m1 start_virtual_addr)
            (inode_size m1.mem m1.fs inode) in
        if-Leaves (is_failure result) (returned failure (set_mem mem m1))
          (start_process n frame fileargs (set_mem mem m1)) (set_mem-IsSound mem m1 s1)
          (start_process-Leaves n frame fileargs (set_mem mem m1) (set_mem-IsSound mem m1 s1))

allocate_process-Leaves :
    (frame : Frame) (fileargs : ℕ → ℕ) (m : Machine)
    → IsSound m
    → Leaves (allocate_process frame fileargs m)
unfolding allocate_process
allocate_process-Leaves frame fileargs m s =
    numbered (pcb_process_number m.cur_term_id m.pcb_mask).0
  where
    m1 : Machine
    m1 = record m { pcb_mask = (pcb_process_number m.cur_term_id m.pcb_mask).1 }

    s1 : IsSound m1
    s1 = mask-IsSound _ m (pcb_process_number-few _ _ s.shape.is_shown s.shape.few) s

    numbered :
        (number : ℤ)
        → Leaves (elim number as (λ o. Outcome) [
          | negsuc k ↦ returned (pos 0) (say no_space m1)
          | pos n ↦ load_process n frame fileargs m1
        ])
    numbered (negsuc k) = say-IsSound no_space m1 s1
    numbered (pos n) = load_process-Leaves n frame fileargs m1 s1

check_program-Leaves :
    (frame : Frame) (filename fileargs : ℕ → ℕ) (m : Machine)
    → IsSound m
    → Leaves (check_program frame filename fileargs m)
unfolding check_program
check_program-Leaves frame filename fileargs m s =
    checked (find_dentry m1.mem m1.fs frame.filename_at 0 63)
  where
    m1 : Machine
    m1 = set_mem (fill (fill m.mem frame.filename_at filename 32) frame.magic_at magic_number 4) m

    checked :
        (found : Option ℕ)
        → Leaves (elim found as (λ o. Outcome) [
          | none ↦ returned failure m1
          | some index ↦
              (let (result, mem) =
                  read_data m1.mem m1.fs
                    (dentry_inode m1.mem m1.fs index)
                    0
                    frame.headerbuf_at
                    header_num in
                if is_zero (strncmp mem frame.headerbuf_at frame.magic_at 4)
                then allocate_process frame fileargs (set_mem mem m1)
                else returned failure (set_mem mem m1))
        ])
    checked none = record { shape = s.shape }
    checked (some index) =
        if-Leaves _ (allocate_process frame fileargs _) (returned failure _)
          (allocate_process-Leaves frame fileargs _ (set_mem-IsSound _ m s)) (set_mem-IsSound _ m s)

pub execute-Leaves :
    (frame : Frame) (command : Option (List ℕ)) (m : Machine)
    → IsSound m
    → Leaves (execute frame command m)
unfolding execute
execute-Leaves frame none m s = s
execute-Leaves frame (some command) m s = ended (parse_command command)
  where
    ended :
        (result : Parse)
        → Leaves (elim result as (λ o. Outcome) [
          | long_name ↦ returned failure m
          | overrun ↦ fault
          | parsed filename fileargs ↦ check_program frame filename fileargs m
        ])
    ended long_name = s
    ended overrun = tt
    ended (parsed filename fileargs) = check_program-Leaves frame filename fileargs m s

pub close-IsSound : (fd : ℤ) (m : Machine) → IsSound m → IsSound (close fd m).1
unfolding close
close-IsSound fd m s = closes (closable fd)
  where
    id : ℕ
    id = now_pcb_id m

    closes :
        (found : Option ℕ)
        → IsSound
            (elim found as (λ o. ℤ × Machine) [
              | none ↦ (failure, m)
              | some i ↦ if ((m.pcb id).fds i).flags == 0 then (failure, m) else (
                close_op ((m.pcb id).fds i).optable i,
                set_fd id i (λ d. record d { flags = 0 }) m,
              )
            ]).1
    closes none = s
    closes (some i) =
        if-second (((m.pcb id).fds i).flags == 0) (failure, m)
          (close_op ((m.pcb id).fds i).optable i, set_fd id i (λ d. record d { flags = 0 }) m) s
          (record { shape = s.shape })

close_all-IsSound : (id n : ℕ) (m : Machine) → IsSound m → IsSound (close_all id n m)
unfolding close_all close_one
close_all-IsSound id zero m s = s
close_all-IsSound id (suc n) m s =
    let r = close_all-IsSound id n m s in
    let c =
      if-IsSound ((((close_all id n m).pcb id).fds n).flags == 1) _ _
        (close-IsSound (pos n) _ (record { shape = r.shape })) r in
    record { shape = c.shape }

release-IsSound : (id : ℕ) (m : Machine) → IsSound m → IsSound (release id m)
unfolding release
release-IsSound id m s = close_all-IsSound id 8 _ (
    mask-IsSound _ _ (le_trans (pcb_total_number-clear _ _ _) s.shape.few) (
      set_term-IsSound m.now_term_id
        (λ t. record t { cur_pcb_id = parent_slot (m.pcb id).parent_process_number }) m
        (s.shape.aside m.now_term_id) s))

resume_parent-Leaves :
    (id status : ℕ) (m : Machine) → IsSound m → Leaves (resume_parent id status m)
unfolding resume_parent pcb_mapping
resume_parent-Leaves id status m s = record { shape = s.shape }

pub halt-Leaves :
    (frame : Frame) (status : ℕ) (m : Machine) → IsSound m → Leaves (halt frame status m)
unfolding halt
halt-Leaves frame status m s =
    if-Leaves _ _ _
      (restarted (execute frame (some shell) (say last_shell m2))
        (execute-Leaves frame (some shell) _ (say-IsSound last_shell m2 s2)))
      (resume_parent-Leaves _ status m2 s2)
  where
    m2 : Machine
    m2 = release (now_pcb_id (buf_clear m)) (buf_clear m)

    s2 : IsSound m2
    s2 = release-IsSound _ (buf_clear m) (buf_clear-IsSound m s)

    restarted :
        (out : Outcome)
        → Leaves out
        → Leaves (elim out as (λ o. Outcome) [
          | returned result m3 ↦ fault
          | entered pc m3 ↦ entered pc m3
          | resumed st ebp esp m3 ↦ resumed st ebp esp m3
          | fault ↦ fault
        ])
    restarted (returned result m3) l = tt
    restarted (entered pc m3) l = l
    restarted (resumed st ebp esp m3) l = l
    restarted fault l = tt
