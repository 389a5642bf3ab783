-- ===== src/Halt/Disk.antt =====
-- An image with one executable, "sh", of 28 bytes, for the tests of `execute` and `halt`.
use linux_like_os_kernel.Prelude.{
  ℕ, ◌==◌, if◌then◌else◌, fill, ascii, some, update, ◌≡◌, refl, Bool, true, false,
}
use linux_like_os_kernel.Machine.{Memory, Machine}
use linux_like_os_kernel.Fixtures.{boot}
use linux_like_os_kernel.CString.{strlen, strlen_from, strncmp, strncmp_from}
use linux_like_os_kernel.FileSystem.{find_dentry, name_matches, read_data, read_loop}
use linux_like_os_kernel.Paging.{pcb_mapping}
use linux_like_os_kernel.Process.{
  Outcome, returned, entered, resumed, fault, Frame, execute, parse_command, parse_from,
  check_program, allocate_process, load_process, pcb_process_number, process_number_from,
  pcb_total_number,
}

abbrev pub disk : Memory
disk a =
    if a == 64
    then b's'
    else if a == 65
    then b'h'
    else if a == 4096
    then 28
    else if a == 8192
    then 0x7F
    else if a == 8193
    then b'E'
    else if a == 8194
    then b'L'
    else if a == 8195
    then b'F'
    else if a == 8216
    then 0x18
    else 0

-- Terminal 1 runs and is shown, and its first process runs.
abbrev pub running : Machine
running = record boot {
  mem = disk;
  cur_term_id = 1;
  pcb = update boot.pcb 4 (record (boot.pcb 4) { process_number = 4 });
  pcb_mask = λ i j. if i == 1 then (if j == 0 then 1 else 0) else 0;
}

abbrev pub frame : Frame
frame = record { filename_at = 30000; headerbuf_at = 30100; magic_at = 30200; ebp = 7; esp = 8 }

abbrev pub machine_of : Outcome → Machine
machine_of (returned z m) = m
machine_of (entered pc m) = m
machine_of (resumed s ebp esp m) = m
machine_of fault = running

abbrev is_entered : Outcome → Bool
is_entered (returned z m) = false
is_entered (entered pc m) = true
is_entered (resumed s ebp esp m) = false
is_entered fault = false

abbrev pub pc_of : Outcome → ℕ
pc_of (returned z m) = 0
pc_of (entered pc m) = pc
pc_of (resumed s ebp esp m) = 0
pc_of fault = 0

entered-of_is_entered :
    (out : Outcome) → is_entered out ≡ true → out ≡ entered (pc_of out) (machine_of out)
entered-of_is_entered (returned z m) h = cc h
entered-of_is_entered (entered pc m) h = refl
entered-of_is_entered (resumed s ebp esp m) h = cc h
entered-of_is_entered fault h = cc h

abbrev pub started : Outcome
started = execute frame (some (ascii "sh")) running

enters : is_entered started ≡ true
unfolding execute parse_command parse_from check_program find_dentry name_matches strlen strlen_from
    strncmp strncmp_from read_data read_loop allocate_process load_process pcb_process_number
    process_number_from pcb_total_number pcb_mapping fill
enters = refl

pub started_lem : started ≡ entered (pc_of started) (machine_of started)
started_lem = entered-of_is_entered started enters
