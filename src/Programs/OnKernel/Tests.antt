-- ===== src/Programs/OnKernel/Tests.antt =====
-- syscalls/ece391syserr.c on student-distrib/: a run with a directory that holds "." alone.
use linux_like_os_kernel.Prelude.{
  ℕ, zero, suc, ◌+◌, ◌-◌, ◌*◌, ◌/◌, ◌%◌, ◌≤◌, ◌<◌, ◌⊎◌, ltb, leb, ◌==◌, ◌&&◌, if◌then◌else◌, pos,
  sub_ℕ, List, [], ◌∷◌, ◌++◌, ascii, none, some, ◌≡◌, refl, arith, Bool, true, false,
}
use linux_like_os_kernel.Machine.{Machine, Memory, FileDesc, stdin_fop, stdout_fop}
use linux_like_os_kernel.Fixtures.{boot, idle_pcb, closed_fd, idle_term}
use linux_like_os_kernel.Console.{putc, put_all, place_cursor, set_screen_cursor}
use linux_like_os_kernel.CString.{strlen_from, strlen, strncmp_from, strncmp}
use linux_like_os_kernel.FileSystem.{find_dentry, name_matches}
use linux_like_os_kernel.Terminal.{
  term_read, term_write, wait_enter, read_keys, bytes_until, buf_clear,
}
use linux_like_os_kernel.Files.{read, read_op, write, write_op}
use linux_like_os_kernel.Files.Descriptors.{now_fds}
use linux_like_os_kernel.Process.{Frame}
use linux_like_os_kernel.Programs.{
  Syscalls, ece391_strlen, strlen_loop, ece391_fdputs, fdputs_literal,
}
use linux_like_os_kernel.Programs.Syserr.{syserr_main}
use linux_like_os_kernel.Programs.Syserr.Passes.{speech, absent, printed}
use linux_like_os_kernel.Programs.OnKernel.{Running, Registers, kernel}
use linux_like_os_kernel.Printf.{printf, print_with, print_all, print_char}
use linux_like_os_kernel.Programs.OnKernel.Strings.{HoldsString}
use linux_like_os_kernel.Programs.Cat.{Holds}
use linux_like_os_kernel.Programs.OnKernel.Served.{screen_end, IsReady, AreOpen}
use linux_like_os_kernel.Programs.OnKernel.Passes.{HasSaid, syserr_on_kernel}

abbrev same_text : List ℕ → List ℕ → Bool
same_text [] [] = true
same_text [] (d ∷ t) = false
same_text (c ∷ s) [] = false
same_text (c ∷ s) (d ∷ t) = c == d && same_text s t

abbrev char_at : List ℕ → ℕ → ℕ
char_at [] i = 0
char_at (c ∷ s) zero = c
char_at (c ∷ s) (suc i) = char_at s i

abbrev prompt : List ℕ
prompt = ascii "Choose from tests 1-8. 0 to run all: "

-- The string constants, 256 bytes each from 0x900000 on.
abbrev constant : ℕ → List ℕ
constant k =
    if ltb k 10
    then speech k
    else if k == 10
    then ascii "."
    else if k == 11
    then ascii "helloo"
    else if k == 12
    then ascii "shel"
    else if k == 13
    then ascii ""
    else prompt

-- The number of a constant, the first of `left`.
abbrev number_of : List ℕ → ℕ → ℕ → ℕ
number_of s k zero = k
number_of s k (suc left) = if same_text s (constant k) then k else number_of s (k + 1) left

abbrev literal : List ℕ → ℕ
literal s = 0x900000 + 256 * number_of s 0 14

abbrev memory : Memory
memory a =
    if a == 0x500040
    then b'.'
    else if leb 0x900000 a && ltb a 0x901000
    then char_at (constant ((a - 0x900000) / 256)) ((a - 0x900000) % 256)
    else 0

abbrev fds : ℕ → FileDesc
fds i =
    if i == 0
    then record { optable = stdin_fop; inode = 0; file_position = 0; flags = 1 }
    else if i == 1
    then record { optable = stdout_fop; inode = 0; file_position = 0; flags = 1 }
    else closed_fd

-- The line "4" has been typed already.
abbrev typed : ℕ → ℕ
typed i = if i == 0 then b'4' else if i == 1 then b'\n' else 0

abbrev machine : Machine
machine = record boot {
  mem = memory;
  fs = record (boot.fs) { fs_dentry = 0x500040 };
  now_term_id = 0;
  term = λ i. record (idle_term i) { enter_state = 1 };
  keyboard = record (boot.keyboard) { key_buf = typed; key_buf_idx = 2 };
  console = record { screen_x = 0; screen_y = 0; video_mem = 0xB8000 };
  pcb = λ i. record idle_pcb { fds = fds };
}

abbrev frame : Frame
frame = record { filename_at = 0; headerbuf_at = 0; magic_at = 0; ebp = 0; esp = 0 }

abbrev registers : Registers
registers = record { ebx = 0; ecx = 0; edx = 0 }

abbrev os : Syscalls Running
os = kernel frame 0 [] registers literal

abbrev machine_of : Running → Machine
machine_of none = boot
machine_of (some m) = m

unfoldable after_prompt : Running
unfolding ece391_fdputs write write_op term_write
after_prompt = fdputs_literal os prompt (some machine)

unfoldable base : Machine
unfolding after_prompt
base = machine_of (os.ece391_read (pos 0) 0xB00000 127 after_prompt).1

base_read :
    os.ece391_read (pos 0) 0xB00000 127 (fdputs_literal os prompt (some machine))
    ≡ (pos 2, some base)
unfolding base after_prompt ece391_fdputs write write_op term_write read read_op term_read
    wait_enter read_keys buf_clear put_all putc printf print_with print_all bytes_until
    ece391_strlen strlen_loop print_char set_screen_cursor place_cursor
base_read = refl

abbrev holds : Memory → ℕ → List ℕ → Bool
holds m a [] = true
holds m a (c ∷ s) = m a == c && holds m (a + 1) s

both : (a c : ℕ) (p : Bool) → (a == c && p) ≡ true → (a ≡ c) × (p ≡ true)
both a c p h = ground arith

holds_lem : (m : Memory) (a : ℕ) (s : List ℕ) → holds m a s ≡ true → Holds m a s
holds_lem m a [] h = tt
holds_lem m a (c ∷ s) h =
    let (e, rest) = both (m a) c (holds m (a + 1) s) h in (e, holds_lem m (a + 1) s rest)

base_holds : (k : ℕ) → holds base.mem (literal (speech k)) (speech k ++ (0 ∷ [])) ≡ true
unfolding base after_prompt ece391_fdputs write write_op term_write read read_op term_read
    wait_enter read_keys buf_clear put_all putc printf print_with print_all bytes_until
    ece391_strlen strlen_loop print_char set_screen_cursor place_cursor
base_holds zero = refl
base_holds (suc zero) = refl
base_holds (suc (suc zero)) = refl
base_holds (suc (suc (suc zero))) = refl
base_holds (suc (suc (suc (suc zero)))) = refl
base_holds (suc (suc (suc (suc (suc zero))))) = refl
base_holds (suc (suc (suc (suc (suc (suc zero)))))) = refl
base_holds (suc (suc (suc (suc (suc (suc (suc zero))))))) = refl
base_holds (suc (suc (suc (suc (suc (suc (suc (suc zero)))))))) = refl
base_holds (suc (suc (suc (suc (suc (suc (suc (suc (suc n))))))))) = refl

base_strings : (k : ℕ) → HoldsString base.mem (literal (speech k)) (speech k)
base_strings k = holds_lem base.mem (literal (speech k)) (speech k ++ (0 ∷ [])) (base_holds k)

base_above : (k : ℕ) → screen_end ≤ literal (speech k)
base_above zero = omega arith
base_above (suc zero) = omega arith
base_above (suc (suc zero)) = omega arith
base_above (suc (suc (suc zero))) = omega arith
base_above (suc (suc (suc (suc zero)))) = omega arith
base_above (suc (suc (suc (suc (suc zero))))) = omega arith
base_above (suc (suc (suc (suc (suc (suc zero)))))) = omega arith
base_above (suc (suc (suc (suc (suc (suc (suc zero))))))) = omega arith
base_above (suc (suc (suc (suc (suc (suc (suc (suc zero)))))))) = omega arith
base_above (suc (suc (suc (suc (suc (suc (suc (suc (suc n))))))))) = omega arith

base-IsReady : IsReady literal base
unfolding base after_prompt ece391_fdputs write write_op term_write read read_op term_read
    wait_enter read_keys buf_clear put_all putc printf print_with print_all bytes_until
    ece391_strlen strlen_loop print_char set_screen_cursor place_cursor find_dentry name_matches
    strlen strlen_from strncmp strncmp_from
base-IsReady = record {
  shown = refl;
  on = record { column = omega arith; row = omega arith };
  strings = base_strings;
  string_above = base_above;
  directory_above = omega arith;
  dot_above = omega arith;
  absent_above = base_absent_above;
  dot_index = 0;
  dot = refl;
  away = base_away;
}
  where
    base_absent_above : (k : ℕ) → screen_end ≤ literal (absent k)
    base_absent_above zero = omega arith
    base_absent_above (suc zero) = omega arith
    base_absent_above (suc (suc k)) = omega arith

    base_away : (k : ℕ) → find_dentry base.mem base.fs (literal (absent k)) 0 63 ≡ none
    base_away zero = refl
    base_away (suc zero) = refl
    base_away (suc (suc k)) = refl

base-AreOpen : AreOpen 2 2 (now_fds base)
unfolding base after_prompt ece391_fdputs write write_op term_write read read_op term_read
    wait_enter read_keys buf_clear put_all putc printf print_with print_all bytes_until
    ece391_strlen strlen_loop print_char set_screen_cursor place_cursor
base-AreOpen = record {
  stdin = (refl, refl);
  stdout = (refl, refl);
  opened = λ j lo lt. absurd (omega (arith, lo, lt));
  shut = shut_fd;
}
  where
    shut_fd : (j : ℕ) → 2 ≤ j → j < 8 → (j < 2) ⊎ (2 ≤ j) → (now_fds base j).flags ≡ 0
    shut_fd zero lo lt side = absurd (omega (arith, lo))
    shut_fd (suc zero) lo lt side = absurd (omega (arith, lo))
    shut_fd (suc (suc j)) lo lt side = ground arith

syserr_on_kernel_example :
    ((syserr_main os 0xB00000 (some machine)).0 ≡ 0)
    × HasSaid base
        (printed [] (sub_ℕ (base.mem 0xB00000) b'0'))
        (syserr_main os 0xB00000 (some machine)).1
syserr_on_kernel_example =
    syserr_on_kernel frame 0 [] registers literal 0xB00000 2 (some machine) base base_read
      base-IsReady base-AreOpen
