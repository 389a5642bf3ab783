-- ===== src/Programs/Grep.antt =====
-- syscalls/ece391grep.c: the program that prints the lines of all files in which a string stands.
use linux_like_os_kernel.Prelude.{
  ℕ, zero, suc, ◌+◌, ◌-◌, leb, ◌==◌, ◌&&◌, not, true, false, ℤ, pos, negsuc, is_zero, is_failure,
  failure, if◌then◌else◌, update, Option, none, some, ascii,
}
use linux_like_os_kernel.Machine.{Memory, ◌▷◌}
use linux_like_os_kernel.Programs.{
  Syscalls, Exit, fdputs_literal, ece391_fdputs, ece391_strlen, ece391_strncmp, ece391_strcpy,
}

-- `while (line_end < last && '\n' != data[line_end]) line_end++;` with `last - line_end` rounds left.
unfoldable pub find_line_end : Memory → ℕ → ℕ → ℕ → ℕ
find_line_end m data_at line_end zero = line_end
find_line_end m data_at line_end (suc left) = elim (m (data_at + line_end) == b'\n') [
  | true ↦ line_end
  | false ↦ find_line_end m data_at (line_end + 1) left
]

module _ {S : Type 0} (os : Syscalls S) (s fname data_at : ℕ) where
  -- A match is printed with the name of the file.
  unfoldable pub print_match : ℕ → S → S
  print_match line_start w =
      w
      ▷ ece391_fdputs os (pos 1) fname
      ▷ fdputs_literal os (ascii ":")
      ▷ ece391_fdputs os (pos 1) (data_at + line_start)
      ▷ fdputs_literal os (ascii "\n")

  -- "search the line": from `check` on, with `line_end - check` rounds left.
  unfoldable pub search_line : ℕ → ℕ → ℕ → ℕ → S → S
  search_line s_len line_start check zero w = w
  search_line s_len line_start check (suc left) w =
      let m = os.memory w in
      elim (m s == m (data_at + check) && is_zero (ece391_strncmp m (data_at + check) s s_len)) [
        | true ↦ print_match line_start w
        | false ↦ search_line s_len line_start (check + 1) left w
      ]

  -- The inner loop from `line_start` on: the new `last`. A round moves `line_start` up to `last`, so that
  -- `last + 1` rounds are enough.
  unfoldable pub line_loop : ℕ → ℕ → ℕ → ℕ → ℕ → S → ℕ × S
  line_loop s_len cnt last line_start zero w = (last, w)
  line_loop s_len cnt last line_start (suc fuel) w =
      let line_end = find_line_end (os.memory w) data_at line_start (last - line_start) in
      let at_newline = os.memory w (data_at + line_end) == b'\n' in
      let w1 = os.store (λ m. update m (data_at + line_end) 0) w in
      elim (not at_newline && not (cnt == 0) && not (line_start == 0)) [
        | true ↦ (last - line_start, os.store (ece391_strcpy data_at (data_at + line_start)) w1)
        | false ↦
            (let w2 = search_line s_len line_start line_start (line_end - line_start) w1 in
              elim (leb last (line_end + 1)) [
                | true ↦ (0, w2)
                | false ↦ line_loop s_len cnt last (line_end + 1) fuel w2
              ])
      ]

  -- The outer loop of `do_one_file`; a `cnt` below -1 would count `last` down. A read gives no more than
  -- it is asked for, so that `last` stays within the array.
  unfoldable pub file_loop : ℕ → ℤ → ℕ → ℕ → S → Option (ℤ × S)
  file_loop zero fd s_len last w = none
  file_loop (suc fuel) fd s_len last w =
      let (cnt, w1) = os.ece391_read fd (data_at + last) (1024 - last) w in
      elim cnt [
        | negsuc k ↦
            if is_failure (negsuc k)
            then some (failure, fdputs_literal os (ascii "file read failed\n") w1)
            else none
        | pos n ↦
            (let (last1, w2) = line_loop s_len n (last + n) 0 (last + n + 1) w1 in
              elim (n == 0) [
                | true ↦
                    (let (closed, w3) = os.ece391_close fd w2 in
                      if is_failure closed
                      then some (failure, fdputs_literal os (ascii "file close failed\n") w3)
                      else some (pos 0, w3))
                | false ↦ file_loop fuel fd s_len last1 w2
              ])
      ]

  unfoldable pub do_one_file : ℕ → S → Option (ℤ × S)
  do_one_file fuel w =
      let s_len = ece391_strlen (os.memory w) s in
      let (fd, w1) = os.ece391_open fname w in
      if is_failure fd
      then some (failure, fdputs_literal os (ascii "file open failed\n") w1)
      else file_loop fuel fd s_len 0 w1

module _ {S : Type 0} (os : Syscalls S) (search buf data_at : ℕ) where
  -- The loop over the directory; each file has the same fuel.
  unfoldable pub directory_loop : ℕ → ℕ → ℤ → S → Exit S
  directory_loop zero file_fuel fd w = none
  directory_loop (suc fuel) file_fuel fd w =
      let (cnt, w1) = os.ece391_read fd buf 32 w in
      elim cnt [
        | negsuc k ↦
            if is_failure (negsuc k)
            then some (3, fdputs_literal os (ascii "directory entry read failed\n") w1)
            else none
        | pos n ↦ elim (n == 0) [
          | true ↦ some (0, w1)
          | false ↦ elim (os.memory w1 buf == b'.') [
            | true ↦ directory_loop fuel file_fuel fd w1
            | false ↦
                (let w2 = os.store (λ m. update m (buf + n) 0) w1 in
                  elim (do_one_file os search buf data_at file_fuel w2) [
                    | none ↦ none
                    | some (result, w3) ↦ elim (is_zero result) [
                      | true ↦ directory_loop fuel file_fuel fd w3
                      | false ↦ some (3, w3)
                    ]
                  ])
          ]
        ]
      ]

  unfoldable pub grep_main : ℕ → ℕ → S → Exit S
  grep_main fuel file_fuel w =
      let (result, w1) = os.ece391_getargs search 1024 w in
      if not (is_zero result)
      then some (3, fdputs_literal os (ascii "could not read argument\n") w1)
      else (let (fd, w2) = os.ece391_open (os.literal (ascii ".")) w1 in
          if is_failure fd
          then some (2, fdputs_literal os (ascii "directory open failed\n") w2)
          else directory_loop fuel file_fuel fd w2)
