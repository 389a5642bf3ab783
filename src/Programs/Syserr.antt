-- ===== src/Programs/Syserr.antt =====
-- syscalls/ece391syserr.c: the program that calls the kernel in eight wrong ways and checks that it
-- refuses. `fail` is the first component of a result.
pub mod Passes
pub mod Runs
use linux_like_os_kernel.Prelude.{
  ℕ, zero, suc, ◌+◌, ◌-◌, ◌==◌, ℤ, pos, negsuc, failure, sub_ℕ, is_zero, is_failure, if◌then◌else◌,
  List, ascii,
}
use linux_like_os_kernel.Machine.{◌▷◌}
use linux_like_os_kernel.Programs.{Syscalls, fdputs_literal, ece391_fdputs}

abbrev pub neg_fd : ℤ
neg_fd = negsuc 1073741822

abbrev pub big_fd : ℤ
big_fd = pos 1073741823

abbrev pub big_num : ℤ
big_num = pos 1073741823

abbrev pub neg_num : ℤ
neg_num = negsuc 1073741822

module _ {S : Type 0} (os : Syscalls S) where
  unfoldable pub call_sys : ℤ → S → ℤ × S
  call_sys num w = os.int_0x80 num w

  -- `if (-1 != call) { fail = 2; ece391_fdputs(1, message); }`
  unfoldable pub refused : (S → ℤ × S) → List ℕ → ℕ × S → ℕ × S
  refused call message (fail, w) =
      let (result, w1) = call w in
      if is_failure result then (fail, w1) else (2, fdputs_literal os message w1)

  -- The same for the numbers from `i` on, `left` of them.
  unfoldable pub refused_each : (ℕ → S → ℤ × S) → List ℕ → ℕ → ℕ → ℕ × S → ℕ × S
  refused_each call message i zero r = r
  refused_each call message i (suc left) r =
      refused_each call message (i + 1) left (refused (call i) message r)

  -- The end of each test.
  unfoldable pub verdict : List ℕ → List ℕ → ℕ × S → ℕ × S
  verdict pass fails (fail, w) = (fail, fdputs_literal os (if fail == 0 then pass else fails) w)

  unfoldable pub err_neg_fd : ℕ → S → ℕ × S
  err_neg_fd buf w =
      (0, w)
      ▷ refused (os.ece391_read neg_fd buf 31) (ascii "read fail\n")
      ▷ refused (os.ece391_write neg_fd buf (pos 31)) (ascii "write fail\n")
      ▷ refused (os.ece391_close neg_fd) (ascii "close fail\n")
      ▷ verdict (ascii "err_neg_fd: PASS\n") (ascii "err_neg_fd: FAIL\n")

  unfoldable pub err_big_fd : ℕ → S → ℕ × S
  err_big_fd buf w =
      (0, w)
      ▷ refused (os.ece391_read big_fd buf 31) (ascii "read fail\n")
      ▷ refused (os.ece391_write big_fd buf (pos 31)) (ascii "write fail\n")
      ▷ refused (os.ece391_close big_fd) (ascii "close fail\n")
      ▷ verdict (ascii "err_big_fd: PASS\n") (ascii "err_big_fd: FAIL\n")

  -- `for (i = 0; i < 7; i++) if (-1 == ece391_open(".")) cnt++;` with `left` rounds to go.
  unfoldable pub open_lots : ℕ → ℕ → S → ℕ × S
  open_lots zero cnt w = (cnt, w)
  open_lots (suc left) cnt w =
      let (result, w1) = os.ece391_open (os.literal (ascii ".")) w in
      open_lots left (if is_failure result then cnt + 1 else cnt) w1

  -- `for (i = 2; i < 8; i++) ece391_close(i);` from `i` on, with `left` rounds.
  unfoldable pub close_lots : ℕ → ℕ → S → S
  close_lots i zero w = w
  close_lots i (suc left) w = close_lots (i + 1) left (os.ece391_close (pos i) w).1

  unfoldable pub err_open_lots : S → ℕ × S
  err_open_lots w =
      let (cnt, w1) = open_lots 7 0 w in
      let w2 = close_lots 2 6 w1 in
      if cnt == 1
      then (0, fdputs_literal os (ascii "err_open_lots: PASS\n") w2)
      else (2, fdputs_literal os (ascii "err_open_lots: FAIL\n") w2)

  unfoldable pub err_open : S → ℕ × S
  err_open w =
      (0, w)
      ▷ refused (os.ece391_open (os.literal (ascii "helloo"))) (ascii "'helloo' fail\n")
      ▷ refused (os.ece391_open (os.literal (ascii "shel"))) (ascii "'shel' fail\n")
      ▷ refused (os.ece391_open (os.literal (ascii ""))) (ascii "empty string fail\n")
      ▷ verdict (ascii "err_open: PASS\n") (ascii "err_open: FAIL\n")

  unfoldable pub err_unopened : ℕ → S → ℕ × S
  err_unopened buf w =
      (0, w)
      ▷ refused_each (λ i. os.ece391_close (pos i)) (ascii "close unopened or invalid fd fail\n") 0
          8
      ▷ refused_each (λ i. os.ece391_read (pos i) buf 31) (ascii "read from unopened fd fail\n") 2 6
      ▷ refused_each (λ i. os.ece391_write (pos i) buf (pos 31))
          (ascii "write to unopened fd fail\n") 2 6
      ▷ verdict (ascii "err_unopened: PASS\n") (ascii "err_unopened: FAIL\n")

  unfoldable pub err_vidmap : S → ℕ × S
  err_vidmap w =
      (0, w)
      ▷ refused (os.ece391_vidmap 0) (ascii "Null pointer fail\n")
      ▷ refused (os.ece391_vidmap 0x400000) (ascii "Kernel pointer fail fail\n")
      ▷ verdict (ascii "err_vidmap: PASS\n") (ascii "err_vidmap: FAIL\n")

  unfoldable pub err_stdin_out : ℕ → S → ℕ × S
  err_stdin_out buf w =
      (0, w)
      ▷ refused (os.ece391_write (pos 0) buf (pos 31)) (ascii "write to stdin fail\n")
      ▷ refused (os.ece391_read (pos 1) buf 31) (ascii "read from stdout fail\n")
      ▷ verdict (ascii "err_stdin_out: PASS\n") (ascii "err_stdin_out: FAIL\n")

  unfoldable pub err_syscall_num : S → ℕ × S
  err_syscall_num w =
      (0, w)
      ▷ refused (call_sys big_num) (ascii "syscall 0 fail\n")
      ▷ refused (call_sys neg_num) (ascii "big num syscall fail\n")
      ▷ refused (call_sys (pos 0)) (ascii "neg num syscall fail\n")
      ▷ verdict (ascii "err_syscall_num: PASS\n") (ascii "err_syscall_num: FAIL\n")

  -- `fail += test();`
  unfoldable pub add_test : (S → ℕ × S) → ℕ × S → ℕ × S
  add_test test (fail, w) = let (result, w1) = test w in (fail + result, w1)

  -- The case of the switch that runs all the tests. Each test has its own array; `buf` is where they lie.
  unfoldable pub all_tests : ℕ → S → ℕ × S
  all_tests buf w =
      let (fail, w1) =
        (0, w)
        ▷ add_test (err_neg_fd buf)
        ▷ add_test (err_big_fd buf)
        ▷ add_test err_open_lots
        ▷ add_test err_open
        ▷ add_test (err_unopened buf)
        ▷ add_test err_vidmap
        ▷ add_test (err_stdin_out buf)
        ▷ add_test err_syscall_num in
      (
        fail,
        fdputs_literal os
            (if fail == 0 then ascii "\nOverall Tests: PASS\n" else ascii "\nOverall Tests: FAIL\n")
            w1,
      )

  unfoldable pub invalid_test : S → ℕ × S
  invalid_test w =
      (0, fdputs_literal os (ascii "Invalid test number. Choose from tests 1-8 or 0") w)

  -- The switch; a `select` below 0 goes to its default, too.
  unfoldable pub run_test : ℤ → ℕ → S → ℕ × S
  run_test (negsuc k) buf w = invalid_test w
  run_test (pos select) buf w =
      if select == 0
      then all_tests buf w
      else if select == 1
      then err_neg_fd buf w
      else if select == 2
      then err_big_fd buf w
      else if select == 3
      then err_open_lots w
      else if select == 4
      then err_open w
      else if select == 5
      then err_unopened buf w
      else if select == 6
      then err_vidmap w
      else if select == 7
      then err_stdin_out buf w
      else if select == 8
      then err_syscall_num w
      else invalid_test w

  unfoldable pub syserr_main : ℕ → S → ℕ × S
  syserr_main buf w =
      let w1 = fdputs_literal os (ascii "Choose from tests 1-8. 0 to run all: ") w in
      let (cnt, w2) = os.ece391_read (pos 0) buf 127 w1 in
      if is_failure cnt
      then (2, fdputs_literal os (ascii "Can't read test #\n") w2)
      else run_test (sub_ℕ (os.memory w2 buf) b'0') buf w2
