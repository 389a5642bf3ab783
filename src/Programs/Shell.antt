-- ===== src/Programs/Shell.antt =====
-- syscalls/ece391shell.c: the shell, which reads a line, and executes it.
pub mod Lines
pub mod Session
pub mod Typed
use linux_like_os_kernel.Prelude.{
  ℕ, zero, suc, ◌+◌, ◌-◌, ltb, ◌==◌, ◌&&◌, Bool, true, false, not, ℤ, pos, negsuc, is_zero,
  is_failure, if◌then◌else◌, update, Option, none, some, ascii,
}
use linux_like_os_kernel.Machine.{Memory}
use linux_like_os_kernel.Programs.{Syscalls, Exit, fdputs_literal, ece391_strcmp}

-- `256 == rval`
abbrev pub is_exception : ℤ → Bool
is_exception (pos n) = n == 256
is_exception (negsuc n) = false

-- `if (cnt > 0 && '\n' == buf[cnt - 1]) cnt--;`
unfoldable pub chop : ℕ → Memory → ℕ → ℕ
chop buf m cnt = if ltb 0 cnt && m (buf + (cnt - 1)) == b'\n' then cnt - 1 else cnt

module _ {S : Type 0} (os : Syscalls S) where
  -- What follows `rval = ece391_execute(buf)` in the loop.
  unfoldable pub report : ℤ → S → S
  report rval w =
      if is_failure rval
      then fdputs_literal os (ascii "no such command\n") w
      else if is_exception rval
      then fdputs_literal os (ascii "program terminated by exception\n") w
      else if not (is_zero rval)
      then fdputs_literal os (ascii "program terminated abnormally\n") w
      else w

  -- `buf[cnt] = '\0';` behind that.
  unfoldable pub end_line : ℕ → ℕ → S → S
  end_line buf cnt w = os.store (λ m. update m (buf + chop buf (os.memory w) cnt) 0) w

  -- The loop; a `cnt` below -1 would end the string below the array.
  unfoldable pub shell_loop : ℕ → ℕ → S → Exit S
  shell_loop zero buf w = none
  shell_loop (suc fuel) buf w =
      let (cnt, w1) = os.ece391_read (pos 0) buf 1023 (fdputs_literal os (ascii "391OS> ") w) in
      elim cnt [
        | negsuc k ↦
            if is_failure (negsuc k)
            then some (3, fdputs_literal os (ascii "read from keyboard failed\n") w1)
            else none
        | pos n ↦
            (let w2 = end_line buf n w1 in
              elim (is_zero (ece391_strcmp (os.memory w2) buf (os.literal (ascii "exit")))) [
                | true ↦ some (0, w2)
                | false ↦ elim (os.memory w2 buf == 0) [
                  | true ↦ shell_loop fuel buf w2
                  | false ↦
                      (let (rval, w3) = os.ece391_execute buf w2 in
                        shell_loop fuel buf (report rval w3))
                ]
              ])
      ]

  unfoldable pub shell_main : ℕ → ℕ → S → Exit S
  shell_main fuel buf w = shell_loop fuel buf (fdputs_literal os (ascii "Starting 391 Shell\n") w)
