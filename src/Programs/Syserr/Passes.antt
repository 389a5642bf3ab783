-- ===== src/Programs/Syserr/Passes.antt =====
-- syscalls/ece391syserr.c: its tests pass on every system that refuses what it must refuse.
use linux_like_os_kernel.Prelude.{
  ℕ, zero, suc, ◌+◌, ◌<◌, ◌≤◌, ◌==◌, ℤ, pos, negsuc, failure, if◌then◌else◌, List, ◌++◌, ascii, ◌≡◌,
  ◌≢◌, ◌⊎◌, inl, inr, refl, arith,
}
use linux_like_os_kernel.Machine.{◌▷◌}
use linux_like_os_kernel.Programs.{Syscalls, fdputs_literal}
use linux_like_os_kernel.Programs.Syserr.{
  refused, refused_each, verdict, call_sys, err_neg_fd, err_big_fd, err_open, err_unopened,
  err_vidmap, err_stdin_out, err_syscall_num,
}

-- What the program says when nothing goes wrong.
abbrev pub speech : ℕ → List ℕ
speech zero = ascii "err_neg_fd: PASS\n"
speech (suc zero) = ascii "err_big_fd: PASS\n"
speech (suc (suc zero)) = ascii "err_open_lots: PASS\n"
speech (suc (suc (suc zero))) = ascii "err_open: PASS\n"
speech (suc (suc (suc (suc zero)))) = ascii "err_unopened: PASS\n"
speech (suc (suc (suc (suc (suc zero))))) = ascii "err_vidmap: PASS\n"
speech (suc (suc (suc (suc (suc (suc zero)))))) = ascii "err_stdin_out: PASS\n"
speech (suc (suc (suc (suc (suc (suc (suc zero))))))) = ascii "err_syscall_num: PASS\n"
speech (suc (suc (suc (suc (suc (suc (suc (suc zero)))))))) = ascii "\nOverall Tests: PASS\n"
speech (suc (suc (suc (suc (suc (suc (suc (suc (suc n))))))))) =
    ascii "Invalid test number. Choose from tests 1-8 or 0"

-- The names that it expects not to be there.
abbrev pub absent : ℕ → List ℕ
absent zero = ascii "helloo"
absent (suc zero) = ascii "shel"
absent (suc (suc n)) = ascii ""

-- A number that no system call has.
abbrev pub IsNoCall : ℤ → Type 0
IsNoCall (pos n) = (n ≡ 0) ⊎ (10 < n)
IsNoCall (negsuc n) = Unit {0}

-- What the calls promise, where `At lo hi out w` says that, beside 0 and 1 for the terminal, the
-- descriptors from `lo` to `hi - 1` are open, and that `out` has been written to the terminal.
pub record IsRefusing {S : Type 0} (os : Syscalls S) (At : ℕ → ℕ → List ℕ → S → Type 0)
    : Type 0 where
  pub prints :
      (k : ℕ) (out : List ℕ) (w : S)
      → At 2 2 out w
      → At 2 2 (out ++ speech k) (fdputs_literal os (speech k) w)
  pub reads :
      (fd : ℤ) (buf n : ℕ) (out : List ℕ) (w : S)
      → fd ≢ pos 0
      → At 2 2 out w
      → os.ece391_read fd buf n w ≡ (failure, w)
  pub writes :
      (fd : ℤ) (buf : ℕ) (n : ℤ) (out : List ℕ) (w : S)
      → fd ≢ pos 1
      → At 2 2 out w
      → os.ece391_write fd buf n w ≡ (failure, w)
  pub closes_none :
      (fd : ℤ) (out : List ℕ) (w : S) → At 2 2 out w → os.ece391_close fd w ≡ (failure, w)
  pub opens_none :
      (k : ℕ) (out : List ℕ) (w : S)
      → At 2 2 out w
      → os.ece391_open (os.literal (absent k)) w ≡ (failure, w)
  pub maps_none :
      (p : ℕ) (out : List ℕ) (w : S)
      → p < 0x8000000
      → At 2 2 out w
      → os.ece391_vidmap p w ≡ (failure, w)
  pub calls_none :
      (number : ℤ) (out : List ℕ) (w : S)
      → IsNoCall number
      → At 2 2 out w
      → os.int_0x80 number w ≡ (failure, w)
  pub opens :
      (hi : ℕ) (out : List ℕ) (w : S)
      → 2 ≤ hi
      → hi < 8
      → At 2 hi out w
      → ((os.ece391_open (os.literal (ascii ".")) w).0 ≡ pos hi)
        × At 2 (hi + 1) out (os.ece391_open (os.literal (ascii ".")) w).1
  pub full :
      (out : List ℕ) (w : S)
      → At 2 8 out w
      → os.ece391_open (os.literal (ascii ".")) w ≡ (failure, w)
  pub closes :
      (lo : ℕ) (out : List ℕ) (w : S)
      → 2 ≤ lo
      → lo < 8
      → At lo 8 out w
      → At (lo + 1) 8 out (os.ece391_close (pos lo) w).1
  pub emptied : (out : List ℕ) (w : S) → At 8 8 out w → At 2 2 out w

-- The output when the first `n` speeches follow.
abbrev pub spoken : List ℕ → ℕ → List ℕ
spoken out zero = out
spoken out (suc n) = spoken out n ++ speech n

-- The output when the test of a number has run, or all of them for 0.
abbrev pub printed : List ℕ → ℤ → List ℕ
printed out (negsuc k) = out ++ speech 9
printed out (pos zero) = spoken out 9
printed out (pos (suc n)) = out ++ speech (if n == 8 then 9 else n)

module _ {S : Type 0} (os : Syscalls S) (At : ℕ → ℕ → List ℕ → S → Type 0)
    (refusing : IsRefusing os At) where
  -- A test has passed: it returns 0 and has written `message`.
  abbrev pub Passes : List ℕ → List ℕ → ℕ × S → Type 0
  Passes out message r = (r.0 ≡ 0) × At 2 2 (out ++ message) r.1

  -- The tests start from a state in which nothing but the terminal is open.
  module _ (buf : ℕ) (out : List ℕ) (w : S) (at : At 2 2 out w) where
    refused_lem :
        (call : S → ℤ × S) (message : List ℕ) (r : ℕ × S)
        → r ≡ (0, w)
        → call w ≡ (failure, w)
        → refused os call message r ≡ (0, w)
    unfolding refused
    refused_lem call message r p e = rw (p, e) refl

    refused_each_lem :
        (call : ℕ → S → ℤ × S) (message : List ℕ) (i left : ℕ) (r : ℕ × S)
        → r ≡ (0, w)
        → ((j : ℕ) → i ≤ j → call j w ≡ (failure, w))
        → refused_each os call message i left r ≡ (0, w)
    unfolding refused_each
    refused_each_lem call message i zero r p e = p
    refused_each_lem call message i (suc left) r p e =
        refused_each_lem call message (i + 1) left (refused os (call i) message r)
          (refused_lem (call i) message r p (e i (omega arith))) (λ j h. e j (omega arith))

    verdict-Passes :
        (k : ℕ) (fails : List ℕ) (r : ℕ × S)
        → r ≡ (0, w)
        → Passes out (speech k) (r ▷ verdict os (speech k) fails)
    unfolding verdict
    verdict-Passes k fails r e = rw e (refl, refusing.prints k out w at)

    shut_read : (fd : ℤ) → fd ≢ pos 0 → os.ece391_read fd buf 31 w ≡ (failure, w)
    shut_read fd h = refusing.reads fd buf 31 out w h at

    shut_write : (fd : ℤ) → fd ≢ pos 1 → os.ece391_write fd buf (pos 31) w ≡ (failure, w)
    shut_write fd h = refusing.writes fd buf (pos 31) out w h at

    shut_close : (fd : ℤ) → os.ece391_close fd w ≡ (failure, w)
    shut_close fd = refusing.closes_none fd out w at

    pub err_neg_fd-Passes : Passes out (speech 0) (err_neg_fd os buf w)
    unfolding err_neg_fd
    err_neg_fd-Passes = verdict-Passes 0 _ _ (
        refused_lem _ _ _
          (refused_lem _ _ _ (refused_lem _ _ _ refl (shut_read _ (λ e. cc e)))
            (shut_write _ (λ e. cc e)))
          (shut_close _))

    pub err_big_fd-Passes : Passes out (speech 1) (err_big_fd os buf w)
    unfolding err_big_fd
    err_big_fd-Passes = verdict-Passes 1 _ _ (
        refused_lem _ _ _
          (refused_lem _ _ _ (refused_lem _ _ _ refl (shut_read _ (λ e. ground arith)))
            (shut_write _ (λ e. ground arith)))
          (shut_close _))

    pub err_open-Passes : Passes out (speech 3) (err_open os w)
    unfolding err_open
    err_open-Passes = verdict-Passes 3 _ _ (
        refused_lem _ _ _
          (refused_lem _ _ _ (refused_lem _ _ _ refl (refusing.opens_none 0 out w at))
            (refusing.opens_none 1 out w at))
          (refusing.opens_none 2 out w at))

    pub err_unopened-Passes : Passes out (speech 4) (err_unopened os buf w)
    unfolding err_unopened
    err_unopened-Passes = verdict-Passes 4 _ _ (
        refused_each_lem _ _ 2 6 _
          (refused_each_lem _ _ 2 6 _ (refused_each_lem _ _ 0 8 _ refl (λ j h. shut_close (pos j)))
            (λ j h. shut_read (pos j) (λ e. ground arith)))
          (λ j h. shut_write (pos j) (λ e. ground arith)))

    pub err_vidmap-Passes : Passes out (speech 5) (err_vidmap os w)
    unfolding err_vidmap
    err_vidmap-Passes = verdict-Passes 5 _ _ (
        refused_lem _ _ _ (refused_lem _ _ _ refl (refusing.maps_none 0 out w (omega arith) at))
          (refusing.maps_none 0x400000 out w (omega arith) at))

    pub err_stdin_out-Passes : Passes out (speech 6) (err_stdin_out os buf w)
    unfolding err_stdin_out
    err_stdin_out-Passes = verdict-Passes 6 _ _ (
        refused_lem _ _ _ (refused_lem _ _ _ refl (shut_write _ (λ e. ground arith)))
          (shut_read _ (λ e. ground arith)))

    pub err_syscall_num-Passes : Passes out (speech 7) (err_syscall_num os w)
    unfolding err_syscall_num call_sys
    err_syscall_num-Passes = verdict-Passes 7 _ _ (
        refused_lem _ _ _
          (refused_lem _ _ _
            (refused_lem _ _ _ refl (refusing.calls_none _ out w (inr (omega arith)) at))
            (refusing.calls_none _ out w tt at))
          (refusing.calls_none _ out w (inl refl) at))
