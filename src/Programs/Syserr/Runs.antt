-- ===== src/Programs/Syserr/Runs.antt =====
-- syscalls/ece391syserr.c: the test that opens too many files, and what a run of the program does.
use linux_like_os_kernel.Prelude.{
  ℕ, zero, suc, ◌+◌, ◌<◌, ◌≤◌, ◌==◌, false, ℤ, pos, negsuc, sub_ℕ, is_failure, List, ascii, ◌≡◌,
  refl, arith, subst,
}
use linux_like_os_kernel.Programs.{Syscalls, fdputs_literal}
use linux_like_os_kernel.Programs.Syserr.{
  open_lots, close_lots, err_open_lots, add_test, all_tests, invalid_test, run_test, syserr_main,
}
use linux_like_os_kernel.Programs.Syserr.Passes.{
  speech, IsRefusing, spoken, printed, Passes, err_neg_fd-Passes, err_big_fd-Passes,
  err_open-Passes, err_unopened-Passes, err_vidmap-Passes, err_stdin_out-Passes,
  err_syscall_num-Passes,
}

module _ {S : Type 0} (os : Syscalls S) (At : ℕ → ℕ → List ℕ → S → Type 0)
    (refusing : IsRefusing os At) where
  -- The opens that succeed are not counted, and the last one fails.
  open_lots_lem :
      (left hi : ℕ) (out : List ℕ) (w : S)
      → 2 ≤ hi
      → hi + left ≡ 8
      → At 2 hi out w
      → ((open_lots os (suc left) 0 w).0 ≡ 1) × At 2 8 out (open_lots os (suc left) 0 w).1
  unfolding open_lots
  open_lots_lem zero hi out w lo e at =
      let at8 = subst (λ k. At 2 k out w) (omega (arith, e)) at in
      rw (refusing.full out w at8) (refl, at8)
  open_lots_lem (suc left) hi out w lo e at =
      let (p, at') = refusing.opens hi out w lo (omega (arith, e)) at in
      rw (p, open_lots) (open_lots_lem left (hi + 1) out _ (omega arith) (omega (arith, e)) at')

  close_lots_lem :
      (left lo : ℕ) (out : List ℕ) (w : S)
      → 2 ≤ lo
      → lo + left ≡ 8
      → At lo 8 out w
      → At 8 8 out (close_lots os lo left w)
  unfolding close_lots
  close_lots_lem zero lo out w h e at = subst (λ k. At k 8 out w) (omega (arith, e)) at
  close_lots_lem (suc left) lo out w h e at =
      close_lots_lem left (lo + 1) out _ (omega arith) (omega (arith, e))
        (refusing.closes lo out w h (omega (arith, e)) at)

  err_open_lots-Passes :
      (out : List ℕ) (w : S)
      → At 2 2 out w
      → Passes os At refusing out (speech 2) (err_open_lots os w)
  unfolding err_open_lots
  err_open_lots-Passes out w at =
      let (p, at8) = open_lots_lem 6 2 out w (omega arith) refl at in
      rw p (
        refl,
        refusing.prints 2 out _
            (refusing.emptied out _ (close_lots_lem 6 2 out _ (omega arith) refl at8)),
      )

  -- A test that passes, after others that have.
  add_test-Passes :
      (k : ℕ) (out : List ℕ) (test : S → ℕ × S) (r : ℕ × S)
      → ((w : S)
          → At 2 2 (spoken out k) w
          → Passes os At refusing (spoken out k) (speech k) (test w))
      → (r.0 ≡ 0) × At 2 2 (spoken out k) r.1
      → ((add_test os test r).0 ≡ 0) × At 2 2 (spoken out (suc k)) (add_test os test r).1
  unfolding add_test
  add_test-Passes k out test r passes (e, at) =
      let (p, at') = passes r.1 at in (omega (arith, e, p), at')

  all_tests-Passes :
      (buf : ℕ) (out : List ℕ) (w : S)
      → At 2 2 out w
      → ((all_tests os buf w).0 ≡ 0) × At 2 2 (spoken out 9) (all_tests os buf w).1
  unfolding all_tests
  all_tests-Passes buf out w at =
      let (p, at') = add_test-Passes 7 out _ _ (err_syscall_num-Passes os At refusing buf _) (
        add_test-Passes 6 out _ _ (err_stdin_out-Passes os At refusing buf _) (
          add_test-Passes 5 out _ _ (err_vidmap-Passes os At refusing buf _) (
            add_test-Passes 4 out _ _ (err_unopened-Passes os At refusing buf _) (
              add_test-Passes 3 out _ _ (err_open-Passes os At refusing buf _) (
                add_test-Passes 2 out _ _ (err_open_lots-Passes _) (
                  add_test-Passes 1 out _ _ (err_big_fd-Passes os At refusing buf _) (
                    add_test-Passes 0 out _ (0, w) (err_neg_fd-Passes os At refusing buf _)
                      (refl, at)))))))) in
      rw p (refl, refusing.prints 8 _ _ at')

  invalid-Passes :
      (out : List ℕ) (w : S)
      → At 2 2 out w
      → Passes os At refusing out (speech 9) (invalid_test os w)
  unfolding invalid_test
  invalid-Passes out w at = (refl, refusing.prints 9 out w at)

  far :
      (n k : ℕ) → k < 9 → (suc (suc (suc (suc (suc (suc (suc (suc (suc (suc n))))))))) == k) ≡ false
  far n k h = ground arith

  far_end : (n : ℕ) → (suc (suc (suc (suc (suc (suc (suc (suc (suc n)))))))) == 8) ≡ false
  far_end n = ground arith

  run_test-Passes :
      (select : ℤ) (buf : ℕ) (out : List ℕ) (w : S)
      → At 2 2 out w
      → ((run_test os select buf w).0 ≡ 0)
        × At 2 2 (printed out select) (run_test os select buf w).1
  unfolding run_test
  run_test-Passes (negsuc k) buf out w at = invalid-Passes out w at
  run_test-Passes (pos zero) buf out w at = all_tests-Passes buf out w at
  run_test-Passes (pos (suc zero)) buf out w at = err_neg_fd-Passes os At refusing buf out w at
  run_test-Passes (pos (suc (suc zero))) buf out w at =
      err_big_fd-Passes os At refusing buf out w at
  run_test-Passes (pos (suc (suc (suc zero)))) buf out w at = err_open_lots-Passes out w at
  run_test-Passes (pos (suc (suc (suc (suc zero))))) buf out w at =
      err_open-Passes os At refusing buf out w at
  run_test-Passes (pos (suc (suc (suc (suc (suc zero)))))) buf out w at =
      err_unopened-Passes os At refusing buf out w at
  run_test-Passes (pos (suc (suc (suc (suc (suc (suc zero))))))) buf out w at =
      err_vidmap-Passes os At refusing buf out w at
  run_test-Passes (pos (suc (suc (suc (suc (suc (suc (suc zero)))))))) buf out w at =
      err_stdin_out-Passes os At refusing buf out w at
  run_test-Passes (pos (suc (suc (suc (suc (suc (suc (suc (suc zero))))))))) buf out w at =
      err_syscall_num-Passes os At refusing buf out w at
  run_test-Passes (pos (suc (suc (suc (suc (suc (suc (suc (suc (suc zero)))))))))) buf out w at =
      invalid-Passes out w at
  run_test-Passes (pos (suc (suc (suc (suc (suc (suc (suc (suc (suc (suc n))))))))))) buf out w at =
      let beyond = far n in
      rw
        (
          beyond 0 (omega arith),
          beyond 1 (omega arith),
          beyond 2 (omega arith),
          beyond 3 (omega arith),
          beyond 4 (omega arith),
          beyond 5 (omega arith),
          beyond 6 (omega arith),
          beyond 7 (omega arith),
          beyond 8 (omega arith),
          far_end n,
        )
        (invalid-Passes out w at)

  -- `syserr` returns 0, and its chosen test, or all of them, has said that it passed, on a system whose
  -- calls refuse descriptors that are not open, names that are not there, addresses outside the
  -- user's page and numbers that no call has, whose `open` of "." takes the next of the
  -- descriptors 2 to 7 while one is left, and whose `close` of them frees it. The number of the test is
  -- the first character of the line that the program has read, and nothing but the terminal is
  -- open after that.
  pub syserr_main_lem :
      (buf : ℕ) (out : List ℕ) (cnt : ℤ) (w w1 : S)
      → os.ece391_read
          (pos 0)
          buf
          127
          (fdputs_literal os (ascii "Choose from tests 1-8. 0 to run all: ") w)
        ≡ (cnt, w1)
      → is_failure cnt ≡ false
      → At 2 2 out w1
      → ((syserr_main os buf w).0 ≡ 0)
        × At 2 2 (printed out (sub_ℕ (os.memory w1 buf) b'0')) (syserr_main os buf w).1
  unfolding syserr_main
  syserr_main_lem buf out cnt w w1 e h at =
      rw (e, h) (run_test-Passes (sub_ℕ (os.memory w1 buf) b'0') buf out w1 at)
