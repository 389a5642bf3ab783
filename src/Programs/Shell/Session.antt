-- ===== src/Programs/Shell/Session.antt =====
-- syscalls/ece391shell.c: what the shell executes, on any system whose calls do what they promise.
use linux_like_os_kernel.Prelude.{
  ℕ, zero, suc, ◌+◌, ◌-◌, ◌<◌, ◌≤◌, not, ltb, ◌==◌, Bool, true, false, ℤ, pos, is_zero, is_failure,
  if◌then◌else◌, update, some, List, [], ◌∷◌, ◌++◌, length, append_assoc, append-nil, ascii, ◌≡◌,
  inl, inr, refl, arith, ◌∙◌, sym, subst, Bool-cases, ne→==,
}
use linux_like_os_kernel.Machine.{Memory}
use linux_like_os_kernel.Programs.{Syscalls, Exit, fdputs_literal, ece391_strcmp}
use linux_like_os_kernel.Programs.Cat.{Holds}
use linux_like_os_kernel.Programs.Shell.{
  is_exception, report, chop, end_line, shell_loop, shell_main,
}
use linux_like_os_kernel.Programs.Shell.Lines.{
  HoldsLine, same_line, ece391_strcmp_lem, AllNonzero, AreLines, end_line-HoldsLine, last_newline,
}

-- What the calls promise: `At lines ran w` says that `lines` are still to come from the keyboard, and that
-- the programs with the commands `ran` have been executed.
pub record IsSession {S : Type 0} (os : Syscalls S) (buf : ℕ)
    (At : List (List ℕ) → List (List ℕ) → S → Type 0) : Type 0 where
  pub prints :
      (lines ran : List (List ℕ)) (message : List ℕ) (w : S)
      → At lines ran w
      → At lines ran (fdputs_literal os message w)
  pub reads :
      (line : List ℕ) (lines ran : List (List ℕ)) (w : S)
      → At (line ∷ lines) ran w
      → ((os.ece391_read (pos 0) buf 1023 w).0 ≡ pos (length line + 1))
        × Holds (os.memory (os.ece391_read (pos 0) buf 1023 w).1) buf (line ++ (b'\n' ∷ []))
        × At lines ran (os.ece391_read (pos 0) buf 1023 w).1
  pub stores : (f : Memory → Memory) (w : S) → os.memory (os.store f w) ≡ f (os.memory w)
  pub keeps :
      (lines ran : List (List ℕ)) (k c : ℕ) (w : S)
      → k < 1024
      → At lines ran w
      → At lines ran (os.store (λ m. update m (buf + k) c) w)
  pub literals :
      (lines ran : List (List ℕ)) (w : S)
      → At lines ran w
      → HoldsLine (os.memory w) (os.literal (ascii "exit")) (ascii "exit")
  pub executes :
      (lines ran : List (List ℕ)) (command : List ℕ) (w : S)
      → length command < 1022
      → At lines ran w
      → HoldsLine (os.memory w) buf command
      → At lines (ran ++ (command ∷ [])) (os.ece391_execute buf w).1

-- The commands up to the line "exit", less the empty lines, and the lines behind it.
unfoldable pub commands : List (List ℕ) → List (List ℕ)
commands [] = []
commands ([] ∷ lines) = commands lines
commands ((c ∷ s) ∷ lines) = elim (same_line (c ∷ s) (ascii "exit")) [
  | true ↦ []
  | false ↦ (c ∷ s) ∷ commands lines
]

unfoldable pub behind_exit : List (List ℕ) → List (List ℕ)
behind_exit [] = []
behind_exit (line ∷ lines) = elim (same_line line (ascii "exit")) [
  | true ↦ lines
  | false ↦ behind_exit lines
]

-- One of the lines is "exit".
unfoldable pub exits : List (List ℕ) → Bool
exits [] = false
exits (line ∷ lines) = elim (same_line line (ascii "exit")) [ true ↦ true | false ↦ exits lines ]

module _ {S : Type 0} (os : Syscalls S) (buf : ℕ) (At : List (List ℕ) → List (List ℕ) → S → Type 0)
    (session : IsSession os buf At) where
  At-if :
      (lines ran : List (List ℕ)) (b : Bool) (w w' : S)
      → At lines ran w
      → At lines ran w'
      → At lines ran (if b then w else w')
  At-if lines ran true w w' p q = p
  At-if lines ran false w w' p q = q

  report-At :
      (lines ran : List (List ℕ)) (rval : ℤ) (w : S)
      → At lines ran w
      → At lines ran (report os rval w)
  unfolding report
  report-At lines ran rval w at =
      At-if lines ran (is_failure rval) _ _
        (session.prints lines ran (ascii "no such command\n") w at)
        (At-if lines ran (is_exception rval) _ _
          (session.prints lines ran (ascii "program terminated by exception\n") w at)
          (At-if lines ran (not (is_zero rval)) _ _
            (session.prints lines ran (ascii "program terminated abnormally\n") w at) at))

  chop_lem : (n : ℕ) (m : Memory) → m (buf + n) ≡ b'\n' → chop buf m (n + 1) ≡ n
  unfolding chop
  chop_lem n m e = rw (back n, e, positive n) refl
    where
      back : (k : ℕ) → k + 1 - 1 ≡ k
      back k = omega arith

      positive : (k : ℕ) → ltb 0 (k + 1) ≡ true
      positive k = ground arith

  -- The line stands in the buffer, ended.
  end_line-At :
      (line : List ℕ) (lines ran : List (List ℕ)) (w : S)
      → length line < 1022
      → AllNonzero line
      → Holds (os.memory w) buf (line ++ (b'\n' ∷ []))
      → At lines ran w
      → HoldsLine (os.memory (end_line os buf (length line + 1) w)) buf line
        × At lines ran (end_line os buf (length line + 1) w)
  unfolding end_line
  end_line-At line lines ran w short h k at =
      rw (chop_lem (length line) (os.memory w) (last_newline line (os.memory w) buf k), end_line)
        (
          rw (session.stores (λ m. update m (buf + length line) 0) w)
              (end_line-HoldsLine line (os.memory w) buf h k),
          session.keeps lines ran (length line) 0 w (omega (arith, short)) at,
        )

  -- What a read has left, and the line in the buffer.
  record Round (line : List ℕ) (lines ran : List (List ℕ)) (w : S) : Type 0 where
    after : S
    reading :
        (fuel : ℕ)
        → shell_loop os (suc fuel) buf w ≡ elim (same_line line (ascii "exit")) as (λ o. Exit S) [
          | true ↦ some (0, after)
          | false ↦ elim (os.memory after buf == 0) as (λ o. Exit S) [
            | true ↦ shell_loop os fuel buf after
            | false ↦
                shell_loop os fuel buf
                  (report os (os.ece391_execute buf after).0 (os.ece391_execute buf after).1)
          ]
        ]
    held : HoldsLine (os.memory after) buf line
    at : At lines ran after

  round :
      (line : List ℕ) (lines ran : List (List ℕ)) (w : S)
      → length line < 1022
      → AllNonzero line
      → At (line ∷ lines) ran w
      → Round line lines ran w
  unfolding shell_loop
  round line lines ran w short text at = record {
    after = after;
    reading = λ fuel. rw (r.0, compared, shell_loop) refl;
    held = ended.0;
    at = ended.1;
  }
    where
      w0 : S
      w0 = fdputs_literal os (ascii "391OS> ") w

      r :
          ((os.ece391_read (pos 0) buf 1023 w0).0 ≡ pos (length line + 1))
          × Holds (os.memory (os.ece391_read (pos 0) buf 1023 w0).1) buf (line ++ (b'\n' ∷ []))
          × At lines ran (os.ece391_read (pos 0) buf 1023 w0).1
      r = session.reads line lines ran w0 (session.prints (line ∷ lines) ran (ascii "391OS> ") w at)

      after : S
      after = end_line os buf (length line + 1) (os.ece391_read (pos 0) buf 1023 w0).1

      ended : HoldsLine (os.memory after) buf line × At lines ran after
      ended = end_line-At line lines ran _ short text r.1 r.2

      compared :
          is_zero (ece391_strcmp (os.memory after) buf (os.literal (ascii "exit")))
          ≡ same_line line (ascii "exit")
      compared =
          ece391_strcmp_lem line (ascii "exit") (os.memory after) buf (os.literal (ascii "exit"))
            (omega (arith, short)) ended.0 (session.literals lines ran after ended.1)

  shell_loop_lem :
      (lines ran : List (List ℕ)) (fuel : ℕ) (w : S)
      → AreLines lines
      → exits lines ≡ true
      → length lines ≤ fuel
      → At lines ran w
      → (w' : S) × (shell_loop os fuel buf w ≡ some (0, w'))
        × At (behind_exit lines) (ran ++ commands lines) w'
  unfolding commands behind_exit exits
  shell_loop_lem [] ran fuel w l e h at = absurd (never e)
    where
      never : ¬ (false ≡ true)
      never d = cc d
  shell_loop_lem (line ∷ lines) ran zero w l e h at = absurd (omega arith)
  shell_loop_lem ([] ∷ lines) ran (suc fuel) w (short, text, l) e h at =
      let r : Round [] lines ran w = round [] lines ran w short text at in
      let (w', e', at') = shell_loop_lem lines ran fuel r.after l e (omega (arith, h)) r.at in
      (w', r.reading fuel ∙ rw r.held e', at')
  shell_loop_lem ((c ∷ s) ∷ lines) ran (suc fuel) w (short, text, l) e h at =
      let r : Round (c ∷ s) lines ran w = round (c ∷ s) lines ran w short text at in
      elim (Bool-cases (same_line (c ∷ s) (ascii "exit"))) [
        | inl same ↦ (
          r.after,
          r.reading fuel ∙ rw same refl,
          rw (same, behind_exit, commands, append-nil ran) r.at,
        )
        | inr other ↦
            (let (w', e', at') =
                shell_loop_lem lines (ran ++ ((c ∷ s) ∷ [])) fuel
                  (report os (os.ece391_execute buf r.after).0 (os.ece391_execute buf r.after).1) l
                  (sym (not_exit other) ∙ e) (omega (arith, h))
                  (report-At lines _ _ _
                    (session.executes lines ran (c ∷ s) r.after short r.at r.held)) in
              (
                w',
                r.reading fuel ∙ rw (other, nonempty _ r.held) e',
                rw (other, behind_exit, commands)
                    (subst (λ o. At (behind_exit lines) o w')
                      (append_assoc ran ((c ∷ s) ∷ []) (commands lines)) at'),
              ))
      ]
    where
      not_exit : same_line (c ∷ s) (ascii "exit") ≡ false → exits ((c ∷ s) ∷ lines) ≡ exits lines
      not_exit other = rw (other, exits) refl

      nonempty : (m : Memory) → HoldsLine m buf (c ∷ s) → (m buf == 0) ≡ false
      nonempty m (p, ne, rest) = rw p (ne→== c 0 ne)

  -- The shell executes the lines that are typed, each as one command and in their order, up to the line
  -- "exit", and ends with status 0 there: the lines behind that are not read. An empty line executes
  -- nothing. It does so whatever the commands return, on a system whose reads give the next line
  -- with its newline, whose lines have less than 1022 characters, and one of them is "exit".
  pub shell_main_lem :
      (lines ran : List (List ℕ)) (fuel : ℕ) (w : S)
      → AreLines lines
      → exits lines ≡ true
      → length lines ≤ fuel
      → At lines ran w
      → (w' : S) × (shell_main os fuel buf w ≡ some (0, w'))
        × At (behind_exit lines) (ran ++ commands lines) w'
  unfolding shell_main
  shell_main_lem lines ran fuel w l e h at =
      shell_loop_lem lines ran fuel _ l e h
        (session.prints lines ran (ascii "Starting 391 Shell\n") w at)
