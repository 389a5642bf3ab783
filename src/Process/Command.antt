-- ===== src/Process/Command.antt =====
-- student-distrib/system_call.c: the command line of `execute`.
use linux_like_os_kernel.Prelude.{
  ℕ, suc, ◌+◌, ◌<◌, ◌≤◌, update, List, [], ◌∷◌, ◌++◌, length, ◌≡◌, ◌≢◌, refl, arith, ne→==, lt→ltb,
  le→ltb, ◌∙◌, ap, add-zero,
}
use linux_like_os_kernel.Process.{parsed, naming, between, arguing, parse_from, parse_command}

-- No character is a space.
abbrev pub IsWord : List ℕ → Type 0
IsWord [] = Unit {0}
IsWord (c ∷ s) = (c ≢ b' ') × IsWord s

-- The array after the characters of `s` have been stored from index `k` on.
abbrev pub store : (ℕ → ℕ) → ℕ → List ℕ → ℕ → ℕ
store f k [] = f
store f k (c ∷ s) = store (update f k c) (k + 1) s

parse_from-name :
    (s rest : List ℕ) (i offset : ℕ) (filename fileargs : ℕ → ℕ)
    → IsWord s
    → i + length s ≤ 33
    → offset + length s ≤ 32
    → parse_from (s ++ rest) i naming offset filename fileargs
      ≡ parse_from rest (i + length s) naming (offset + length s) (store filename offset s) fileargs
unfolding parse_from
parse_from-name [] rest i offset filename fileargs w hi ho = rw (add-zero i, add-zero offset)
parse_from-name (c ∷ s) rest i offset filename fileargs w hi ho =
    rw (le→ltb 32 i (omega arith), ne→== c b' ' w.0, lt→ltb offset 32 (omega arith), parse_from)
      (parse_from-name s rest (i + 1) (offset + 1) (update filename offset c) fileargs w.1
          (omega arith) (omega arith)
        ∙ ap
            (λ k.
              parse_from rest k naming (offset + 1 + length s)
                (store (update filename offset c) (offset + 1) s) fileargs)
            (omega arith)
        ∙ ap
            (λ k.
              parse_from rest (i + suc (length s)) naming k
                (store (update filename offset c) (offset + 1) s) fileargs)
            (omega arith))

parse_from-arguments :
    (s : List ℕ) (i offset : ℕ) (filename fileargs : ℕ → ℕ)
    → offset + length s ≤ 100
    → parse_from s i arguing offset filename fileargs ≡ parsed filename (store fileargs offset s)
unfolding parse_from
parse_from-arguments [] i offset filename fileargs h = refl
parse_from-arguments (c ∷ s) i offset filename fileargs h =
    rw (lt→ltb offset 100 (omega arith), parse_from)
      (parse_from-arguments s (i + 1) (offset + 1) filename (update fileargs offset c)
        (omega arith))

-- An argument that does not start with a space.
abbrev pub IsArgs : List ℕ → Type 0
IsArgs [] = Unit {0}
IsArgs (c ∷ s) = c ≢ b' '

abbrev pub no_chars : ℕ → ℕ
no_chars i = 0

-- A command of a name of 1 to 32 characters without a space, one space, and an argument of at most
-- 100 characters that does not start with a space is split there: the arrays hold the name and the
-- argument, spaces within the argument included, and zeros behind them.
pub parse_command_lem :
    (name args : List ℕ)
    → IsWord name
    → 0 < length name
    → length name ≤ 32
    → IsArgs args
    → length args ≤ 100
    → parse_command (name ++ (b' ' ∷ args)) ≡ parsed (store no_chars 0 name) (store no_chars 0 args)
unfolding parse_command parse_from
parse_command_lem [] args w some_name hn a ha = absurd (omega arith)
parse_command_lem (c ∷ name) args w some_name hn a ha =
    rw (ne→== c b' ' w.0, parse_command, parse_from)
      (parse_from-name name (b' ' ∷ args) 1 1 (update no_chars 0 c) no_chars w.1 (omega arith)
          (omega arith)
        ∙ rw (le→ltb 32 (1 + length name) (omega arith), parse_from) (rest args a ha))
  where
    rest :
        (s : List ℕ)
        → IsArgs s
        → length s ≤ 100
        → parse_from s (1 + length name + 1) between 0 (store no_chars 0 (c ∷ name)) no_chars
          ≡ parsed (store no_chars 0 (c ∷ name)) (store no_chars 0 s)
    rest [] p h = refl
    rest (d ∷ s) p h =
        rw (ne→== d b' ' p, parse_from)
          (parse_from-arguments s (1 + length name + 1 + 1) 1 (store no_chars 0 (c ∷ name))
            (update no_chars 0 d) (omega arith))
