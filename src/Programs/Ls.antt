-- ===== src/Programs/Ls.antt =====
-- syscalls/ece391ls.c: what `ls` writes, on any system whose calls do what they promise.
use linux_like_os_kernel.Prelude.{
  ℕ, ◌+◌, ◌<◌, ◌≤◌, false, is_failure, ℤ, pos, update, List, [], ◌∷◌, ◌++◌, length, ◌≡◌,
}
use linux_like_os_kernel.Machine.{Memory}
use linux_like_os_kernel.Programs.{Syscalls}
use linux_like_os_kernel.Programs.Cat.{Holds, IsText}

-- What the calls promise of the directory that is open as `fd` and of the program's own buffer, where
-- `At names out w` says that `names` are left of the directory and that `out` has been written to the
-- terminal. Of other pointers, other lengths and other bytes than text nothing is promised.
pub record IsListing {S : Type 0} (os : Syscalls S) (fd : ℤ) (buf : ℕ)
    (At : List (List ℕ) → List ℕ → S → Type 0) : Type 0 where
  pub ends :
      (out : List ℕ) (w : S)
      → At [] out w
      → ((os.ece391_read fd buf 32 w).0 ≡ pos 0) × At [] out (os.ece391_read fd buf 32 w).1
  pub gives :
      (name : List ℕ) (names : List (List ℕ)) (out : List ℕ) (w : S)
      → At (name ∷ names) out w
      → ((os.ece391_read fd buf 32 w).0 ≡ pos (length name))
        × Holds (os.memory (os.ece391_read fd buf 32 w).1) buf name
        × At names out (os.ece391_read fd buf 32 w).1
  pub stores : (f : Memory → Memory) (w : S) → os.memory (os.store f w) ≡ f (os.memory w)
  pub keeps :
      (names : List (List ℕ)) (out : List ℕ) (i c : ℕ) (w : S)
      → i ≤ 32
      → At names out w
      → At names out (os.store (λ m. update m (buf + i) c) w)
  pub writes :
      (names : List (List ℕ)) (out chunk : List ℕ) (w : S)
      → IsText chunk
      → length chunk ≤ 33
      → At names out w
      → Holds (os.memory w) buf chunk
      → (is_failure (os.ece391_write (pos 1) buf (pos (length chunk)) w).0 ≡ false)
        × At names (out ++ chunk) (os.ece391_write (pos 1) buf (pos (length chunk)) w).1

-- Each name is text of 1 to 32 characters.
abbrev pub AreNames : List (List ℕ) → Type 0
AreNames [] = Unit {0}
AreNames (name ∷ names) = (0 < length name) × (length name ≤ 32) × IsText name × AreNames names

-- The names, each on a line of its own.
unfoldable pub lines_of : List (List ℕ) → List ℕ
lines_of [] = []
lines_of (name ∷ names) = (name ++ (b'\n' ∷ [])) ++ lines_of names
