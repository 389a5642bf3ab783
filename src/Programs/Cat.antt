-- ===== src/Programs/Cat.antt =====
-- syscalls/ece391cat.c: what `cat` writes, on any system whose calls do what they promise.
use linux_like_os_kernel.Prelude.{
  ℕ, zero, suc, ◌+◌, ◌<◌, ◌≤◌, true, false, ◌==◌, is_zero, is_failure, ℤ, pos, some, List, [], ◌∷◌,
  ◌++◌, length, append-nil, append_assoc, length-append, ◌≡◌, ◌≢◌, ◌⊎◌, inl, inr, refl, arith, ◌∙◌,
  ap, sym, subst,
}
use linux_like_os_kernel.Machine.{Memory}
use linux_like_os_kernel.Programs.{Syscalls, cat_loop, cat_main}

-- The bytes at an address.
abbrev pub Holds : Memory → ℕ → List ℕ → Type 0
Holds m a [] = Unit {0}
Holds m a (c ∷ s) = (m a ≡ c) × Holds m (a + 1) s

-- Text that the terminal shows as it is: no character ends a string, and none is the `%` of a format, as which
-- the kernel's `write` takes its bytes.
abbrev pub IsText : List ℕ → Type 0
IsText [] = Unit {0}
IsText (c ∷ s) = (c ≢ 0) × (c ≢ b'%') × IsText s

pub IsText-append : (s t : List ℕ) → IsText s → IsText t → IsText (s ++ t)
IsText-append [] t p q = q
IsText-append (c ∷ s) t (zero_not, percent_not, p) q =
    (zero_not, percent_not, IsText-append s t p q)

IsText-parts : (s t : List ℕ) → IsText (s ++ t) → IsText s × IsText t
IsText-parts [] t p = (tt, p)
IsText-parts (c ∷ s) t (zero_not, percent_not, p) =
    let (left, right) = IsText-parts s t p in ((zero_not, percent_not, left), right)

-- The end of a read of at most `n` bytes where `rest` is left of the file: the next bytes are in the
-- buffer, at least one if there is one, and the result is their number.
pub record IsRead {S : Type 0} (os : Syscalls S) (At : List ℕ → S → Type 0) (rest : List ℕ)
    (buf n : ℕ) (out : ℤ × S) : Type 0 where
  pub chunk : List ℕ
  pub left : List ℕ
  pub parts : rest ≡ chunk ++ left
  pub count : out.0 ≡ pos (length chunk)
  pub short : length chunk ≤ n
  pub progress : (rest ≡ []) ⊎ (0 < length chunk)
  pub bytes : Holds (os.memory out.1) buf chunk
  pub after : At left out.1

-- What the calls promise of a file that is open as `fd` and of the program's own buffer, where
-- `At rest out w` says that `rest` is left of the file and that `out` has been written to the terminal.
-- Of other pointers, other lengths and other bytes than text nothing is promised.
pub record IsServing {S : Type 0} (os : Syscalls S) (fd : ℤ) (buf : ℕ)
    (At : List ℕ → List ℕ → S → Type 0) : Type 0 where
  pub reads :
      (rest out : List ℕ) (w : S)
      → At rest out w
      → IsRead os (λ left w1. At left out w1) rest buf 1024 (os.ece391_read fd buf 1024 w)
  pub writes :
      (rest out chunk : List ℕ) (w : S)
      → IsText chunk
      → length chunk ≤ 1024
      → At rest out w
      → Holds (os.memory w) buf chunk
      → (is_failure (os.ece391_write (pos 1) buf (pos (length chunk)) w).0 ≡ false)
        × At rest (out ++ chunk) (os.ece391_write (pos 1) buf (pos (length chunk)) w).1

-- A read that gives nothing has nothing left.
all_read :
    (chunk left rest : List ℕ)
    → rest ≡ chunk ++ left
    → (rest ≡ []) ⊎ (0 < length chunk)
    → chunk ≡ []
    → (left ≡ []) × (rest ≡ [])
all_read [] left rest p (inl q) e = (sym p ∙ q, q)
all_read [] left rest p (inr q) e = absurd (omega arith)
all_read (c ∷ s) left rest p q e = absurd (differ e)
  where
    differ : ¬ (c ∷ s ≡ [])
    differ d = cc d

suc_nonzero : (n : ℕ) → (suc n == 0) ≡ false
suc_nonzero n = ground arith

shorter :
    (chunk left rest : List ℕ) (fuel : ℕ) {k : ℕ}
    → rest ≡ chunk ++ left
    → length chunk ≡ suc k
    → length rest < suc fuel
    → length left < fuel
shorter chunk left rest fuel p q h = omega (arith, ap length p ∙ length-append chunk left, q, h)

module _ {S : Type 0} (os : Syscalls S) (fd : ℤ) (buf : ℕ) (At : List ℕ → List ℕ → S → Type 0)
    (serving : IsServing os fd buf At) where
  cat_loop_lem :
      (fuel : ℕ) (rest out : List ℕ) (w : S)
      → length rest < fuel
      → IsText rest
      → At rest out w
      → (w' : S) × (cat_loop os fuel fd buf w ≡ some (0, w')) × At [] (out ++ rest) w'
  unfolding cat_loop
  cat_loop_lem zero rest out w h text at = absurd (omega arith)
  cat_loop_lem (suc fuel) rest out w h text at =
      round r.chunk refl (λ left out1 w1 h1 text1 at1. cat_loop_lem fuel left out1 w1 h1 text1 at1)
    where
      r : IsRead os (λ left w1. At left out w1) rest buf 1024 (os.ece391_read fd buf 1024 w)
      r = serving.reads rest out w at

      parts : IsText r.chunk × IsText r.left
      parts = IsText-parts r.chunk r.left (subst IsText r.parts text)

      w1 : S
      w1 = (os.ece391_read fd buf 1024 w).1

      w2 : S
      w2 = (os.ece391_write (pos 1) buf (os.ece391_read fd buf 1024 w).0 w1).1

      wrote :
          (is_failure (os.ece391_write (pos 1) buf (os.ece391_read fd buf 1024 w).0 w1).0 ≡ false)
          × At r.left (out ++ r.chunk) w2
      wrote =
          subst
            (λ k.
              (is_failure (os.ece391_write (pos 1) buf k w1).0 ≡ false)
              × At r.left (out ++ r.chunk) (os.ece391_write (pos 1) buf k w1).1)
            (sym r.count) (serving.writes r.left out r.chunk w1 parts.0 r.short r.after r.bytes)

      round :
          (chunk : List ℕ)
          → r.chunk ≡ chunk
          → ((left out1 : List ℕ) (w1 : S)
              → length left < fuel
              → IsText left
              → At left out1 w1
              → (w' : S) × (cat_loop os fuel fd buf w1 ≡ some (0, w')) × At [] (out1 ++ left) w')
          → (w' : S) × (cat_loop os (suc fuel) fd buf w ≡ some (0, w')) × At [] (out ++ rest) w'
      round [] e again =
          let empty = all_read r.chunk r.left rest r.parts r.progress e in
          (
            w1,
            rw (ap is_zero r.count ∙ ap (λ (k : List ℕ). length k == 0) e, cat_loop),
            subst (λ l. At l (out ++ rest) w1) empty.0
                (subst (λ o. At r.left o w1) (sym (ap (◌++◌ out) empty.1 ∙ append-nil out))
                  r.after),
          )
      round (c ∷ s) e again =
          let (w', e', at') =
            again r.left (out ++ r.chunk) w2
              (shorter r.chunk r.left rest fuel r.parts (ap length e) h) parts.1 wrote.1 in
          (
            w',
            rw
                (
                  ap is_zero r.count
                      ∙ ap (λ (k : List ℕ). length k == 0) e
                      ∙ suc_nonzero (length s),
                  ap is_failure r.count,
                  wrote.0,
                  cat_loop,
                )
                e',
            subst (λ o. At [] o w') (append_assoc out r.chunk r.left ∙ ap (◌++◌ out) (sym r.parts))
                at',
          )

  -- `cat` ends with status 0 after writing the whole of the file, if its name is given and the file can
  -- be opened, and the file is text without `%` and zeros, on a system where a read of 1024 bytes to
  -- `cat`'s buffer gives the next bytes of the file, at least one while there are any, and a write of
  -- text from this buffer appends. The loop takes a round for each byte of the file at most, and one
  -- more.
  pub cat_main_lem :
      (fuel : ℕ) (content out : List ℕ) (w : S)
      → length content < fuel
      → IsText content
      → is_zero (os.ece391_getargs buf 1024 w).0 ≡ true
      → (os.ece391_open buf (os.ece391_getargs buf 1024 w).1).0 ≡ fd
      → is_failure fd ≡ false
      → At content out (os.ece391_open buf (os.ece391_getargs buf 1024 w).1).1
      → (w' : S) × (cat_main os fuel buf w ≡ some (0, w')) × At [] (out ++ content) w'
  unfolding cat_main
  cat_main_lem fuel content out w h text named opened valid at =
      let (w', e, at') =
        cat_loop_lem fuel content out (os.ece391_open buf (os.ece391_getargs buf 1024 w).1).1 h text
          at in
      (w', rw (named, opened, valid) e, at')
