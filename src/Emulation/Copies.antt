-- ===== src/Emulation/Copies.antt =====
-- syscalls/ece391support.c: the length and the copy of a string that lies above the copy.
use linux_like_os_kernel.Prelude.{
  ℕ, zero, suc, ◌+◌, ◌<◌, ◌≤◌, ◌==◌, false, update, List, [], ◌∷◌, length, ◌≡◌, ◌≢◌, refl, arith,
  ◌∙◌, sym, subst, ne→==, ==_refl,
}
use linux_like_os_kernel.Machine.{Memory}
use linux_like_os_kernel.Programs.{strlen_loop, strcpy_loop}
use linux_like_os_kernel.Programs.Shell.Lines.{HoldsLine}

pub strlen_loop-HoldsLine :
    (s : List ℕ) (fuel : ℕ) (m : Memory) (a len : ℕ)
    → length s < fuel
    → HoldsLine m a s
    → strlen_loop fuel m a len ≡ len + length s
unfolding strlen_loop
strlen_loop-HoldsLine s zero m a len lt h = absurd (omega arith)
strlen_loop-HoldsLine [] (suc fuel) m a len lt h = rw (h, strlen_loop) (omega arith)
strlen_loop-HoldsLine (c ∷ s) (suc fuel) m a len lt (e, ne, h) =
    rw (e, ne→== c 0 ne, strlen_loop)
      (strlen_loop-HoldsLine s fuel m (a + 1) (len + 1) (omega (arith, lt)) h ∙ omega arith)

-- The string has been copied, and nothing else has changed.
pub record IsCopied (m : Memory) (dst : ℕ) (s : List ℕ) (m' : Memory) : Type 0 where
  pub low : (b : ℕ) → b < dst → m' b ≡ m b
  pub high : (b : ℕ) → dst + length s < b → m' b ≡ m b
  pub copy : HoldsLine m' dst s

-- The string is the same where memory is.
pub HoldsLine-above :
    (s : List ℕ) (m m' : Memory) (a : ℕ)
    → ((b : ℕ) → a ≤ b → m' b ≡ m b)
    → HoldsLine m a s
    → HoldsLine m' a s
HoldsLine-above [] m m' a same h = same a (omega arith) ∙ h
HoldsLine-above (c ∷ s) m m' a same (e, ne, h) = (
  same a (omega arith) ∙ e,
  ne,
  HoldsLine-above s m m' (a + 1) (λ b le. same b (omega (arith, le))) h,
)

IsCopied-next :
    (m : Memory) (dst v c : ℕ) (s : List ℕ) (m' : Memory)
    → v ≡ c
    → c ≢ 0
    → IsCopied (update m dst v) (dst + 1) s m'
    → IsCopied m dst (c ∷ s) m'
IsCopied-next m dst v c s m' e ne rest = record {
  low = λ b k. rest.low b (omega (arith, k)) ∙ rw (ne→== b dst (omega (arith, k))) refl;
  high = λ b k. rest.high b (omega (arith, k)) ∙ rw (ne→== b dst (omega (arith, k))) refl;
  copy = (rest.low dst (omega arith) ∙ rw (==_refl dst) e, ne, rest.copy);
}

pub strcpy_loop-IsCopied :
    (s : List ℕ) (fuel : ℕ) (m : Memory) (dst src : ℕ)
    → length s < fuel
    → dst < src
    → HoldsLine m src s
    → IsCopied m dst s (strcpy_loop fuel dst src m)
unfolding strcpy_loop
strcpy_loop-IsCopied s zero m dst src lt below h = absurd (omega arith)
strcpy_loop-IsCopied [] (suc fuel) m dst src lt below h =
    rw (h, strcpy_loop)
      (record {
        low = λ b k. rw (ne→== b dst (omega (arith, k))) refl;
        high = λ b k. rw (ne→== b dst (omega (arith, k))) refl;
        copy = rw (==_refl dst) h;
      })
strcpy_loop-IsCopied (c ∷ s) (suc fuel) m dst src lt below (e, ne, h) =
    subst (IsCopied m dst (c ∷ s)) (sym (rw (more, strcpy_loop) refl)) (
      IsCopied-next m dst (m src) c s _ e ne (
        strcpy_loop-IsCopied s fuel (update m dst (m src)) (dst + 1) (src + 1) (omega (arith, lt))
          (omega (arith, below))
          (HoldsLine-above s m (update m dst (m src)) (src + 1)
            (λ b le. rw (ne→== b dst (omega (arith, le, below))) refl) h)))
  where
    more : (m src == 0) ≡ false
    more = rw e (ne→== c 0 ne)
