-- ===== src/Programs/System.antt =====
-- syscalls/: a system with one file, whose calls keep the promises that programs rely on.
use linux_like_os_kernel.Prelude.{
  ℕ, zero, suc, ◌+◌, ◌<◌, ◌≤◌, ℤ, pos, negsuc, failure, update, List, [], ◌∷◌, ◌++◌, length, ascii,
  ◌≡◌, ◌⊎◌, ◌==◌, if◌then◌else◌, inl, inr, refl, arith, ◌∙◌, ap, sym, subst, ==_refl, ne→==,
}
use linux_like_os_kernel.Machine.{Memory}
use linux_like_os_kernel.Programs.{Syscalls}
use linux_like_os_kernel.Programs.Cat.{Holds, IsServing}

-- The program's memory, what is left of the file and what has been written.
pub record World : Type 0 where
  pub mem : Memory
  pub rest : List ℕ
  pub out : List ℕ

unfoldable pub first : ℕ → List ℕ → List ℕ
first zero s = []
first (suc n) [] = []
first (suc n) (c ∷ s) = c ∷ first n s

unfoldable pub others : ℕ → List ℕ → List ℕ
others zero s = s
others (suc n) [] = []
others (suc n) (c ∷ s) = others n s

abbrev pub put : ℕ → List ℕ → Memory → Memory
put a [] m = m
put a (c ∷ s) m = update (put (a + 1) s m) a c

abbrev pub bytes_at : Memory → ℕ → ℕ → List ℕ
bytes_at m a zero = []
bytes_at m a (suc n) = m a ∷ bytes_at m (a + 1) n

abbrev pub written : ℕ → ℤ → World → List ℕ
written buf (pos n) w = w.out ++ bytes_at w.mem buf n
written buf (negsuc n) w = w.out

abbrev pub one_file : Syscalls World
one_file = record {
  memory = λ w. w.mem;
  store = λ f w. record w { mem = f w.mem };
  literal = λ s. 0;
  ece391_open = λ name w. (pos 2, w);
  ece391_read = λ fd buf n w. if buf == 0 then (failure, w) else (
    pos (length (first n w.rest)),
    record w { mem = put buf (first n w.rest) w.mem; rest = others n w.rest },
  );
  ece391_write =
      λ fd buf n w. if buf == 0 then (failure, w) else (n, record w { out = written buf n w });
  ece391_getargs = λ buf n w. (pos 0, record w { mem = put buf (ascii "a.txt") w.mem });
  ece391_execute = λ command w. (failure, w);
  ece391_close = λ fd w. (failure, w);
  ece391_vidmap = λ screen_start w. (failure, w);
  int_0x80 = λ number w. (failure, w);
}

abbrev pub At : List ℕ → List ℕ → World → Type 0
At rest out w = (w.rest ≡ rest) × (w.out ≡ out)

first_others : (n : ℕ) (s : List ℕ) → s ≡ first n s ++ others n s
unfolding first others
first_others zero s = refl
first_others (suc n) [] = refl
first_others (suc n) (c ∷ s) = ap (◌∷◌ c) (first_others n s)

first_short : (n : ℕ) (s : List ℕ) → length (first n s) ≤ n
unfolding first
first_short zero s = omega arith
first_short (suc n) [] = omega arith
first_short (suc n) (c ∷ s) = omega (arith, first_short n s)

first_progress : (n : ℕ) (s : List ℕ) → 0 < n → (s ≡ []) ⊎ (0 < length (first n s))
unfolding first
first_progress zero s h = absurd (omega arith)
first_progress (suc n) [] h = inl refl
first_progress (suc n) (c ∷ s) h = inr (omega arith)

Holds-update :
    (s : List ℕ) (a b c : ℕ) (m : Memory) → a < b → Holds m b s → Holds (update m a c) b s
Holds-update [] a b c m h k = tt
Holds-update (d ∷ s) a b c m h (e, k) =
    (rw (ne→== b a (omega (arith, h))) e, Holds-update s a (b + 1) c m (omega (arith, h)) k)

pub Holds-put : (a : ℕ) (s : List ℕ) (m : Memory) → Holds (put a s m) a s
Holds-put a [] m = tt
Holds-put a (c ∷ s) m = (
  rw (==_refl a),
  Holds-update s a (a + 1) c (put (a + 1) s m) (omega arith) (Holds-put (a + 1) s m),
)

pub bytes_at-Holds : (s : List ℕ) (a : ℕ) (m : Memory) → Holds m a s → bytes_at m a (length s) ≡ s
bytes_at-Holds [] a m h = refl
bytes_at-Holds (c ∷ s) a m (e, h) = rw (e, bytes_at-Holds s (a + 1) m h)

-- The promises are kept.
pub one_file-IsServing : IsServing one_file (pos 2) 5000 At
one_file-IsServing = record {
  reads = λ rest out w at. record {
    chunk = first 1024 w.rest;
    left = others 1024 w.rest;
    parts = sym at.0 ∙ first_others 1024 w.rest;
    count = refl;
    short = first_short 1024 w.rest;
    progress =
        subst (λ s. (s ≡ []) ⊎ (0 < length (first 1024 w.rest))) at.0
          (first_progress 1024 w.rest (omega arith));
    bytes = Holds-put 5000 (first 1024 w.rest) w.mem;
    after = (refl, at.1);
  };
  writes = λ rest out chunk w text short at h. (
    refl,
    (
      at.0,
      ap (λ o. o ++ bytes_at w.mem 5000 (length chunk)) at.1
          ∙ ap (◌++◌ out) (bytes_at-Holds chunk 5000 w.mem h),
    ),
  );
}
