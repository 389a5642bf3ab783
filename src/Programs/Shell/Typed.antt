-- ===== src/Programs/Shell/Typed.antt =====
-- syscalls/ece391shell.c: a system on which some lines are typed, whose calls keep the promises that the
-- shell relies on.
use linux_like_os_kernel.Prelude.{
  ℕ, zero, suc, ◌+◌, ◌<◌, pos, failure, update, List, [], ◌∷◌, ◌++◌, length, length-append, ascii,
  ◌≡◌, refl, arith, ◌∙◌, ap, sym, ne→==, subst,
}
use linux_like_os_kernel.Machine.{Memory}
use linux_like_os_kernel.Terminal.{bytes_until}
use linux_like_os_kernel.Programs.{Syscalls, ece391_fdputs}
use linux_like_os_kernel.Programs.Cat.{Holds}
use linux_like_os_kernel.Programs.System.{put, Holds-put}
use linux_like_os_kernel.Programs.Shell.Lines.{HoldsLine}
use linux_like_os_kernel.Programs.Shell.Session.{IsSession}

-- The program's memory, the lines to come and the commands that have been executed.
pub record Typed : Type 0 where
  pub mem : Memory
  pub lines : List (List ℕ)
  pub ran : List (List ℕ)

abbrev next_line : List (List ℕ) → List ℕ
next_line [] = []
next_line (line ∷ lines) = line ++ (b'\n' ∷ [])

abbrev other_lines : List (List ℕ) → List (List ℕ)
other_lines [] = []
other_lines (line ∷ lines) = lines

-- The constants lie at 100, below the buffer, which is at 5000.
abbrev pub typed : Syscalls Typed
typed = record {
  memory = λ w. w.mem;
  store = λ f w. record w { mem = f w.mem };
  literal = λ s. 100;
  ece391_open = λ name w. (failure, w);
  ece391_read = λ fd buf n w. (
    pos (length (next_line w.lines)),
    record w { mem = put buf (next_line w.lines) w.mem; lines = other_lines w.lines },
  );
  ece391_write = λ fd buf n w. (n, w);
  ece391_getargs = λ buf n w. (failure, w);
  ece391_execute =
      λ command w. (pos 0, record w { ran = w.ran ++ (bytes_until w.mem command 1022 ∷ []) });
  ece391_close = λ fd w. (failure, w);
  ece391_vidmap = λ screen_start w. (failure, w);
  int_0x80 = λ number w. (failure, w);
}

abbrev pub At : List (List ℕ) → List (List ℕ) → Typed → Type 0
At lines ran w = (w.lines ≡ lines) × (w.ran ≡ ran) × HoldsLine w.mem 100 (ascii "exit")

-- Memory below an address.
HoldsLine-below :
    (s : List ℕ) (m m' : Memory) (a bound : ℕ)
    → ((b : ℕ) → b < bound → m' b ≡ m b)
    → a + length s < bound
    → HoldsLine m a s
    → HoldsLine m' a s
HoldsLine-below [] m m' a bound same h k = same a (omega (arith, h)) ∙ k
HoldsLine-below (c ∷ s) m m' a bound same h (e, ne, k) = (
  same a (omega (arith, h)) ∙ e,
  ne,
  HoldsLine-below s m m' (a + 1) bound same (omega (arith, h)) k,
)

put_below : (s : List ℕ) (a b : ℕ) (m : Memory) → b < a → put a s m b ≡ m b
put_below [] a b m h = refl
put_below (c ∷ s) a b m h =
    rw (ne→== b a (omega (arith, h))) (put_below s (a + 1) b m (omega (arith, h)))

bytes_until-HoldsLine :
    (s : List ℕ) (n : ℕ) (m : Memory) (a : ℕ)
    → length s < n
    → HoldsLine m a s
    → bytes_until m a n ≡ s
unfolding bytes_until
bytes_until-HoldsLine s zero m a h k = absurd (omega arith)
bytes_until-HoldsLine [] (suc n) m a h k = rw (k, bytes_until) refl
bytes_until-HoldsLine (c ∷ s) (suc n) m a h (e, ne, k) =
    rw (e, ne→== c 0 ne, bytes_until)
      (ap (λ x. x ∷ bytes_until m (a + 1) n) e
        ∙ ap (◌∷◌ c) (bytes_until-HoldsLine s n m (a + 1) (omega (arith, h)) k))

-- The promises are kept.
pub typed-IsSession : IsSession typed 5000 At
unfolding ece391_fdputs
typed-IsSession = record {
  prints = λ lines ran message w at. at;
  reads = λ line lines ran w at. (
    ap (λ l. pos (length (next_line l))) at.0 ∙ ap pos (length-append line (b'\n' ∷ [])),
    subst (λ s. Holds (put 5000 s w.mem) 5000 (line ++ (b'\n' ∷ []))) (sym (ap next_line at.0))
        (Holds-put 5000 (line ++ (b'\n' ∷ [])) w.mem),
    (
      ap other_lines at.0,
      at.1,
      HoldsLine-below (ascii "exit") w.mem _ 100 5000
          (λ b h. put_below (next_line w.lines) 5000 b w.mem h) (omega arith) at.2,
    ),
  );
  stores = λ f w. refl;
  keeps = λ lines ran k c w h at. (
    at.0,
    at.1,
    HoldsLine-below (ascii "exit") w.mem (update w.mem (5000 + k) c) 100 5000
        (λ b lt. rw (ne→== b (5000 + k) (omega (arith, lt))) refl) (omega arith) at.2,
  );
  literals = λ lines ran w at. at.2;
  executes = λ lines ran command w short at held. (
    at.0,
    ap (λ r. r ++ (bytes_until w.mem 5000 1022 ∷ [])) at.1
        ∙ ap (λ c. ran ++ (c ∷ []))
            (bytes_until-HoldsLine command 1022 w.mem 5000 (omega (arith, short)) held),
    at.2,
  );
}
