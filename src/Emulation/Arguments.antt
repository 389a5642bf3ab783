-- ===== src/Emulation/Arguments.antt =====
-- syscalls/ece391emulate.c: `getargs` joins the arguments of a program with spaces.
use linux_like_os_kernel.Prelude.{
  ℕ, ◌+◌, ◌-◌, ◌^◌, ◌<◌, ◌≤◌, ltb, false, ℤ, pos, failure, update, List, [], ◌∷◌, ◌++◌, length,
  length-append, ◌≡◌, inl, inr, refl, arith, ◌∙◌, sym, subst, Bool-cases, ne→==, ==_refl,
}
use linux_like_os_kernel.Machine.{Memory}
use linux_like_os_kernel.CString.{address_space}
use linux_like_os_kernel.Programs.{ece391_strlen, ece391_strcpy}
use linux_like_os_kernel.Programs.Shell.Lines.{HoldsLine}
use linux_like_os_kernel.Emulation.{finish, copy_arg, getargs_rest, emulate_getargs}
use linux_like_os_kernel.Emulation.Copies.{
  strlen_loop-HoldsLine, IsCopied, HoldsLine-above, strcpy_loop-IsCopied,
}

-- The arguments lie above an address.
abbrev pub AreHeld : Memory → ℕ → List (ℕ × List ℕ) → Type 0
AreHeld m bound [] = Unit {0}
AreHeld m bound ((a, s) ∷ args) =
    (bound < a) × (length s < 2 ^ 32) × HoldsLine m a s × AreHeld m bound args

abbrev pub addresses : List (ℕ × List ℕ) → List ℕ
addresses [] = []
addresses ((a, s) ∷ args) = a ∷ addresses args

-- The arguments, each behind a space, and with a space between two.
abbrev pub spaced : List (ℕ × List ℕ) → List ℕ
spaced [] = []
spaced ((a, s) ∷ args) = b' ' ∷ (s ++ spaced args)

abbrev pub joined : List (ℕ × List ℕ) → List ℕ
joined [] = []
joined ((a, s) ∷ args) = s ++ spaced args

-- The text is at `buf` if it fits with its terminator, and the call fails if not; memory below `buf` is
-- as it was.
pub record IsJoined (m : Memory) (buf nbytes : ℕ) (text : List ℕ) (r : ℤ × Memory) : Type 0 where
  pub low : (b : ℕ) → b < buf → r.1 b ≡ m b
  pub fits : length text < nbytes → (r.0 ≡ pos 0) × HoldsLine r.1 buf text
  pub overflows : nbytes ≤ length text → r.0 ≡ failure

AreHeld-above :
    (args : List (ℕ × List ℕ)) (m m' : Memory) (bound bound' : ℕ)
    → bound' ≤ bound
    → ((b : ℕ) → bound < b → m' b ≡ m b)
    → AreHeld m bound args
    → AreHeld m' bound' args
AreHeld-above [] m m' bound bound' le same h = tt
AreHeld-above ((a, s) ∷ args) m m' bound bound' le same (above, short, held, h) = (
  omega (arith, le, above),
  short,
  HoldsLine-above s m m' a (λ b k. same b (omega (arith, k, above))) held,
  AreHeld-above args m m' bound bound' le same h,
)

HoldsLine-append :
    (s t : List ℕ) (m m' : Memory) (a : ℕ)
    → ((b : ℕ) → b < a + length s → m' b ≡ m b)
    → HoldsLine m a s
    → HoldsLine m' (a + length s) t
    → HoldsLine m' a (s ++ t)
HoldsLine-append [] t m m' a same h k = subst (λ x. HoldsLine m' x t) (omega arith) k
HoldsLine-append (c ∷ s) t m m' a same (e, ne, h) k = (
  same a (omega arith) ∙ e,
  ne,
  HoldsLine-append s t m m' (a + 1) (λ b lt. same b (omega (arith, lt))) h
      (subst (λ x. HoldsLine m' x t) (omega arith) k),
)

finish-IsJoined : (buf nbytes : ℕ) (m : Memory) → IsJoined m buf nbytes [] (finish buf nbytes m)
unfolding finish
finish-IsJoined buf nbytes m = elim (Bool-cases (ltb nbytes 1)) [
  | inl full ↦ rw full (record {
    low = λ b h. refl;
    fits = λ h. absurd (ground (arith, full, h));
    overflows = λ h. refl;
  })
  | inr free ↦ rw free (record {
    low = λ b h. rw (ne→== b buf (omega (arith, h))) refl;
    fits = λ h. (refl, rw (==_refl buf) refl);
    overflows = λ h. absurd (ground (arith, free, h));
  })
]

copy_arg-IsJoined :
    (next : ℕ → ℕ → Memory → ℤ × Memory) (a : ℕ) (s text : List ℕ) (buf nbytes : ℕ) (m : Memory)
    → buf + nbytes < a
    → length s < 2 ^ 32
    → HoldsLine m a s
    → ((m1 : Memory)
        → length s ≤ nbytes
        → ((b : ℕ) → buf + nbytes < b → m1 b ≡ m b)
        → IsJoined m1
            (buf + length s)
            (nbytes - length s)
            text
            (next (buf + length s) (nbytes - length s) m1))
    → IsJoined m buf nbytes (s ++ text) (copy_arg next a buf nbytes m)
copy_arg-IsJoined next a s text buf nbytes m above short held rest =
    elim (Bool-cases (ltb nbytes (length s))) [
      | inl long ↦
          rw (measured, long, copy_arg)
            (record {
              low = λ b h. refl;
              fits = λ h. absurd (ground (arith, long, h, length-append s text));
              overflows = λ h. refl;
            })
      | inr fine ↦
          rw (measured, fine, copy_arg)
            (subst (λ n. IsJoined m buf nbytes (s ++ text) (next (buf + n) (nbytes - n) m1))
              (sym measured) (after (ground (arith, fine))))
    ]
  where
    measured : ece391_strlen m a ≡ length s
    measured =
        unfold ece391_strlen in strlen_loop-HoldsLine s address_space m a 0 short held ∙ omega arith

    m1 : Memory
    m1 = ece391_strcpy buf a m

    copied : IsCopied m buf s m1
    copied =
        unfold ece391_strcpy in
        strcpy_loop-IsCopied s address_space m buf a short (omega (arith, above)) held

    after :
        length s ≤ nbytes
        → IsJoined m buf nbytes (s ++ text) (next (buf + length s) (nbytes - length s) m1)
    after le =
        let r = rest m1 le (λ b h. copied.high b (omega (arith, h, le))) in
        record {
          low = λ b h. r.low b (omega (arith, h)) ∙ copied.low b h;
          fits = λ h.
              (let (ok, held') = r.fits (omega (arith, h, length-append s text)) in
                (ok, HoldsLine-append s text m1 _ buf (λ b k. r.low b k) copied.copy held'));
          overflows = λ h. r.overflows (omega (arith, h, le, length-append s text));
        }

IsJoined-space :
    (m : Memory) (buf nbytes : ℕ) (text : List ℕ) (r : ℤ × Memory)
    → 0 < nbytes
    → IsJoined (update m buf b' ') (buf + 1) (nbytes - 1) text r
    → IsJoined m buf nbytes (b' ' ∷ text) r
IsJoined-space m buf nbytes text r h j = record {
  low = λ b k. j.low b (omega (arith, k)) ∙ rw (ne→== b buf (omega (arith, k))) refl;
  fits = λ k.
      (let (ok, held) = j.fits (omega (arith, k)) in
        (ok, (j.low buf (omega arith) ∙ rw (==_refl buf) refl, omega arith, held)));
  overflows = λ k. j.overflows (omega (arith, k, h));
}

getargs_rest-IsJoined :
    (args : List (ℕ × List ℕ)) (buf nbytes : ℕ) (m : Memory)
    → AreHeld m (buf + nbytes) args
    → IsJoined m buf nbytes (spaced args) (getargs_rest (addresses args) buf nbytes m)
unfolding getargs_rest
getargs_rest-IsJoined [] buf nbytes m h = finish-IsJoined buf nbytes m
getargs_rest-IsJoined ((a, s) ∷ args) buf nbytes m (above, short, held, h) =
    elim (Bool-cases (ltb nbytes 1)) [
      | inl full ↦
          rw (full, getargs_rest)
            (record {
              low = λ b k. refl;
              fits = λ k. absurd (ground (arith, full, k));
              overflows = λ k. refl;
            })
      | inr free ↦
          rw (free, getargs_rest)
            (IsJoined-space m buf nbytes _ _ (some_left nbytes free) (
              copy_arg-IsJoined (getargs_rest (addresses args)) a s (spaced args) (buf + 1)
                (nbytes - 1) spaced_out (omega (arith, above, some_left nbytes free)) short
                (HoldsLine-above s m spaced_out a (λ b k. same b (omega (arith, k, above))) held)
                (λ m1 le high.
                  getargs_rest-IsJoined args (buf + 1 + length s) (nbytes - 1 - length s) m1 (
                    AreHeld-above args m m1 (buf + nbytes)
                      (buf + 1 + length s + (nbytes - 1 - length s))
                      (omega (arith, le, some_left nbytes free))
                      (λ b k.
                        high b (omega (arith, k, some_left nbytes free))
                        ∙ same b (omega (arith, k)))
                      h))))
    ]
  where
    spaced_out : Memory
    spaced_out = update m buf b' '

    same : (b : ℕ) → buf < b → spaced_out b ≡ m b
    same b k = rw (ne→== b buf (omega (arith, k))) refl

    some_left : (n : ℕ) → ltb n 1 ≡ false → 0 < n
    some_left n k = ground arith

-- `getargs` of the emulation gives a program its arguments, joined with single spaces and terminated, if
-- they fit into the buffer with the terminator, and fails if they do not; memory below the buffer
-- is as it was. The arguments must lie above the buffer.
pub emulate_getargs_lem :
    (args : List (ℕ × List ℕ)) (buf nbytes : ℕ) (m : Memory)
    → AreHeld m (buf + nbytes) args
    → IsJoined m buf nbytes (joined args) (emulate_getargs (addresses args) buf nbytes m)
unfolding emulate_getargs
emulate_getargs_lem [] buf nbytes m h = finish-IsJoined buf nbytes m
emulate_getargs_lem ((a, s) ∷ args) buf nbytes m (above, short, held, h) =
    copy_arg-IsJoined (getargs_rest (addresses args)) a s (spaced args) buf nbytes m above short
      held
      (λ m1 le high. getargs_rest-IsJoined args (buf + length s) (nbytes - length s) m1 (
        AreHeld-above args m m1 (buf + nbytes) (buf + length s + (nbytes - length s))
          (omega (arith, le)) high h))
