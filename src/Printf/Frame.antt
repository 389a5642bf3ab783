-- ===== src/Printf/Frame.antt =====
-- student-distrib/lib.c: what `printf` and `multi_printf` leave alone: whatever holds of the machine and
-- is kept by each character still holds behind them.
use linux_like_os_kernel.Prelude.{
  ℕ, Bool, true, false, ◌==◌, if◌then◌else◌, Option, none, some, List, [], ◌∷◌, length, refl,
}
use linux_like_os_kernel.Machine.{Machine}
use linux_like_os_kernel.Console.{putc, put_all}
use linux_like_os_kernel.Console.Frame.{IsPrinting, IsPrinting-trans, putc-IsPrinting}
use linux_like_os_kernel.Printf.{
  Arg, word, text, Mode, plain, spec, Rest, conversion, print_char, print_all, print_with, printf,
  numeral, padded_numeral, signed_numeral, with_word, with_text,
}

module _ (put : ℕ → Machine → Machine) (P : Machine → Type 0)
    (keep : (c : ℕ) (m : Machine) → P m → P (put c m)) where
  pub put_all-keeps : (s : List ℕ) (m : Machine) → P m → P (put_all put s m)
  unfolding put_all
  put_all-keeps [] m p = p
  put_all-keeps (c ∷ s) m p = put_all-keeps s (put c m) (keep c m p)

  -- The property holds of what is left to print, if there is something.
  abbrev Holds : Option Rest → Type 0
  Holds none = Unit {0}
  Holds (some (mode, args, m)) = P m

  Holds-if : (b : Bool) (r r' : Option Rest) → Holds r → Holds r' → Holds (if b then r else r')
  Holds-if true r r' p q = p
  Holds-if false r r' p q = q

  with_word-Holds :
      (f : ℕ → Machine → Machine) (args : List Arg) (m : Machine)
      → ((w : ℕ) → P (f w m))
      → Holds (with_word put f args m)
  with_word-Holds f [] m h = tt
  with_word-Holds f (word w ∷ args) m h = h w
  with_word-Holds f (text s ∷ args) m h = tt

  with_text-Holds :
      (args : List Arg) (m : Machine) → P m → Holds (with_text put (put_all put) args m)
  with_text-Holds [] m p = tt
  with_text-Holds (word w ∷ args) m p = tt
  with_text-Holds (text s ∷ args) m p = put_all-keeps s m p

  conversion-Holds :
      (alternate : Bool) (c : ℕ) (args : List Arg) (m : Machine)
      → P m
      → Holds (conversion put alternate c args m)
  unfolding conversion
  conversion-Holds alternate c args m p = Holds-if (c == b'%') _ _ (keep b'%' m p) (
      Holds-if (c == b'#') _ _ p (
        Holds-if (c == b'x') _ _
          (with_word-Holds _ args m
            (λ w. put_all-keeps (if alternate then padded_numeral w else numeral w 16) m p))
          (Holds-if (c == b'u') _ _
            (with_word-Holds _ args m (λ w. put_all-keeps (numeral w 10) m p))
            (Holds-if (c == b'd') _ _
              (with_word-Holds _ args m (λ w. put_all-keeps (signed_numeral w) m p))
              (Holds-if (c == b'c') _ _ (with_word-Holds _ args m (λ w. keep _ m p))
                (Holds-if (c == b's') _ _ (with_text-Holds args m p) p))))))

  print_char-Holds :
      (mode : Mode) (c : ℕ) (args : List Arg) (m : Machine)
      → P m
      → Holds (print_char put mode c args m)
  unfolding print_char
  print_char-Holds plain c args m p = Holds-if (c == b'%') _ _ p (keep c m p)
  print_char-Holds (spec alternate) c args m p = conversion-Holds alternate c args m p

  -- The property holds of the machine that is left, if there is one.
  abbrev Left : Option Machine → Type 0
  Left none = Unit {0}
  Left (some m) = P m

  print_all-keeps :
      (format : List ℕ) (mode : Mode) (args : List Arg) (m : Machine)
      → P m
      → Left (print_all put mode format args m)
  unfolding print_all
  print_all-keeps [] plain args m p = p
  print_all-keeps [] (spec alternate) args m p = tt
  print_all-keeps (c ∷ format) mode args m p =
      step (print_char put mode c args m) (print_char-Holds mode c args m p)
        (λ mode' args' m'. print_all-keeps format mode' args' m')
    where
      step :
          (r : Option Rest)
          → Holds r
          → ((mode' : Mode) (args' : List Arg) (m' : Machine)
              → P m'
              → Left (print_all put mode' format args' m'))
          → Left (elim r as (λ o. Option Machine) [
            | none ↦ none
            | some (mode', args', m') ↦ print_all put mode' format args' m'
          ])
      step none h rest = tt
      step (some (mode', args', m')) h rest = rest mode' args' m' h

  -- The property holds of the machine behind a call that succeeds.
  abbrev pub Printed : Option (ℕ × Machine) → Type 0
  Printed none = Unit {0}
  Printed (some (n, m)) = P m

  pub print_with-keeps :
      (format : List ℕ) (args : List Arg) (m : Machine)
      → P m
      → Printed (print_with put format args m)
  unfolding print_with
  print_with-keeps format args m p =
      out (print_all put plain format args m) (print_all-keeps format plain args m p)
    where
      out :
          (r : Option Machine)
          → Left r
          → Printed (elim r as (λ o. Option (ℕ × Machine)) [
            | none ↦ none
            | some m' ↦ some (length format, m')
          ])
      out none h = tt
      out (some m') h = h

-- The machine after a `printf`, or the one before it where that faults.
abbrev pub after_printf : Machine → Option (ℕ × Machine) → Machine
after_printf m none = m
after_printf m (some (n, m')) = m'

pub printf-IsPrinting :
    (format : List ℕ) (args : List Arg) (m : Machine)
    → IsPrinting m (after_printf m (printf format args m))
unfolding printf
printf-IsPrinting format args m =
    after (print_with putc format args m)
      (print_with-keeps putc (IsPrinting m) keep format args m refl)
  where
    keep : (c : ℕ) (x : Machine) → IsPrinting m x → IsPrinting m (putc c x)
    keep c x p = IsPrinting-trans m x (putc c x) p (putc-IsPrinting c x)

    after :
        (r : Option (ℕ × Machine))
        → Printed putc (IsPrinting m) keep r
        → IsPrinting m (after_printf m r)
    after none h = refl
    after (some (n, m')) h = h
