-- ===== src/Printf/Fitting.antt =====
-- student-distrib/lib.c: the formats and arguments with which `printf` and `multi_printf` return.
use linux_like_os_kernel.Prelude.{
  ℕ, Bool, true, false, ◌==◌, if◌then◌else◌, Option, none, some, List, [], ◌∷◌, length, ◌≡◌, refl,
  subst, arith, sym,
}
use linux_like_os_kernel.Machine.{Machine}
use linux_like_os_kernel.Printf.{
  Arg, word, text, Mode, plain, spec, Rest, conversion, print_char, print_all, print_with,
  with_word, with_text,
}

-- The mode and the arguments behind a character: `x`, `u`, `d` and `c` take a word and `s` a string, and a
-- `#` goes on with the conversion. An argument that is missing or of the other kind is none.
abbrev takes_word : List Arg → Option (Mode × List Arg)
takes_word [] = none
takes_word (word w ∷ args) = some (plain, args)
takes_word (text s ∷ args) = none

abbrev takes_text : List Arg → Option (Mode × List Arg)
takes_text [] = none
takes_text (word w ∷ args) = none
takes_text (text s ∷ args) = some (plain, args)

abbrev takes : ℕ → List Arg → Option (Mode × List Arg)
takes c args =
    if c == b'%'
    then some (plain, args)
    else if c == b'#'
    then some (spec true, args)
    else if c == b'x'
    then takes_word args
    else if c == b'u'
    then takes_word args
    else if c == b'd'
    then takes_word args
    else if c == b'c'
    then takes_word args
    else if c == b's'
    then takes_text args
    else some (plain, args)

abbrev behind : Mode → ℕ → List Arg → Option (Mode × List Arg)
behind plain c args = if c == b'%' then some (spec false, args) else some (plain, args)
behind (spec alternate) c args = takes c args

-- Whether every conversion of a format has an argument of its kind, and the format does not end within one.
unfoldable pub fits : Mode → List ℕ → List Arg → Bool
fits plain [] args = true
fits (spec alternate) [] args = false
fits mode (c ∷ format) args = elim (behind mode c args) [
  | none ↦ false
  | some (mode', args') ↦ fits mode' format args'
]

module _ (put : ℕ → Machine → Machine) where
  -- What is left to print has the mode and the arguments.
  abbrev Follows : Option (Mode × List Arg) → Option Rest → Type 0
  Follows none r = Unit {0}
  Follows (some (mode, args)) none = ⊥
  Follows (some (mode, args)) (some (mode', args', m)) = (mode' ≡ mode) × (args' ≡ args)

  Follows-if :
      (b : Bool) (t t' : Option (Mode × List Arg)) (r r' : Option Rest)
      → Follows t r
      → Follows t' r'
      → Follows (if b then t else t') (if b then r else r')
  Follows-if true t t' r r' p q = p
  Follows-if false t t' r r' p q = q

  with_word-Follows :
      (f : ℕ → Machine → Machine) (args : List Arg) (m : Machine)
      → Follows (takes_word args) (with_word put f args m)
  with_word-Follows f [] m = tt
  with_word-Follows f (word w ∷ args) m = (refl, refl)
  with_word-Follows f (text s ∷ args) m = tt

  with_text-Follows :
      (f : List ℕ → Machine → Machine) (args : List Arg) (m : Machine)
      → Follows (takes_text args) (with_text put f args m)
  with_text-Follows f [] m = tt
  with_text-Follows f (word w ∷ args) m = tt
  with_text-Follows f (text s ∷ args) m = (refl, refl)

  conversion-Follows :
      (alternate : Bool) (c : ℕ) (args : List Arg) (m : Machine)
      → Follows (takes c args) (conversion put alternate c args m)
  unfolding conversion
  conversion-Follows alternate c args m =
      Follows-if (c == b'%') _ _ _ _ (refl, refl)
        (Follows-if (c == b'#') _ _ _ _ (refl, refl)
          (Follows-if (c == b'x') _ _ _ _ (with_word-Follows _ args m) (
            Follows-if (c == b'u') _ _ _ _ (with_word-Follows _ args m) (
              Follows-if (c == b'd') _ _ _ _ (with_word-Follows _ args m) (
                Follows-if (c == b'c') _ _ _ _ (with_word-Follows _ args m)
                  (Follows-if (c == b's') _ _ _ _ (with_text-Follows _ args m) (refl, refl)))))))

  print_char-Follows :
      (mode : Mode) (c : ℕ) (args : List Arg) (m : Machine)
      → Follows (behind mode c args) (print_char put mode c args m)
  unfolding print_char
  print_char-Follows plain c args m = Follows-if (c == b'%') _ _ _ _ (refl, refl) (refl, refl)
  print_char-Follows (spec alternate) c args m = conversion-Follows alternate c args m

  print_all-returns :
      (format : List ℕ) (mode : Mode) (args : List Arg) (m : Machine)
      → fits mode format args ≡ true
      → (m' : Machine) × (print_all put mode format args m ≡ some m')
  unfolding fits print_all
  print_all-returns [] plain args m fit = (m, refl)
  print_all-returns [] (spec alternate) args m fit = absurd (ground (arith, fit))
  print_all-returns (c ∷ format) mode args m fit =
      goes (λ mode' args' m'. print_all-returns format mode' args' m') (behind mode c args)
        (print_char put mode c args m) (print_char-Follows mode c args m) fit
    where
      goes :
          ((mode' : Mode) (args' : List Arg) (m1 : Machine)
            → fits mode' format args' ≡ true
            → (m' : Machine) × (print_all put mode' format args' m1 ≡ some m'))
          → (t : Option (Mode × List Arg)) (r : Option Rest) → Follows t r
          → (elim t as (λ x. Bool) [ none ↦ false | some (mode', args') ↦ fits mode' format args' ])
            ≡ true
          → (m' : Machine) × ((elim r as (λ x. Option Machine) [
            | none ↦ none
            | some (mode', args', m1) ↦ print_all put mode' format args' m1
          ])
              ≡ some m')
      goes rest none r f fit' = absurd (ground (arith, fit'))
      goes rest (some (mode', args')) none f fit' = absurd f
      goes rest (some (mode', args')) (some (mode'', args'', m1)) (p, q) fit' =
          rest mode'' args'' m1 (
            subst (λ x. fits x format args'' ≡ true) (sym p)
              (subst (λ x. fits mode' format x ≡ true) (sym q) fit'))

  pub print_with-returns :
      (format : List ℕ) (args : List Arg) (m : Machine)
      → fits plain format args ≡ true
      → (m' : Machine) × (print_with put format args m ≡ some (length format, m'))
  unfolding print_with
  print_with-returns format args m fit =
      let (m', e) = print_all-returns format plain args m fit in (m', rw (e, print_with))
