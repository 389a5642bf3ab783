-- ===== src/Printf/Plain.antt =====
-- student-distrib/lib.c: `printf` of plain text and of a string argument.
use linux_like_os_kernel.Prelude.{
  ℕ, ◌+◌, some, List, [], ◌∷◌, ◌++◌, length, length-append, ◌≡◌, ◌≢◌, refl, arith, ne→==,
  append-nil, ap, sym, ◌∙◌,
}
use linux_like_os_kernel.Machine.{Machine}
use linux_like_os_kernel.Console.{put_all}
use linux_like_os_kernel.Printf.{Arg, text, plain, print_char, print_all, print_with}

-- No character of the text is a '%'.
abbrev pub IsPlain : List ℕ → Type 0
IsPlain [] = Unit {0}
IsPlain (c ∷ s) = (c ≢ b'%') × IsPlain s

module _ (put : ℕ → Machine → Machine) where
  -- Plain text in front of a format is put character by character, and no argument is taken.
  pub print_all-append :
      (s format : List ℕ) (args : List Arg) (m : Machine)
      → IsPlain s
      → print_all put plain (s ++ format) args m ≡ print_all put plain format args (put_all put s m)
  unfolding print_all print_char put_all
  print_all-append [] format args m p = refl
  print_all-append (c ∷ s) format args m p =
      rw (ne→== c b'%' p.0, print_all) (print_all-append s format args (put c m) p.1)

  pub print_all_plain :
      (s : List ℕ) (args : List Arg) (m : Machine)
      → IsPlain s
      → print_all put plain s args m ≡ some (put_all put s m)
  unfolding print_all
  print_all_plain s args m p =
      ap (λ f. print_all put plain f args m) (sym (append-nil s)) ∙ print_all-append s [] args m p

  -- A format of plain text, "%s" and plain text puts the text, the string of the argument whatever
  -- its characters are, and the text, and returns the length of the format. So it is for `printf`
  -- and for `multi_printf`.
  pub print_with-text :
      (before s after : List ℕ) (m : Machine)
      → IsPlain before
      → IsPlain after
      → print_with put (before ++ (b'%' ∷ b's' ∷ after)) (text s ∷ []) m
        ≡ some (
          length before + (length after + 2),
          put_all put after (put_all put s (put_all put before m)),
        )
  unfolding print_with
  print_with-text before s after m p q =
      rw (print_all-append before (b'%' ∷ b's' ∷ after) (text s ∷ []) m p, middle, print_with)
        (ap (λ n. some (n, put_all put after (put_all put s (put_all put before m))))
          (omega (arith, length-append before (b'%' ∷ b's' ∷ after))))
    where
      middle :
          print_all put plain (b'%' ∷ b's' ∷ after) (text s ∷ []) (put_all put before m)
          ≡ some (put_all put after (put_all put s (put_all put before m)))
      middle =
          unfold print_all print_char in
          print_all_plain after [] (put_all put s (put_all put before m)) q
