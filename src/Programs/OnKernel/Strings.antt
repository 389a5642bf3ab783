-- ===== src/Programs/OnKernel/Strings.antt =====
-- syscalls/ on student-distrib/: a plain string constant is printed as it is.
use linux_like_os_kernel.Prelude.{
  ℕ, zero, suc, ◌+◌, ◌<◌, ◌&&◌, not, ◌==◌, Bool, true, pos, List, [], ◌∷◌, ◌++◌, length, some, ◌≡◌,
  ◌≢◌, refl, arith, ◌∙◌, ap, ne→==, ==_iff,
}
use linux_like_os_kernel.Machine.{Machine, Memory}
use linux_like_os_kernel.Console.{putc, put_all}
use linux_like_os_kernel.Printf.{printf, print_with}
use linux_like_os_kernel.Printf.Plain.{IsPlain, print_all_plain}
use linux_like_os_kernel.Terminal.{bytes_until, term_write}
use linux_like_os_kernel.CString.{address_space}
use linux_like_os_kernel.Programs.{strlen_loop, ece391_strlen}
use linux_like_os_kernel.Programs.Cat.{Holds}

-- A string constant: no character is a zero or a '%', and there are less than 100.
abbrev pub is_plain_text : List ℕ → Bool
is_plain_text [] = true
is_plain_text (c ∷ s) = not (c == 0) && not (c == b'%') && is_plain_text s

plain_parts :
    (c : ℕ) (p : Bool)
    → (not (c == 0) && not (c == b'%') && p) ≡ true
    → (c ≢ 0) × (c ≢ b'%') × (p ≡ true)
plain_parts c p h = ground arith

pub is_plain_text-IsPlain : (s : List ℕ) → is_plain_text s ≡ true → IsPlain s
is_plain_text-IsPlain [] h = tt
is_plain_text-IsPlain (c ∷ s) h =
    let (nonzero, plain, rest) = plain_parts c (is_plain_text s) h in
    (plain, is_plain_text-IsPlain s rest)

-- The string with its terminator.
abbrev pub HoldsString : Memory → ℕ → List ℕ → Type 0
HoldsString m a s = Holds m a (s ++ (0 ∷ []))

strlen_loop-HoldsString :
    (s : List ℕ) (fuel : ℕ) (m : Memory) (a len : ℕ)
    → is_plain_text s ≡ true
    → HoldsString m a s
    → length s < fuel
    → strlen_loop fuel m a len ≡ len + length s
unfolding strlen_loop
strlen_loop-HoldsString s zero m a len p h lt = absurd (omega arith)
strlen_loop-HoldsString [] (suc fuel) m a len p (e, h) lt = rw (e, strlen_loop) (omega arith)
strlen_loop-HoldsString (c ∷ s) (suc fuel) m a len p (e, h) lt =
    rw (e, ne→== c 0 ((plain_parts c (is_plain_text s) p).0), strlen_loop)
      (strlen_loop-HoldsString s fuel m (a + 1) (len + 1) (plain_parts c (is_plain_text s) p).2 h
          (omega (arith, lt))
        ∙ omega arith)

pub ece391_strlen-HoldsString :
    (s : List ℕ) (m : Memory) (a : ℕ)
    → is_plain_text s ≡ true
    → length s < 100
    → HoldsString m a s
    → ece391_strlen m a ≡ length s
unfolding ece391_strlen
ece391_strlen-HoldsString s m a p short h =
    omega (arith, strlen_loop-HoldsString s address_space m a 0 p h (omega arith))

bytes_until_step :
    (m : Memory) (a c n : ℕ)
    → m a ≡ c
    → c ≢ 0
    → bytes_until m a (suc n) ≡ c ∷ bytes_until m (a + 1) n
unfolding bytes_until
bytes_until_step m a c n e h =
    rw (e, ne→== c 0 h, bytes_until) (ap (λ x. x ∷ bytes_until m (a + 1) n) e)

pub bytes_until-HoldsString :
    (s : List ℕ) (m : Memory) (a : ℕ)
    → is_plain_text s ≡ true
    → HoldsString m a s
    → bytes_until m a (length s) ≡ s
unfolding bytes_until
bytes_until-HoldsString [] m a p h = refl
bytes_until-HoldsString (c ∷ s) m a p (e, h) =
    let (nonzero, plain, rest) = plain_parts c (is_plain_text s) p in
    bytes_until_step m a c (length s) e nonzero
    ∙ ap (◌∷◌ c) (bytes_until-HoldsString s m (a + 1) rest h)

-- On the screen that is shown, `term_write` puts the characters.
pub term_write-HoldsString :
    (s : List ℕ) (m : Machine) (a : ℕ)
    → is_plain_text s ≡ true
    → HoldsString m.mem a s
    → a ≢ 0
    → m.now_term_id ≡ m.cur_term_id
    → term_write a (pos (length s)) m ≡ some (pos (length s), put_all putc s m)
unfolding term_write printf print_with
term_write-HoldsString s m a p h ne shown =
    rw
      (
        ne→== a 0 ne,
        (==_iff m.now_term_id m.cur_term_id).1 shown,
        bytes_until-HoldsString s m.mem a p h,
        print_all_plain putc s [] m (is_plain_text-IsPlain s p),
      )
      (ap (λ t. some (pos (length t), put_all putc s m)) (bytes_until-HoldsString s m.mem a p h))

pub put_all-append :
    (s t : List ℕ) (m : Machine) → put_all putc (s ++ t) m ≡ put_all putc t (put_all putc s m)
unfolding put_all
put_all-append [] t m = refl
put_all-append (c ∷ s) t m = put_all-append s t (putc c m)
