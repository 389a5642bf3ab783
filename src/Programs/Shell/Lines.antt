-- ===== src/Programs/Shell/Lines.antt =====
-- syscalls/ece391shell.c: the strings that the shell compares, and the end of a line.
use linux_like_os_kernel.Prelude.{
  ℕ, zero, suc, ◌+◌, ◌<◌, ◌&&◌, ◌==◌, Bool, true, false, sub_ℕ, is_zero, update, List, [], ◌∷◌,
  ◌++◌, length, ◌≡◌, ◌≢◌, inl, inr, refl, arith, ◌∙◌, ap, sym, subst, Bool-cases, ne→==, ==_iff,
}
use linux_like_os_kernel.Machine.{Memory}
use linux_like_os_kernel.CString.{address_space}
use linux_like_os_kernel.Programs.{strcmp_loop, ece391_strcmp}
use linux_like_os_kernel.Programs.Cat.{Holds}

-- The bytes of a string and its terminator are at an address, and no byte of the string is 0.
abbrev pub HoldsLine : Memory → ℕ → List ℕ → Type 0
HoldsLine m a [] = m a ≡ 0
HoldsLine m a (c ∷ s) = (m a ≡ c) × (c ≢ 0) × HoldsLine m (a + 1) s

abbrev pub same_line : List ℕ → List ℕ → Bool
same_line [] [] = true
same_line [] (d ∷ t) = false
same_line (c ∷ s) [] = false
same_line (c ∷ s) (d ∷ t) = c == d && same_line s t

differ : (a b : ℕ) → (a == b) ≡ false → is_zero (sub_ℕ a b) ≡ false
differ a b h = ground arith

strcmp_loop_lem :
    (s t : List ℕ) (fuel : ℕ) (m : Memory) (a b : ℕ)
    → length s < fuel
    → HoldsLine m a s
    → HoldsLine m b t
    → is_zero (strcmp_loop fuel m a b) ≡ same_line s t
unfolding strcmp_loop
strcmp_loop_lem s t zero m a b lt h k = absurd (omega arith)
strcmp_loop_lem [] [] (suc fuel) m a b lt h k = rw (h, k, strcmp_loop) (rw h refl)
strcmp_loop_lem [] (d ∷ t) (suc fuel) m a b lt h (e, ne, k) =
    rw (h, e, ne→== 0 d (λ z. ne (sym z)), strcmp_loop)
      (differ (m a) (m b) (rw (h, e) (ne→== 0 d (λ z. ne (sym z)))))
strcmp_loop_lem (c ∷ s) [] (suc fuel) m a b lt (e, ne, h) k =
    rw (e, k, ne→== c 0 ne, strcmp_loop) (differ (m a) (m b) (rw (e, k) (ne→== c 0 ne)))
strcmp_loop_lem (c ∷ s) (d ∷ t) (suc fuel) m a b lt (e, ne, h) (e', ne', k) =
    elim (Bool-cases (c == d)) [
      | inl same ↦
          rw (here same, more, same, strcmp_loop)
            (strcmp_loop_lem s t fuel m (a + 1) (b + 1) (omega (arith, lt)) h k)
      | inr other ↦ rw (e, e', other, strcmp_loop) (differ (m a) (m b) (rw (e, e') other))
    ]
  where
    here : (c == d) ≡ true → (m a == m b) ≡ true
    here h = rw (e, e') h

    more : (m a == 0) ≡ false
    more = rw e (ne→== c 0 ne)

pub ece391_strcmp_lem :
    (s t : List ℕ) (m : Memory) (a b : ℕ)
    → length s < 1023
    → HoldsLine m a s
    → HoldsLine m b t
    → is_zero (ece391_strcmp m a b) ≡ same_line s t
unfolding ece391_strcmp
ece391_strcmp_lem s t m a b lt h k = strcmp_loop_lem s t address_space m a b (omega (arith, lt)) h k

-- A line that can be typed: short, and without a zero.
abbrev pub AllNonzero : List ℕ → Type 0
AllNonzero [] = Unit {0}
AllNonzero (c ∷ s) = (c ≢ 0) × AllNonzero s

abbrev pub AreLines : List (List ℕ) → Type 0
AreLines [] = Unit {0}
AreLines (line ∷ lines) = (length line < 1022) × AllNonzero line × AreLines lines

-- The end of a line, which `buf[cnt] = '\0'` puts over the newline.
pub end_line-HoldsLine :
    (line : List ℕ) (m : Memory) (a : ℕ)
    → AllNonzero line
    → Holds m a (line ++ (b'\n' ∷ []))
    → HoldsLine (update m (a + length line) 0) a line
end_line-HoldsLine [] m a h k = rw ((==_iff a (a + 0)).1 (omega arith)) refl
end_line-HoldsLine (c ∷ s) m a (ne, h) (e, k) = (
  rw (ne→== a (a + suc (length s)) (omega arith)) e,
  ne,
  subst (λ i. HoldsLine (update m i 0) (a + 1) s) here (end_line-HoldsLine s m (a + 1) h k),
)
  where
    here : a + 1 + length s ≡ a + suc (length s)
    here = omega arith

pub last_newline :
    (line : List ℕ) (m : Memory) (a : ℕ)
    → Holds m a (line ++ (b'\n' ∷ []))
    → m (a + length line) ≡ b'\n'
last_newline [] m a (e, k) = ap m (omega arith) ∙ e
last_newline (c ∷ s) m a (e, k) = ap m (omega arith) ∙ last_newline s m (a + 1) k
