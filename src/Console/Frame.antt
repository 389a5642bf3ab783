-- ===== src/Console/Frame.antt =====
-- student-distrib/lib.c: what printing on the screen that is shown leaves alone.
use linux_like_os_kernel.Prelude.{
  ℕ, ◌+◌, Bool, true, false, ◌||◌, ltb, ◌==◌, if◌then◌else◌, List, [], ◌∷◌, ◌≡◌, inl, inr, refl,
  Bool-cases, ◌∙◌, ap,
}
use linux_like_os_kernel.Machine.{Machine, Pcb}
use linux_like_os_kernel.Console.{
  scroll_up, place_cursor, set_screen_cursor, enter, putc, put_all, write_cell, video, attrib,
  cursor_cell,
}

-- Nothing but memory, the ports and the cursor differs.
abbrev pub IsPrinting : Machine → Machine → Type 0
IsPrinting m m' = m' ≡ record m { mem = m'.mem; ports = m'.ports; console = m'.console }

pub IsPrinting-trans : (m m' m'' : Machine) → IsPrinting m m' → IsPrinting m' m'' → IsPrinting m m''
IsPrinting-trans m m' m'' p q =
    q ∙ ap (λ (x : Machine). record x { mem = m''.mem; ports = m''.ports; console = m''.console }) p

pub IsPrinting-if :
    (b : Bool) (m m' m'' : Machine)
    → IsPrinting m m'
    → IsPrinting m m''
    → IsPrinting m (if b then m' else m'')
IsPrinting-if true m m' m'' p q = p
IsPrinting-if false m m' m'' p q = q

place_cursor-IsPrinting : (x y : ℕ) (m : Machine) → IsPrinting m (place_cursor x y m)
unfolding place_cursor scroll_up
place_cursor-IsPrinting x y m = elim (Bool-cases (ltb y 25)) [ inl e ↦ rw e | inr e ↦ rw e ]

pub enter-IsPrinting : (m : Machine) → IsPrinting m (enter m)
unfolding enter
enter-IsPrinting m = place_cursor-IsPrinting 0 (m.console.screen_y + 1) m

pub set_screen_cursor-IsPrinting : (x y : ℕ) (m : Machine) → IsPrinting m (set_screen_cursor x y m)
unfolding set_screen_cursor
set_screen_cursor-IsPrinting x y m =
    IsPrinting-if (ltb x 80) m _ _ (place_cursor-IsPrinting x y m) (enter-IsPrinting m)

-- The machine of `putc` when the character has been written and the cursor moved on.
abbrev written : ℕ → Machine → Machine
written c m = record m {
  mem = write_cell video (cursor_cell m) c (attrib m.cur_term_id) m.mem;
  console = record (m.console) { screen_x = m.console.screen_x + 1; video_mem = video };
}

pub putc-IsPrinting : (c : ℕ) (m : Machine) → IsPrinting m (putc c m)
unfolding putc
putc-IsPrinting c m = IsPrinting-if (c == b'\n' || c == b'\r') m _ _ (enter-IsPrinting m) (
    IsPrinting-trans m (written c m) _ refl
      (set_screen_cursor-IsPrinting (m.console.screen_x + 1) m.console.screen_y (written c m)))

pub put_all-IsPrinting : (s : List ℕ) (m : Machine) → IsPrinting m (put_all putc s m)
unfolding put_all
put_all-IsPrinting [] m = refl
put_all-IsPrinting (c ∷ s) m =
    IsPrinting-trans m (putc c m) _ (putc-IsPrinting c m) (put_all-IsPrinting s (putc c m))

-- Printing does not look at the processes.
module _ (pcb : ℕ → Pcb) where
  abbrev pub set_pcbs : Machine → Machine
  set_pcbs m = record m { pcb = pcb }

  set_pcbs-if :
      (b : Bool) (m m' n n' : Machine)
      → m ≡ set_pcbs n
      → m' ≡ set_pcbs n'
      → (if b then m else m') ≡ set_pcbs (if b then n else n')
  set_pcbs-if true m m' n n' p q = p
  set_pcbs-if false m m' n n' p q = q

  place_cursor-set_pcbs :
      (x y : ℕ) (m : Machine) → place_cursor x y (set_pcbs m) ≡ set_pcbs (place_cursor x y m)
  unfolding place_cursor scroll_up
  place_cursor-set_pcbs x y m = elim (Bool-cases (ltb y 25)) [ inl e ↦ rw e | inr e ↦ rw e ]

  enter-set_pcbs : (m : Machine) → enter (set_pcbs m) ≡ set_pcbs (enter m)
  unfolding enter
  enter-set_pcbs m = place_cursor-set_pcbs 0 (m.console.screen_y + 1) m

  set_screen_cursor-set_pcbs :
      (x y : ℕ) (m : Machine)
      → set_screen_cursor x y (set_pcbs m) ≡ set_pcbs (set_screen_cursor x y m)
  unfolding set_screen_cursor
  set_screen_cursor-set_pcbs x y m =
      set_pcbs-if (ltb x 80) _ _ _ _ (place_cursor-set_pcbs x y m) (enter-set_pcbs m)

  putc-set_pcbs : (c : ℕ) (m : Machine) → putc c (set_pcbs m) ≡ set_pcbs (putc c m)
  unfolding putc
  putc-set_pcbs c m =
      set_pcbs-if (c == b'\n' || c == b'\r') _ _ _ _ (enter-set_pcbs m)
        (set_screen_cursor-set_pcbs (m.console.screen_x + 1) m.console.screen_y (written c m))

  pub put_all-set_pcbs :
      (s : List ℕ) (m : Machine) → put_all putc s (set_pcbs m) ≡ set_pcbs (put_all putc s m)
  unfolding put_all
  put_all-set_pcbs [] m = refl
  put_all-set_pcbs (c ∷ s) m =
      ap (put_all putc s) (putc-set_pcbs c m) ∙ put_all-set_pcbs s (putc c m)
