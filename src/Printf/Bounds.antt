-- ===== src/Printf/Bounds.antt =====
-- student-distrib/lib.c: printing on the screen that is shown changes no memory but the screen's.
use linux_like_os_kernel.Prelude.{
  ℕ, ◌+◌, ◌<◌, ◌≤◌, ◌||◌, ◌==◌, List, length, true, some, subst, ◌≡◌, ◌⊎◌, inl, inr, refl, arith,
  Bool-cases, ◌∙◌,
}
use linux_like_os_kernel.Machine.{Memory, Machine}
use linux_like_os_kernel.Console.{
  video, attrib, scroll_up, place_cursor, set_screen_cursor, enter, putc, write_cell, cursor_cell,
}
use linux_like_os_kernel.Console.Cells.{scroll_outside}
use linux_like_os_kernel.Console.Cursor.{IsOnScreen, putc-IsOnScreen}
use linux_like_os_kernel.Printf.{Arg, plain, printf}
use linux_like_os_kernel.Printf.Frame.{Printed, print_with-keeps}
use linux_like_os_kernel.Printf.Fitting.{fits, print_with-returns}

-- An address that is not the screen's.
abbrev pub IsOutside : ℕ → Type 0
IsOutside a = (a < 0xB8000) ⊎ (0xB8000 + 4000 ≤ a)

-- The cursor is on the screen, and no other memory has changed since machine `m`.
pub record IsConfined (m m' : Machine) : Type 0 where
  pub on : IsOnScreen m'
  pub same : (a : ℕ) → IsOutside a → m'.mem a ≡ m.mem a

write_cell_outside :
    (k c colour : ℕ) (m : Memory) (a : ℕ)
    → k < 2000
    → IsOutside a
    → write_cell video k c colour m a ≡ m a
write_cell_outside k c colour m a h out = ground (arith, out)

place_cursor_outside :
    (x y : ℕ) (m : Machine) (a : ℕ) → IsOutside a → (place_cursor x y m).mem a ≡ m.mem a
unfolding place_cursor scroll_up
place_cursor_outside x y m a out =
    ground (arith, scroll_outside video (attrib m.cur_term_id) m.mem a out)

enter_outside : (m : Machine) (a : ℕ) → IsOutside a → (enter m).mem a ≡ m.mem a
unfolding enter
enter_outside m a out = place_cursor_outside 0 (m.console.screen_y + 1) m a out

set_screen_cursor_outside :
    (x y : ℕ) (m : Machine) (a : ℕ) → IsOutside a → (set_screen_cursor x y m).mem a ≡ m.mem a
unfolding set_screen_cursor
set_screen_cursor_outside x y m a out =
    ground (arith, place_cursor_outside x y m a out, enter_outside m a out)

putc_outside :
    (c : ℕ) (m : Machine) (a : ℕ) → IsOnScreen m → IsOutside a → (putc c m).mem a ≡ m.mem a
unfolding putc
putc_outside c m a on out = elim (Bool-cases (c == b'\n' || c == b'\r')) [
  | inl e ↦ rw e (enter_outside m a out)
  | inr e ↦ rw e (
      set_screen_cursor_outside (m.console.screen_x + 1) m.console.screen_y written a out
      ∙ write_cell_outside (cursor_cell m) c (attrib m.cur_term_id) m.mem a
          (omega (arith, on.column, on.row)) out)
]
  where
    written : Machine
    written = record m {
      mem = write_cell video (cursor_cell m) c (attrib m.cur_term_id) m.mem;
      console = record (m.console) { screen_x = m.console.screen_x + 1; video_mem = video };
    }

pub putc-IsConfined :
    (m : Machine) (c : ℕ) (m' : Machine) → IsConfined m m' → IsConfined m (putc c m')
putc-IsConfined m c m' r = record {
  on = putc-IsOnScreen c m';
  same = λ a out. putc_outside c m' a r.on out ∙ r.same a out;
}

-- `printf` of a format whose conversions all have an argument of their kind returns the length of the format,
-- changes no byte of memory but the 4000 from 0xB8000 on, and leaves the cursor on the screen, if it
-- is there at first.
pub printf-IsConfined :
    (format : List ℕ) (args : List Arg) (m : Machine)
    → fits plain format args ≡ true
    → IsOnScreen m
    → (m' : Machine) × (printf format args m ≡ some (length format, m')) × IsConfined m m'
unfolding printf
printf-IsConfined format args m fit on =
    let (m', e) = print_with-returns putc format args m fit in
    (
      m',
      e,
      subst (Printed putc (IsConfined m) (putc-IsConfined m)) e (
          print_with-keeps putc (IsConfined m) (putc-IsConfined m) format args m
            (record { on = on; same = λ a out. refl })),
    )
