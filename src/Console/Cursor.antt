-- ===== src/Console/Cursor.antt =====
-- student-distrib/lib.c: the functions on the screen that is shown, against a grid of cells with a cursor.
use linux_like_os_kernel.Prelude.{
  ℕ, ◌+◌, ◌-◌, ◌*◌, ◌<◌, ◌≤◌, ◌||◌, ltb, ◌==◌, if◌then◌else◌, ◌≡◌, ◌⊎◌, inl, inr, arith, refl,
  Bool-cases, List, [], ◌∷◌, ◌∙◌, sym, ap, lt→ltb,
}
use linux_like_os_kernel.Machine.{Machine, u16}
use linux_like_os_kernel.Console.{
  video, attrib, blank, scroll_up, place_cursor, set_screen_cursor, enter, putc, backspace, clear,
  put_all, puts, write_cell, erase_cell, cursor_cell,
}
use linux_like_os_kernel.Console.Cells.{
  Cell, cells_at, Grid, Grid-ext, Grid_scroll, set_cell, blank_cells_outside, cells_at-scroll,
  cells_at-write_cell, blank_cells_all,
}

-- The cursor is on the screen.
pub record IsOnScreen (m : Machine) : Type 0 where
  pub column : m.console.screen_x < 80
  pub row : m.console.screen_y < 25

-- The screen that is shown, as a grid.
abbrev pub shown : Machine → Grid
shown m = record { cells = cells_at video m.mem; x = m.console.screen_x; y = m.console.screen_y }

-- A new line: down by one row, or the grid scrolls.
unfoldable pub Grid_enter : ℕ → Grid → Grid
Grid_enter colour g =
    if ltb (g.y + 1) 25
    then record g { x = 0; y = g.y + 1 }
    else record { cells = Grid_scroll colour g.cells; x = 0; y = 24 }

-- A character: a newline or carriage return starts a new line, and any other goes under the cursor,
-- which moves on and at the end of a row starts a new line.
unfoldable pub Grid_put : ℕ → ℕ → Grid → Grid
unfolding Grid_enter
Grid_put colour c g =
    if c == b'\n' || c == b'\r'
    then Grid_enter colour g
    else (let written : Grid = record g { cells = set_cell g.cells (80 * g.y + g.x) (c, colour) } in
        if ltb (g.x + 1) 80 then record written { x = g.x + 1 } else Grid_enter colour written)

unfoldable pub Grid_put_all : ℕ → List ℕ → Grid → Grid
unfolding Grid_put
Grid_put_all colour [] g = g
Grid_put_all colour (c ∷ s) g = Grid_put_all colour s (Grid_put colour c g)

-- Back by one cell, which becomes blank; nothing at the top left.
unfoldable pub Grid_backspace : ℕ → Grid → Grid
Grid_backspace colour g =
    if g.x == 0
    then (if g.y == 0 then g else record {
      cells = set_cell g.cells (80 * (g.y - 1) + 79) (blank, colour);
      x = 79;
      y = g.y - 1;
    })
    else record {
      cells = set_cell g.cells (80 * g.y + (g.x - 1)) (blank, colour);
      x = g.x - 1;
      y = g.y;
    }

-- `set_screen_cursor` leaves the cursor on the screen, whatever its arguments and the cursor were.
pub set_screen_cursor-IsOnScreen : (x y : ℕ) (m : Machine) → IsOnScreen (set_screen_cursor x y m)
unfolding set_screen_cursor enter place_cursor scroll_up
set_screen_cursor-IsOnScreen x y m = ground arith

pub enter-IsOnScreen : (m : Machine) → IsOnScreen (enter m)
unfolding enter place_cursor scroll_up
enter-IsOnScreen m = ground arith

pub scroll_up-shown :
    (m : Machine) (i : ℕ)
    → cells_at video (scroll_up m).mem i
      ≡ Grid_scroll (attrib m.cur_term_id) (cells_at video m.mem) i
unfolding scroll_up
scroll_up-shown m i = cells_at-scroll video (attrib m.cur_term_id) m.mem i

scroll_up-screen_x : (m : Machine) → (scroll_up m).console.screen_x ≡ m.console.screen_x
unfolding scroll_up
scroll_up-screen_x m = refl

-- Placing the cursor in the row below it starts a new line; elsewhere on the screen it only moves.
place_cursor-below :
    (x : ℕ) (m : Machine)
    → m.console.screen_y < 25
    → shown (place_cursor x (m.console.screen_y + 1) m)
      ≡ record (Grid_enter (attrib m.cur_term_id) (shown m)) { x = x }
unfolding place_cursor Grid_enter
place_cursor-below x m h = elim (Bool-cases (ltb (m.console.screen_y + 1) 25)) [
  | inl e ↦ rw e
  | inr e ↦ rw e (Grid-ext _ _ (scroll_up-shown moved) (scroll_up-screen_x moved) refl)
]
  where
    moved : Machine
    moved = record m { console = record (m.console) { screen_x = x } }

place_cursor-inside :
    (x y : ℕ) (m : Machine)
    → y < 25
    → shown (place_cursor x y m) ≡ record { cells = cells_at video m.mem; x = x; y = y }
unfolding place_cursor
place_cursor-inside x y m h = rw (lt→ltb y 25 h)

Grid_enter-x : (colour : ℕ) (g : Grid) → (Grid_enter colour g).x ≡ 0
unfolding Grid_enter
Grid_enter-x colour g = ground arith

Grid_enter-cong :
    (colour : ℕ) (g h : Grid)
    → ((i : ℕ) → g.cells i ≡ h.cells i)
    → g.y ≡ h.y
    → Grid_enter colour g ≡ Grid_enter colour h
Grid_enter-cong colour g h p q =
    sym (reset g) ∙ ap (Grid_enter colour) (Grid-ext _ _ p refl q) ∙ reset h
  where
    reset : (k : Grid) → Grid_enter colour (record k { x = 0 }) ≡ Grid_enter colour k
    reset k = unfold Grid_enter in refl

-- `enter` starts a new line on the grid, if the cursor's row is on the screen.
pub enter_refines :
    (m : Machine)
    → m.console.screen_y < 25
    → shown (enter m) ≡ Grid_enter (attrib m.cur_term_id) (shown m)
unfolding enter
enter_refines m row =
    place_cursor-below 0 m row
    ∙ Grid-ext _ _ (λ i. refl) (sym (Grid_enter-x (attrib m.cur_term_id) (shown m))) refl

abbrev put_cell : ℕ → Cell → Grid → Grid
put_cell k c g = record g { cells = set_cell g.cells k c }

-- The machine of `putc` when the character has been written and the cursor moved on.
abbrev written : ℕ → Machine → Machine
written c m = record m {
  mem = write_cell video (cursor_cell m) c (attrib m.cur_term_id) m.mem;
  console = record (m.console) { screen_x = m.console.screen_x + 1; video_mem = video };
}

-- `putc` puts a character on the grid, if the cursor is on the screen.
pub putc_refines :
    (c : ℕ) (m : Machine)
    → IsOnScreen m
    → shown (putc c m) ≡ Grid_put (attrib m.cur_term_id) c (shown m)
unfolding putc Grid_put set_screen_cursor
putc_refines c m on = elim (Bool-cases (c == b'\n' || c == b'\r')) [
  | inl e ↦ rw e (enter_refines m on.row)
  | inr e ↦ rw e (elim (Bool-cases (ltb (m.console.screen_x + 1) 80)) [
    | inl inside ↦ rw inside (
        place_cursor-inside (m.console.screen_x + 1) m.console.screen_y (written c m) on.row
        ∙ Grid-ext _ _ (cells_at-write_cell video (cursor_cell m) c (attrib m.cur_term_id) m.mem)
            refl refl)
    | inr outside ↦ rw outside (
        enter_refines (written c m) on.row
        ∙ Grid_enter-cong (attrib m.cur_term_id) (shown (written c m))
            (put_cell (cursor_cell m) (c, attrib m.cur_term_id) (shown m))
            (cells_at-write_cell video (cursor_cell m) c (attrib m.cur_term_id) m.mem) refl)
  ])
]

pub putc-IsOnScreen : (c : ℕ) (m : Machine) → IsOnScreen (putc c m)
unfolding putc
putc-IsOnScreen c m = elim (Bool-cases (c == b'\n' || c == b'\r')) [
  | inl e ↦ rw e (enter-IsOnScreen m)
  | inr e ↦
      rw e (set_screen_cursor-IsOnScreen (m.console.screen_x + 1) m.console.screen_y (written c m))
]

putc-cur_term_id : (c : ℕ) (m : Machine) → (putc c m).cur_term_id ≡ m.cur_term_id
unfolding putc set_screen_cursor enter place_cursor scroll_up
putc-cur_term_id c m = ground arith

put_all-putc_refines :
    (s : List ℕ) (m : Machine)
    → IsOnScreen m
    → (shown (put_all putc s m) ≡ Grid_put_all (attrib m.cur_term_id) s (shown m))
      × IsOnScreen (put_all putc s m)
unfolding put_all Grid_put_all
put_all-putc_refines [] m on = (refl, on)
put_all-putc_refines (c ∷ s) m on =
    let (grid, on') = put_all-putc_refines s (putc c m) (putc-IsOnScreen c m) in
    (
      grid
          ∙ ap (λ t. Grid_put_all (attrib t) s (shown (putc c m))) (putc-cur_term_id c m)
          ∙ ap (Grid_put_all (attrib m.cur_term_id) s) (putc_refines c m on),
      on',
    )

-- `puts` puts the characters of a string on the grid one after the other, if the cursor is on the
-- screen, and leaves it there.
pub puts_refines :
    (s : List ℕ) (m : Machine)
    → IsOnScreen m
    → (shown (puts s m) ≡ Grid_put_all (attrib m.cur_term_id) s (shown m)) × IsOnScreen (puts s m)
unfolding puts
puts_refines s m on = put_all-putc_refines s m on

-- The cell that `backspace` erases lies where the cursor was moved to.
erased :
    (x y : ℕ) (m : Machine)
    → x < 80
    → y < 25
    → shown (erase_cell (place_cursor x y m)) ≡ record {
      cells = set_cell (cells_at video m.mem) (80 * y + x) (blank, attrib m.cur_term_id);
      x = x;
      y = y;
    }
unfolding place_cursor
erased x y m hx hy = rw (lt→ltb y 25 hy) (
    Grid-ext _ _
      (λ i.
        cells_at-write_cell video (u16 (y * 80 + x)) blank (attrib m.cur_term_id) m.mem i
        ∙ ap (λ k. set_cell (cells_at video m.mem) k (blank, attrib m.cur_term_id) i) (omega arith))
      refl refl)

-- `backspace` takes back the cell before the cursor on the grid, if the cursor is on the screen.
pub backspace_refines :
    (m : Machine)
    → IsOnScreen m
    → shown (backspace m) ≡ Grid_backspace (attrib m.cur_term_id) (shown m)
unfolding backspace Grid_backspace set_screen_cursor
backspace_refines m on = elim (Bool-cases (m.console.screen_x == 0)) [
  | inl left ↦ elim (Bool-cases (m.console.screen_y == 0)) [
    | inl top ↦ rw (left, top)
    | inr below ↦
        rw (left, below)
          (erased 79 (m.console.screen_y - 1) m (omega arith) (omega (arith, on.row)))
  ]
  | inr inside ↦
      rw (inside, lt→ltb (m.console.screen_x - 1) 80 (omega (arith, on.column)))
        (erased (m.console.screen_x - 1) m.console.screen_y m (omega (arith, on.column)) on.row)
]

-- `clear` blanks every cell and leaves the cursor and the rest of memory as they were.
pub clear_lem :
    (m : Machine)
    → ((i : ℕ) → i < 2000 → cells_at video (clear m).mem i ≡ (blank, attrib m.cur_term_id))
      × ((a : ℕ) → (a < video) ⊎ (video + 4000 ≤ a) → (clear m).mem a ≡ m.mem a)
      × ((clear m).console ≡ record (m.console) { video_mem = video })
unfolding clear
clear_lem m = (
  λ i h. blank_cells_all video (attrib m.cur_term_id) m.mem i ∙ rw (lt→ltb i 2000 h),
  λ a h. blank_cells_outside video (attrib m.cur_term_id) m.mem a h,
  refl,
)
