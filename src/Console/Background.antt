-- ===== src/Console/Background.antt =====
-- student-distrib/lib.c: the `multi_…` functions, which write to the screen kept for the terminal whose
-- process runs.
use linux_like_os_kernel.Prelude.{ℕ, ◌+◌, ◌*◌, ◌<◌, ◌≡◌, ◌≢◌, arith, lt→ltb, ==_refl, ne→==}
use linux_like_os_kernel.Machine.{Machine}
use linux_like_os_kernel.Console.{
  attrib, now_term, multi_scroll_up, multi_place_cursor, multi_set_screen_cursor, multi_enter,
  multi_putc, cursor_cell,
}
use linux_like_os_kernel.Console.Cells.{cells_at, Grid, Grid-ext, cells_at-scroll}
use linux_like_os_kernel.Console.Cursor.{Grid_enter}

-- The screen kept for the terminal whose process runs, as a grid.
abbrev pub kept : Machine → Grid
kept m = record {
  cells = cells_at (now_term m).video_mem m.mem;
  x = (now_term m).cursor_x;
  y = (now_term m).cursor_y;
}

-- That terminal's cursor is on the screen.
pub record IsKept (m : Machine) : Type 0 where
  pub column : (now_term m).cursor_x < 80
  pub row : (now_term m).cursor_y < 25

-- `multi_set_screen_cursor` leaves the kept cursor on the screen, whatever its arguments and the
-- cursor were, and no other terminal changes.
pub multi_set_screen_cursor-IsKept :
    (x y : ℕ) (m : Machine)
    → IsKept (multi_set_screen_cursor x y m)
      × ((i : ℕ) → i ≢ m.now_term_id → (multi_set_screen_cursor x y m).term i ≡ m.term i)
unfolding multi_set_screen_cursor multi_enter multi_place_cursor multi_scroll_up
multi_set_screen_cursor-IsKept x y m = (ground arith, λ i h. ground arith)

-- `multi_enter` starts a new line on the kept grid, in the colours of the terminal whose process
-- runs, if its cursor's row is on the screen; the screen that is shown keeps its cursor.
pub multi_enter_refines :
    (m : Machine)
    → (now_term m).cursor_y < 25
    → (kept (multi_enter m) ≡ Grid_enter (attrib m.now_term_id) (kept m))
      × ((multi_enter m).console ≡ m.console)
unfolding multi_enter multi_place_cursor multi_scroll_up Grid_enter
multi_enter_refines m row = (
  Grid-ext (kept (multi_enter m)) (Grid_enter (attrib m.now_term_id) (kept m))
      (λ i. ground (arith, cells_at-scroll (now_term m).video_mem (attrib m.now_term_id) m.mem i))
      (ground arith) (ground arith),
  ground arith,
)

-- Where `multi_putc` puts an ordinary character.
abbrev pub kept_cell : Machine → ℕ
kept_cell m = (now_term m).video_mem + (80 * (now_term m).cursor_y + (now_term m).cursor_x) * 2

-- `multi_putc` of an ordinary character that is not the last of a row stores the character in the
-- kept screen and moves the kept cursor on, but leaves the colours of that cell as they were: it
-- stores them at the cursor of the screen that is shown, wherever `video_mem` points. The address
-- of those colours must not be that of either byte of the cell.
pub multi_putc_colours :
    (c : ℕ) (m : Machine)
    → c ≢ b'\n'
    → c ≢ b'\r'
    → (now_term m).cursor_x + 1 < 80
    → (now_term m).cursor_y < 25
    → m.console.video_mem + cursor_cell m * 2 + 1 ≢ kept_cell m
    → m.console.video_mem + cursor_cell m * 2 + 1 ≢ kept_cell m + 1
    → ((multi_putc c m).mem (kept_cell m) ≡ c)
      × ((multi_putc c m).mem (kept_cell m + 1) ≡ m.mem (kept_cell m + 1))
      × ((multi_putc c m).mem (m.console.video_mem + cursor_cell m * 2 + 1) ≡ attrib m.cur_term_id)
      × ((now_term (multi_putc c m)).cursor_x ≡ (now_term m).cursor_x + 1)
unfolding multi_putc multi_set_screen_cursor multi_place_cursor
multi_putc_colours c m hn hr column row apart apart' =
    rw (ne→== c b'\n' hn, ne→== c b'\r' hr, ==_refl m.now_term_id)
      (rw (lt→ltb _ _ column, lt→ltb _ _ row)
        (ground arith, ground arith, ground arith, ground arith))
