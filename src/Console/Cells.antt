-- ===== src/Console/Cells.antt =====
-- student-distrib/lib.c: what the loops over the screen's memory do to each byte, and the screen as a
-- grid of cells.
use linux_like_os_kernel.Prelude.{
  ℕ, zero, suc, ◌+◌, ◌-◌, ◌*◌, ◌%◌, ◌<◌, ◌≤◌, ◌&&◌, ltb, leb, ◌==◌, if◌then◌else◌, ◌≡◌, ◌⊎◌, arith,
  fun_ext,
}
use linux_like_os_kernel.Machine.{Memory}
use linux_like_os_kernel.Console.{move_up, blank_cells, scroll, write_cell, blank}

move_up_lem :
    (base n : ℕ) (m : Memory) (a : ℕ)
    → n ≤ 1920
    → move_up base n m a ≡ (if leb base a && ltb a (base + n * 2) then m (a + 160) else m a)
unfolding move_up
move_up_lem base zero m a h = ground arith
move_up_lem base (suc n) m a h = ground (
  arith,
  move_up_lem base n m a (omega arith),
  move_up_lem base n m (base + (n + 80) * 2) (omega arith),
  move_up_lem base n m (base + (n + 80) * 2 + 1) (omega arith),
)

blank_cells_lem :
    (base start colour n : ℕ) (m : Memory) (a : ℕ)
    → blank_cells base start colour n m a ≡ (
        if leb (base + start * 2) a && ltb a (base + (start + n) * 2)
        then (if (a - base) % 2 == 0 then blank else colour)
        else m a)
unfolding blank_cells
blank_cells_lem base start colour zero m a = ground arith
blank_cells_lem base start colour (suc n) m a =
    ground (arith, blank_cells_lem base start colour n m a)

-- A cell: the character and its colours.
abbrev pub Cell : Type 0
Cell = ℕ × ℕ

abbrev pub cells_at : ℕ → Memory → ℕ → Cell
cells_at base m i = (m (base + i * 2), m (base + i * 2 + 1))

-- A grid of 25 rows of 80 cells with a cursor.
pub record Grid : Type 0 where
  pub cells : ℕ → Cell
  pub x : ℕ
  pub y : ℕ

pub Grid-ext : (g h : Grid) → ((i : ℕ) → g.cells i ≡ h.cells i) → g.x ≡ h.x → g.y ≡ h.y → g ≡ h
Grid-ext g h p q r = λ i. record { cells = fun_ext p i; x = q i; y = r i }

-- The lines move up by one, and the last becomes blank.
unfoldable pub Grid_scroll : ℕ → (ℕ → Cell) → ℕ → Cell
Grid_scroll colour cells i =
    if ltb i 1920 then cells (i + 80) else if ltb i 2000 then (blank, colour) else cells i

unfoldable pub set_cell : (ℕ → Cell) → ℕ → Cell → ℕ → Cell
set_cell cells k c i = if i == k then c else cells i

-- The loops of `scroll_up` and `multi_scroll_up` scroll the grid of cells.
pub cells_at-scroll :
    (base colour : ℕ) (m : Memory) (i : ℕ)
    → cells_at base (scroll base colour m) i ≡ Grid_scroll colour (cells_at base m) i
unfolding Grid_scroll
cells_at-scroll base colour m i = ground (
  arith,
  blank_cells_lem base 1920 colour 80 (move_up base 1920 m) (base + i * 2),
  blank_cells_lem base 1920 colour 80 (move_up base 1920 m) (base + i * 2 + 1),
  move_up_lem base 1920 m (base + i * 2) (omega arith),
  move_up_lem base 1920 m (base + i * 2 + 1) (omega arith),
)

-- Scrolling changes no byte outside of the screen.
pub scroll_outside :
    (base colour : ℕ) (m : Memory) (a : ℕ)
    → (a < base) ⊎ (base + 4000 ≤ a)
    → scroll base colour m a ≡ m a
scroll_outside base colour m a h = ground (
  arith,
  blank_cells_lem base 1920 colour 80 (move_up base 1920 m) a,
  move_up_lem base 1920 m a (omega arith),
)

pub cells_at-write_cell :
    (base k c colour : ℕ) (m : Memory) (i : ℕ)
    → cells_at base (write_cell base k c colour m) i ≡ set_cell (cells_at base m) k (c, colour) i
unfolding set_cell
cells_at-write_cell base k c colour m i = ground arith

pub blank_cells_all :
    (base colour : ℕ) (m : Memory) (i : ℕ)
    → cells_at base (blank_cells base 0 colour 2000 m) i
      ≡ (if ltb i 2000 then (blank, colour) else cells_at base m i)
blank_cells_all base colour m i = ground (
  arith,
  blank_cells_lem base 0 colour 2000 m (base + i * 2),
  blank_cells_lem base 0 colour 2000 m (base + i * 2 + 1),
)

pub blank_cells_outside :
    (base colour : ℕ) (m : Memory) (a : ℕ)
    → (a < base) ⊎ (base + 4000 ≤ a)
    → blank_cells base 0 colour 2000 m a ≡ m a
blank_cells_outside base colour m a h = ground (arith, blank_cells_lem base 0 colour 2000 m a)
