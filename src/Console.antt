-- ===== src/Console.antt =====
-- student-distrib/lib.c and lib.h: the text screen. A screen has 25 rows of 80 cells, and a cell is two
-- bytes, the character and its colours. The functions named `multi_…` write to the screen that is
-- kept for the terminal whose process runs, while another terminal is shown.
pub mod Cells
pub mod Cursor
pub mod Background
pub mod Frame
mod Tests
use linux_like_os_kernel.Prelude.{
  ℕ, zero, suc, ◌+◌, ◌-◌, ◌*◌, ◌/◌, ◌%◌, ◌^◌, Bool, true, false, ◌&&◌, ◌||◌, ltb, leb, ◌==◌, not,
  if◌then◌else◌, update, bit_and, List, [], ◌∷◌,
}
use linux_like_os_kernel.Machine.{
  Memory, Machine, Console, Term, u8, u16, outb, ◌▷◌, set_term, set_mem,
}

abbrev pub video : ℕ
video = 0xB8000

abbrev pub num_cols : ℕ
num_cols = 80

abbrev pub num_rows : ℕ
num_rows = 25

abbrev pub cursor_cmd : ℕ
cursor_cmd = 0x03D4

abbrev pub cursor_data : ℕ
cursor_data = 0x03D5

-- The colours of a terminal: ATTRIB_T1, ATTRIB_T2, ATTRIB_T3 and ATTRIB.
abbrev pub attrib : ℕ → ℕ
attrib id = if id == 0 then 0xD else if id == 1 then 0xA else if id == 2 then 0xE else 0x7

abbrev pub blank : ℕ
blank = b' '

-- The two writes to cell `i` of the screen at `base`.
abbrev pub write_cell : ℕ → ℕ → ℕ → ℕ → Memory → Memory
write_cell base i c colour m = update (update m (base + i * 2) c) (base + i * 2 + 1) colour

-- The loop that moves each line up by one, after `n` cells.
pub move_up : ℕ → ℕ → Memory → Memory
move_up base zero m = m
move_up base (suc n) m =
    let m' = move_up base n m in
    let char : Memory = update m' (base + n * 2) (m' (base + (n + num_cols) * 2)) in
    update char (base + n * 2 + 1) (char (base + (n + num_cols) * 2 + 1))

-- The loop that blanks the cells from `start` on, after `n` cells.
pub blank_cells : ℕ → ℕ → ℕ → ℕ → Memory → Memory
blank_cells base start colour zero m = m
blank_cells base start colour (suc n) m =
    write_cell base (start + n) blank colour (blank_cells base start colour n m)

abbrev pub scroll : ℕ → ℕ → Memory → Memory
scroll base colour m =
    blank_cells base ((num_rows - 1) * num_cols) colour num_cols
      (move_up base ((num_rows - 1) * num_cols) m)

-- Assignments to lib.c's static variables.
abbrev pub set_console : (Console → Console) → Machine → Machine
set_console f m = record m { console = f m.console }

abbrev pub set_vidmem : ℕ → Machine → Machine
set_vidmem addr = set_console (λ c. record c { video_mem = addr })

unfoldable pub scroll_up : Machine → Machine
scroll_up m = set_vidmem video (set_mem (scroll video (attrib m.cur_term_id) m.mem) m)

-- "update cursor location": the position goes to the display controller in two bytes.
abbrev pub show_cursor : Machine → Machine
show_cursor m =
    let pos = u16 (m.console.screen_y * num_cols + m.console.screen_x) in
    m
    ▷ outb 0x0F cursor_cmd
    ▷ outb (bit_and pos 0xFF) cursor_data
    ▷ outb 0x0E cursor_cmd
    ▷ outb (bit_and (pos / 2 ^ 8) 0xFF) cursor_data

-- `set_screen_cursor` with `new_x` below NUM_COLS.
unfoldable pub place_cursor : ℕ → ℕ → Machine → Machine
place_cursor new_x new_y m =
    let m1 = set_console (λ c. record c { screen_x = new_x }) m in
    show_cursor (
      if ltb new_y num_rows
      then set_console (λ c. record c { screen_y = new_y }) m1
      else set_console (λ c. record c { screen_y = num_rows - 1 }) (scroll_up m1))

-- `set_screen_cursor(0, screen_y + 1)`: 0 is below NUM_COLS.
unfoldable pub enter : Machine → Machine
enter m = place_cursor 0 (m.console.screen_y + 1) m

unfoldable pub set_screen_cursor : ℕ → ℕ → Machine → Machine
set_screen_cursor new_x new_y m = if ltb new_x num_cols then place_cursor new_x new_y m else enter m

-- The cell under the cursor.
abbrev pub cursor_cell : Machine → ℕ
cursor_cell m = num_cols * m.console.screen_y + m.console.screen_x

unfoldable pub putc : ℕ → Machine → Machine
putc c m =
    if c == b'\n' || c == b'\r'
    then enter m
    else (let m1 =
          m
          ▷ set_vidmem video
          ▷ set_mem (write_cell video (cursor_cell m) c (attrib m.cur_term_id) m.mem)
          ▷ set_console (λ v. record v { screen_x = v.screen_x + 1 }) in
        set_screen_cursor m1.console.screen_x m1.console.screen_y m1)

-- What `backspace` does when the cursor has been moved back.
abbrev pub erase_cell : Machine → Machine
erase_cell m =
    m
    ▷ set_vidmem video
    ▷ set_mem (
        write_cell video (u16 (m.console.screen_y * num_cols + m.console.screen_x)) blank
          (attrib m.cur_term_id) m.mem)

unfoldable pub backspace : Machine → Machine
backspace m =
    if not (m.console.screen_x == 0)
    then erase_cell (set_screen_cursor (m.console.screen_x - 1) m.console.screen_y m)
    else if not (m.console.screen_y == 0)
    then erase_cell (set_screen_cursor (num_cols - 1) (m.console.screen_y - 1) m)
    else m

unfoldable pub clear : Machine → Machine
clear m =
    set_vidmem video
      (set_mem (blank_cells video 0 (attrib m.cur_term_id) (num_rows * num_cols) m.mem) m)

-- `term[now_term_id]`
abbrev pub now_term : Machine → Term
now_term m = m.term m.now_term_id

abbrev pub set_now_term : (Term → Term) → Machine → Machine
set_now_term f m = set_term m.now_term_id f m

unfoldable pub multi_scroll_up : Machine → Machine
multi_scroll_up m = set_mem (scroll (now_term m).video_mem (attrib m.now_term_id) m.mem) m

-- `multi_set_screen_cursor` with `new_x` below NUM_COLS.
unfoldable pub multi_place_cursor : ℕ → ℕ → Machine → Machine
multi_place_cursor new_x new_y m =
    let m1 = set_now_term (λ t. record t { cursor_x = new_x }) m in
    if ltb new_y num_rows
    then set_now_term (λ t. record t { cursor_y = new_y }) m1
    else set_now_term (λ t. record t { cursor_y = num_rows - 1 }) (multi_scroll_up m1)

unfoldable pub multi_enter : Machine → Machine
multi_enter m = multi_place_cursor 0 ((now_term m).cursor_y + 1) m

unfoldable pub multi_set_screen_cursor : ℕ → ℕ → Machine → Machine
multi_set_screen_cursor new_x new_y m =
    if ltb new_x num_cols then multi_place_cursor new_x new_y m else multi_enter m

-- The character goes to the terminal's own screen, its colours to wherever `video_mem` points, at
-- the cursor of the screen that is shown.
abbrev pub multi_write : ℕ → Machine → Memory
multi_write c m =
    update
      (update m.mem
        ((now_term m).video_mem + (num_cols * (now_term m).cursor_y + (now_term m).cursor_x) * 2) c)
      (m.console.video_mem + cursor_cell m * 2 + 1) (attrib m.cur_term_id)

unfoldable pub multi_putc : ℕ → Machine → Machine
multi_putc c m =
    if c == b'\n' || c == b'\r'
    then multi_enter m
    else (let m1 =
          m
          ▷ set_mem (multi_write c m)
          ▷ set_now_term (λ t. record t { cursor_x = t.cursor_x + 1 }) in
        multi_set_screen_cursor (now_term m1).cursor_x (now_term m1).cursor_y m1)

-- The loop over a string's characters, up to its terminator.
unfoldable pub put_all : (ℕ → Machine → Machine) → List ℕ → Machine → Machine
put_all put [] m = m
put_all put (c ∷ s) m = put_all put s (put c m)

unfoldable pub puts : List ℕ → Machine → Machine
puts s m = put_all putc s m

unfoldable pub multi_puts : List ℕ → Machine → Machine
multi_puts s m = put_all multi_putc s m

-- `video_mem[i << 1]++` for each cell, after `n` cells
pub increment_cells : ℕ → ℕ → Memory → Memory
increment_cells base zero m = m
increment_cells base (suc n) m =
    let m' = increment_cells base n m in update m' (base + n * 2) (u8 (m' (base + n * 2) + 1))

unfoldable pub test_interrupts : Machine → Machine
test_interrupts m = set_mem (increment_cells m.console.video_mem (num_rows * num_cols) m.mem) m
