-- ===== src/Terminal.antt =====
-- student-distrib/terminal.c and terminal.h: three terminals that share one screen and one key buffer,
-- with `buf_clear` of student-distrib/keyboard.c. `term_launch`, which starts a shell, is in Scheduler.
pub mod Switch
pub mod Line
mod Tests
use linux_like_os_kernel.Prelude.{
  ℕ, zero, suc, ◌+◌, ◌-◌, ◌*◌, ◌^◌, Bool, true, false, ◌&&◌, ltb, leb, ◌==◌, if◌then◌else◌, ℤ, pos,
  negsuc, failure, update, fill, Option, none, some, List, [], ◌∷◌, length,
}
use linux_like_os_kernel.Machine.{
  Machine, Memory, Term, Keyboard, set_term, set_mem, ◌▷◌, byte_minus_one, key_buf_max, term_max,
}
use linux_like_os_kernel.CString.{memcpy}
use linux_like_os_kernel.Console.{
  video, num_cols, num_rows, attrib, blank, set_screen_cursor, write_cell,
}
use linux_like_os_kernel.Printf.{printf, multi_printf}
use linux_like_os_kernel.Paging.{terminal_video_mapping}

-- keyboard.c
abbrev pub set_keyboard : (Keyboard → Keyboard) → Machine → Machine
set_keyboard f m = record m { keyboard = f m.keyboard }

unfoldable pub buf_clear : Machine → Machine
buf_clear =
    set_keyboard
      (λ k. record k { key_buf = fill k.key_buf 0 (λ i. 0) key_buf_max; key_buf_idx = 0 })

-- 2 * NUM_COLS * NUM_ROWS
abbrev pub screen_bytes : ℕ
screen_bytes = 4000

-- The loop of `term_init` that blanks a terminal's screen, after `n` cells.
unfoldable pub init_cells : ℕ → ℕ → ℕ → Memory → Memory
init_cells base id zero m = m
init_cells base id (suc n) m = write_cell base n blank (attrib id) (init_cells base id n m)

abbrev pub init_video : ℕ → ℕ
init_video i = 0xb9000 + 0x1000 * i

abbrev pub init_term : ℕ → Term → Term
init_term i t = record {
  term_id = i;
  cur_pcb_id = byte_minus_one;
  cursor_x = 0;
  cursor_y = 0;
  rtc_virtual_freq = 2;
  rtc_virtual_counter = 0;
  rtc_interrupt_received = 0;
  key_buf = fill t.key_buf 0 (λ j. 0) key_buf_max;
  key_buf_idx = 0;
  enter_state = 0;
  running = 0;
  video_mem = init_video i;
}

-- The outer loop of `term_init`, after `n` terminals.
unfoldable pub init_terms : ℕ → Machine → Machine
init_terms zero m = m
init_terms (suc n) m =
    let m1 = terminal_video_mapping (init_video n) n (set_term n (init_term n) (init_terms n m)) in
    set_mem (init_cells (init_video n) n (num_rows * num_cols) m1.mem) m1

unfoldable pub term_init : Machine → Machine
term_init m = record (init_terms term_max m) { cur_term_id = 3 }

unfoldable pub term_save : ℕ → Machine → Machine
term_save id m =
    let m1 =
      set_term id
        (λ t. record t {
          key_buf = fill t.key_buf 0 m.keyboard.key_buf key_buf_max;
          key_buf_idx = m.keyboard.key_buf_idx;
          cursor_x = m.console.screen_x;
          cursor_y = m.console.screen_y;
        })
        m in
    set_mem (memcpy (m1.term id).video_mem video screen_bytes m1.mem) m1

unfoldable pub term_restore : ℕ → Machine → Machine
term_restore id m =
    let t = m.term id in
    let m1 =
      set_keyboard
        (λ k. record k {
          key_buf = fill k.key_buf 0 t.key_buf key_buf_max;
          key_buf_idx = t.key_buf_idx;
        })
        m in
    let m2 = set_screen_cursor t.cursor_x t.cursor_y m1 in
    record m2 { mem = memcpy video (m2.term id).video_mem screen_bytes m2.mem; cur_term_id = id }

unfoldable pub term_switch : ℕ → ℕ → Machine → Machine
term_switch old_id new_id m = m ▷ term_save old_id ▷ term_restore new_id

unfoldable pub term_open : ℕ → ℤ
term_open file_name = pos 0

unfoldable pub term_close : ℕ → ℤ
term_close fd = pos 0

-- `i < length` for an int length.
abbrev pub below : ℕ → ℤ → Bool
below i (pos n) = ltb i n
below i (negsuc n) = false

-- `while (term[now_term_id].enter_state == 0);` with the interrupts that come meanwhile, each as
-- what its handler does; `none` means that the call still waits.
unfoldable pub wait_enter : List (Machine → Machine) → Machine → Option Machine
wait_enter [] m = if (m.term m.now_term_id).enter_state == 0 then none else some m
wait_enter (interrupt ∷ rest) m = elim ((m.term m.now_term_id).enter_state == 0) [
  | true ↦ wait_enter rest (interrupt m)
  | false ↦ some m
]

-- The loop of `term_read` at index `i`, with at most `left` rounds to KEY_BUF_MAX: the number of
-- characters that it moves, and memory after that.
unfoldable pub read_keys : (ℕ → ℕ) → ℕ → ℤ → ℕ → ℕ → Memory → ℕ × Memory
read_keys key_buf buf len i zero m = (i, m)
read_keys key_buf buf len i (suc left) m = elim (below i len) [
  | false ↦ (i, m)
  | true ↦ elim (key_buf i == 0) [
    | true ↦ (i, m)
    | false ↦ read_keys key_buf buf len (i + 1) left (update m (buf + i) (key_buf i))
  ]
]

unfoldable pub term_read : List (Machine → Machine) → ℕ → ℤ → Machine → Option (ℤ × Machine)
term_read interrupts buf len m =
    if buf == 0 then some (failure, m) else elim (wait_enter interrupts m) [
      | none ↦ none
      | some m1 ↦
          (let m2 = set_term m1.now_term_id (λ t. record t { enter_state = 0 }) m1 in
            let (count, mem) = read_keys m2.keyboard.key_buf buf len 0 key_buf_max m2.mem in
            some (pos count, buf_clear (set_mem mem m2)))
    ]

-- The bytes at `buf` up to a zero byte, and at most `n`: what `temp_buf` holds as a string.
unfoldable pub bytes_until : Memory → ℕ → ℕ → List ℕ
bytes_until m buf zero = []
bytes_until m buf (suc n) = elim (m buf == 0) [
  | true ↦ []
  | false ↦ m buf ∷ bytes_until m (buf + 1) n
]

-- `temp_buf` is the format. `none` is a fault: a format that reads past its end or arguments that
-- are not there, or a negative length, which gives `temp_buf` no size.
unfoldable pub term_write : ℕ → ℤ → Machine → Option (ℤ × Machine)
term_write buf (negsuc n) m = none
term_write buf (pos n) m =
    if buf == 0
    then some (failure, m)
    else (let temp_buf = bytes_until m.mem buf n in
        elim (if m.now_term_id == m.cur_term_id
          then printf temp_buf [] m
          else multi_printf temp_buf [] m) [
            | none ↦ none
            | some (printed, m') ↦ some (pos (length temp_buf), m')
          ])
