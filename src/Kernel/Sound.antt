-- ===== src/Kernel/Sound.antt =====
-- The invariant of the kernel's state, student-distrib/terminal.h, keyboard.c, system_call.c, lib.c, and the
-- operations on the screen, the terminals and the descriptors that keep it.
use linux_like_os_kernel.Prelude.{
  ℕ, ◌+◌, ◌-◌, ◌<◌, ◌≤◌, Bool, true, false, ◌||◌, not, ltb, ◌==◌, if◌then◌else◌, fill, Option, none,
  some, List, ◌≡◌, refl, subst, sym,
}
use linux_like_os_kernel.Machine.{Machine, Term, set_term, set_mem}
use linux_like_os_kernel.Console.{
  set_screen_cursor, enter, backspace, putc, clear, multi_scroll_up, multi_place_cursor,
  multi_enter, multi_set_screen_cursor, multi_putc, now_term, set_now_term, multi_write, erase_cell,
  num_cols,
}
use linux_like_os_kernel.Console.Cursor.{
  IsOnScreen, set_screen_cursor-IsOnScreen, enter-IsOnScreen, putc-IsOnScreen,
}
use linux_like_os_kernel.Console.Frame.{
  IsPrinting, set_screen_cursor-IsPrinting, enter-IsPrinting, putc-IsPrinting,
}
use linux_like_os_kernel.Printf.{Arg, printf, multi_printf}
use linux_like_os_kernel.Printf.Frame.{Printed, print_with-keeps, after_printf}
use linux_like_os_kernel.Process.{Mask, pcb_total_number}
use linux_like_os_kernel.CString.{memcpy}
use linux_like_os_kernel.Terminal.{term_save, term_restore, term_switch}

-- The terminal that is shown and the one whose turn it is exist, each key buffer holds at most 128
-- characters, at most six processes run, and the cursor is on the screen.
pub record IsShape (shown turn filled : ℕ) (kept : ℕ → ℕ) (mask : Mask) (x y : ℕ) : Type 0 where
  pub is_shown : shown < 3
  pub has_turn : turn < 3
  pub here : filled ≤ 128
  pub aside : (i : ℕ) → kept i ≤ 128
  pub few : pcb_total_number mask ≤ 6
  pub column : x < 80
  pub row : y < 25

pub record IsSound (m : Machine) : Type 0 where
  pub shape :
      IsShape m.cur_term_id m.now_term_id m.keyboard.key_buf_idx
        (λ i. (m.term i).key_buf_idx)
        m.pcb_mask
        m.console.screen_x
        m.console.screen_y

pub if-IsSound :
    (b : Bool) (m m' : Machine) → IsSound m → IsSound m' → IsSound (if b then m else m')
if-IsSound true m m' s s' = s
if-IsSound false m m' s s' = s'

-- A terminal changes, and its key buffer is still not too long.
pub set_term-IsSound :
    (i : ℕ) (f : Term → Term) (m : Machine)
    → (f (m.term i)).key_buf_idx ≤ 128
    → IsSound m
    → IsSound (set_term i f m)
set_term-IsSound i f m h s = record {
  shape = record {
    is_shown = s.shape.is_shown;
    has_turn = s.shape.has_turn;
    here = s.shape.here;
    aside = λ j. kept j (j == i);
    few = s.shape.few;
    column = s.shape.column;
    row = s.shape.row;
  };
}
  where
    kept : (j : ℕ) (b : Bool) → (if b then f (m.term i) else m.term j).key_buf_idx ≤ 128
    kept j true = h
    kept j false = s.shape.aside j

IsPrinting-IsSound : (m m' : Machine) → IsPrinting m m' → IsOnScreen m' → IsSound m → IsSound m'
IsPrinting-IsSound m m' p on s = subst IsSound (sym p) (record {
  shape = record {
    is_shown = s.shape.is_shown;
    has_turn = s.shape.has_turn;
    here = s.shape.here;
    aside = s.shape.aside;
    few = s.shape.few;
    column = on.column;
    row = on.row;
  };
})

pub set_screen_cursor-IsSound :
    (x y : ℕ) (m : Machine) → IsSound m → IsSound (set_screen_cursor x y m)
set_screen_cursor-IsSound x y m =
    IsPrinting-IsSound m _ (set_screen_cursor-IsPrinting x y m) (set_screen_cursor-IsOnScreen x y m)

pub enter-IsSound : (m : Machine) → IsSound m → IsSound (enter m)
enter-IsSound m = IsPrinting-IsSound m _ (enter-IsPrinting m) (enter-IsOnScreen m)

pub putc-IsSound : (c : ℕ) (m : Machine) → IsSound m → IsSound (putc c m)
putc-IsSound c m = IsPrinting-IsSound m _ (putc-IsPrinting c m) (putc-IsOnScreen c m)

erase_cell-IsSound : (m : Machine) → IsSound m → IsSound (erase_cell m)
erase_cell-IsSound m s = record { shape = s.shape }

pub backspace-IsSound : (m : Machine) → IsSound m → IsSound (backspace m)
unfolding backspace
backspace-IsSound m s =
    if-IsSound (not (m.console.screen_x == 0)) _ _
      (erase_cell-IsSound _
        (set_screen_cursor-IsSound (m.console.screen_x - 1) m.console.screen_y m s))
      (if-IsSound (not (m.console.screen_y == 0)) _ _
        (erase_cell-IsSound _
          (set_screen_cursor-IsSound (num_cols - 1) (m.console.screen_y - 1) m s))
        s)

pub clear-IsSound : (m : Machine) → IsSound m → IsSound (clear m)
unfolding clear
clear-IsSound m s = record { shape = s.shape }

-- The terminal whose turn it is changes, but not its key buffer.
turn_term-IsSound :
    (f : Term → Term) (m : Machine)
    → ((t : Term) → (f t).key_buf_idx ≡ t.key_buf_idx)
    → IsSound m
    → IsSound (set_now_term f m)
turn_term-IsSound f m same s =
    set_term-IsSound m.now_term_id f m
      (rw (same (m.term m.now_term_id)) (s.shape.aside m.now_term_id)) s

multi_scroll_up-IsSound : (m : Machine) → IsSound m → IsSound (multi_scroll_up m)
unfolding multi_scroll_up
multi_scroll_up-IsSound m s = record { shape = s.shape }

multi_place_cursor-IsSound :
    (x y : ℕ) (m : Machine) → IsSound m → IsSound (multi_place_cursor x y m)
unfolding multi_place_cursor
multi_place_cursor-IsSound x y m s =
    let moved = turn_term-IsSound (λ t. record t { cursor_x = x }) m (λ t. refl) s in
    if-IsSound (ltb y 25) _ _
      (turn_term-IsSound (λ t. record t { cursor_y = y }) _ (λ t. refl) moved)
      (turn_term-IsSound (λ t. record t { cursor_y = 24 }) _ (λ t. refl)
        (multi_scroll_up-IsSound _ moved))

multi_enter-IsSound : (m : Machine) → IsSound m → IsSound (multi_enter m)
unfolding multi_enter
multi_enter-IsSound m = multi_place_cursor-IsSound 0 ((now_term m).cursor_y + 1) m

multi_set_screen_cursor-IsSound :
    (x y : ℕ) (m : Machine) → IsSound m → IsSound (multi_set_screen_cursor x y m)
unfolding multi_set_screen_cursor
multi_set_screen_cursor-IsSound x y m s =
    if-IsSound (ltb x 80) _ _ (multi_place_cursor-IsSound x y m s) (multi_enter-IsSound m s)

multi_putc-IsSound : (c : ℕ) (m : Machine) → IsSound m → IsSound (multi_putc c m)
unfolding multi_putc
multi_putc-IsSound c m s = if-IsSound (c == b'\n' || c == b'\r') _ _ (multi_enter-IsSound m s) (
    multi_set_screen_cursor-IsSound _ _ _ (
      turn_term-IsSound (λ t. record t { cursor_x = t.cursor_x + 1 }) (set_mem (multi_write c m) m)
        (λ t. refl) (record { shape = s.shape })))

-- The invariant holds of the machine behind a call that ends with one.
abbrev pub Ok {ℓ} : {A : Type ℓ} → Option (A × Machine) → Type 0
Ok none = Unit {0}
Ok (some (z, m)) = IsSound m

Printed-Ok :
    (put : ℕ → Machine → Machine) (keep : (c : ℕ) (m : Machine) → IsSound m → IsSound (put c m))
    (r : Option (ℕ × Machine))
    → Printed put IsSound keep r
    → Ok r
Printed-Ok put keep none h = tt
Printed-Ok put keep (some (n, m)) h = h

pub printf-IsSound :
    (format : List ℕ) (args : List Arg) (m : Machine) → IsSound m → Ok (printf format args m)
unfolding printf
printf-IsSound format args m s =
    Printed-Ok putc putc-IsSound _ (print_with-keeps putc IsSound putc-IsSound format args m s)

pub multi_printf-IsSound :
    (format : List ℕ) (args : List Arg) (m : Machine) → IsSound m → Ok (multi_printf format args m)
unfolding multi_printf
multi_printf-IsSound format args m s =
    Printed-Ok multi_putc multi_putc-IsSound _
      (print_with-keeps multi_putc IsSound multi_putc-IsSound format args m s)

-- A message.
pub after_printf-IsSound :
    (m : Machine) (r : Option (ℕ × Machine)) → IsSound m → Ok r → IsSound (after_printf m r)
after_printf-IsSound m none s h = s
after_printf-IsSound m (some (n, m')) s h = h

pub term_save-IsSound : (id : ℕ) (m : Machine) → IsSound m → IsSound (term_save id m)
unfolding term_save
term_save-IsSound id m s = record {
  shape =
      (set_term-IsSound id
        (λ t. record t {
          key_buf = fill t.key_buf 0 m.keyboard.key_buf 128;
          key_buf_idx = m.keyboard.key_buf_idx;
          cursor_x = m.console.screen_x;
          cursor_y = m.console.screen_y;
        })
        m s.shape.here s).shape;
}

-- What must hold of a machine on which a terminal is put on the screen.
pub record IsIdle (m : Machine) : Type 0 where
  pub has_turn : m.now_term_id < 3
  pub aside : (i : ℕ) → (m.term i).key_buf_idx ≤ 128
  pub few : pcb_total_number m.pcb_mask ≤ 6

pub IsSound-IsIdle : (m : Machine) → IsSound m → IsIdle m
IsSound-IsIdle m s = record {
  has_turn = s.shape.has_turn;
  aside = s.shape.aside;
  few = s.shape.few;
}

-- The machine with which `term_restore` ends, from the one behind `set_screen_cursor`.
abbrev restored : ℕ → Machine → Machine
restored id m = record m { mem = memcpy 0xB8000 (m.term id).video_mem 4000 m.mem; cur_term_id = id }

pub term_restore-IsSound : (id : ℕ) (m : Machine) → id < 3 → IsIdle m → IsSound (term_restore id m)
unfolding term_restore
term_restore-IsSound id m h s =
    subst (λ x. IsSound (restored id x))
      (sym (set_screen_cursor-IsPrinting t.cursor_x t.cursor_y m1))
      (record {
        shape = record {
          is_shown = h;
          has_turn = s.has_turn;
          here = s.aside id;
          aside = s.aside;
          few = s.few;
          column = on.column;
          row = on.row;
        };
      })
  where
    t : Term
    t = m.term id

    m1 : Machine
    m1 = record m {
      keyboard = record (m.keyboard) {
        key_buf = fill m.keyboard.key_buf 0 t.key_buf 128;
        key_buf_idx = t.key_buf_idx;
      };
    }

    on : IsOnScreen (set_screen_cursor t.cursor_x t.cursor_y m1)
    on = set_screen_cursor-IsOnScreen t.cursor_x t.cursor_y m1

pub term_switch-IsSound :
    (old_id new_id : ℕ) (m : Machine)
    → new_id < 3
    → IsSound m
    → IsSound (term_switch old_id new_id m)
unfolding term_switch
term_switch-IsSound old_id new_id m h s =
    term_restore-IsSound new_id (term_save old_id m) h
      (IsSound-IsIdle (term_save old_id m) (term_save-IsSound old_id m s))
