-- ===== src/Kernel/Keys.antt =====
-- student-distrib/keyboard.c and rtc.c: a key and a tick of the clock keep the kernel's invariant.
use linux_like_os_kernel.Prelude.{
  ℕ, zero, suc, ◌<◌, ◌≤◌, ◌||◌, ltb, leb, ◌==◌, inl, inr, arith, Bool-cases,
}
use linux_like_os_kernel.Machine.{Machine, Keyboard}
use linux_like_os_kernel.Pic.{send_eoi}
use linux_like_os_kernel.Rtc.{tick_terms, rtc_interrupt_handler}
use linux_like_os_kernel.Console.{backspace, clear}
use linux_like_os_kernel.Terminal.{buf_clear}
use linux_like_os_kernel.Keyboard.{
  enter_key, backspace_key, letter_key, control_key, default_key, function_key, press,
}
use linux_like_os_kernel.Keyboard.Keys.{press-keeps}
use linux_like_os_kernel.Keyboard.Scancodes.{scancode_map}
use linux_like_os_kernel.Kernel.Sound.{
  IsSound, if-IsSound, set_term-IsSound, enter-IsSound, backspace-IsSound, putc-IsSound,
  clear-IsSound, set_screen_cursor-IsSound, term_switch-IsSound,
}

-- The keyboard's state changes, and its key buffer is still not too long.
pub keyboard-IsSound :
    (k : Keyboard) (m : Machine)
    → k.key_buf_idx ≤ 128
    → IsSound m
    → IsSound (record m { keyboard = k })
keyboard-IsSound k m h s = record {
  shape = record {
    is_shown = s.shape.is_shown;
    has_turn = s.shape.has_turn;
    here = h;
    aside = s.shape.aside;
    few = s.shape.few;
    column = s.shape.column;
    row = s.shape.row;
  };
}

pub buf_clear-IsSound : (m : Machine) → IsSound m → IsSound (buf_clear m)
unfolding buf_clear
buf_clear-IsSound m s = keyboard-IsSound _ m (omega arith) s

enter_key-IsSound : (m : Machine) → IsSound m → IsSound (enter_key m)
unfolding enter_key
enter_key-IsSound m s = elim (Bool-cases (ltb m.keyboard.key_buf_idx 128)) [
  | inl e ↦ rw e (
      enter-IsSound _ (
        set_term-IsSound m.cur_term_id (λ t. record t { enter_state = 1 }) _
          (s.shape.aside m.cur_term_id) (keyboard-IsSound _ m (ground arith) s)))
  | inr e ↦ rw e s
]

backspace_key-IsSound : (m : Machine) → IsSound m → IsSound (backspace_key m)
unfolding backspace_key
backspace_key-IsSound m s =
    let r = backspace-IsSound m s in
    if-IsSound (ltb 0 m.keyboard.key_buf_idx) _ _
      (keyboard-IsSound _ (backspace m) (omega (arith, r.shape.here)) r) s

letter_key-IsSound : (key : ℕ) (m : Machine) → IsSound m → IsSound (letter_key key m)
unfolding letter_key
letter_key-IsSound key m s = elim (Bool-cases (ltb m.keyboard.key_buf_idx 127)) [
  | inl e ↦ rw e (putc-IsSound key _ (keyboard-IsSound _ m (ground arith) s))
  | inr e ↦ rw e s
]

control_key-IsSound : (key : ℕ) (m : Machine) → IsSound m → IsSound (control_key key m)
unfolding control_key
control_key-IsSound key m s =
    if-IsSound (key == b'l' || key == b'L') _ _
      (set_screen_cursor-IsSound 0 0 (clear m) (clear-IsSound m s))
      (if-IsSound (key == b'c' || key == b'C') _ _
        (buf_clear-IsSound _ (keyboard-IsSound _ m s.shape.here s)) s)

default_key-IsSound : (code : ℕ) (m : Machine) → IsSound m → IsSound (default_key code m)
unfolding default_key
default_key-IsSound code m s =
    let key = scancode_map m.keyboard.scancode_state code in
    if-IsSound (leb 59 code) _ _ s (
      if-IsSound (key == 0) _ _ s (
        if-IsSound (m.keyboard.alt_state == 1) _ _ s (
          if-IsSound (m.keyboard.ctrl_state == 1) _ _ (control_key-IsSound key m s)
            (letter_key-IsSound key m s))))

function_key-IsSound : (id : ℕ) (m : Machine) → id < 3 → IsSound m → IsSound (function_key id m)
unfolding function_key
function_key-IsSound id m h s =
    if-IsSound (m.keyboard.alt_state == 0) _ _ s (term_switch-IsSound m.cur_term_id id m h s)

pub press-IsSound : (code : ℕ) (m : Machine) → IsSound m → IsSound (press code m)
press-IsSound code m s =
    press-keeps IsSound code m (λ k e. keyboard-IsSound k m (rw e s.shape.here) s)
      (enter_key-IsSound m s) (backspace_key-IsSound m s) (λ id h. function_key-IsSound id m h s)
      (default_key-IsSound code m s)

-- Only the ports change.
pub send_eoi-IsSound : (irq_num : ℕ) (m : Machine) → IsSound m → IsSound (send_eoi irq_num m)
unfolding send_eoi
send_eoi-IsSound irq_num m s =
    if-IsSound (ltb 15 irq_num) _ _ s
      (if-IsSound (ltb irq_num 8) _ _ (record { shape = s.shape }) (record { shape = s.shape }))

tick_terms-IsSound : (n : ℕ) (m : Machine) → IsSound m → IsSound (tick_terms n m)
unfolding tick_terms
tick_terms-IsSound zero m s = s
tick_terms-IsSound (suc n) m s = record { shape = (tick_terms-IsSound n m s).shape }

pub rtc_interrupt_handler-IsSound : (m : Machine) → IsSound m → IsSound (rtc_interrupt_handler m)
unfolding rtc_interrupt_handler
rtc_interrupt_handler-IsSound m s = record {
  shape = (tick_terms-IsSound 3 (send_eoi 8 m) (send_eoi-IsSound 8 m s)).shape;
}
