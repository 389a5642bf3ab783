-- ===== src/Keyboard.antt =====
-- student-distrib/keyboard.c and keyboard.h: the keyboard interrupt. Letters go to the key buffer and to the
-- screen; the other keys change the state, switch terminals or stop a program.
pub mod Keys
pub mod Scancodes
mod Tests
use linux_like_os_kernel.Prelude.{
  ℕ, zero, suc, ◌+◌, ◌-◌, ◌*◌, ◌/◌, ◌%◌, Bool, true, false, ◌&&◌, ◌||◌, not, ltb, leb, ◌==◌,
  if◌then◌else◌, pos, bit_and, bit_or, bit_xor, update, List, [], ◌∷◌, get_or,
}
use linux_like_os_kernel.Machine.{Machine, Keyboard, set_term, key_buf_max}
use linux_like_os_kernel.Pic.{enable_irq, send_eoi}
use linux_like_os_kernel.Console.{enter, backspace, clear, set_screen_cursor, putc}
use linux_like_os_kernel.Terminal.{set_keyboard, buf_clear, term_switch}
use linux_like_os_kernel.Process.{Outcome, returned, Frame}
use linux_like_os_kernel.Halt.{halt}
use Scancodes.{scancode_map}

unfoldable pub keyboard_init : Machine → Machine
keyboard_init = enable_irq 1

-- `case ENTER`
unfoldable pub enter_key : Machine → Machine
enter_key m =
    let k = m.keyboard in
    if ltb k.key_buf_idx key_buf_max
    then enter (
        set_term m.cur_term_id (λ t. record t { enter_state = 1 })
          (set_keyboard
            (λ k. record k {
              key_buf = update k.key_buf k.key_buf_idx b'\n';
              key_buf_idx = k.key_buf_idx + 1;
            })
            m))
    else m

-- `case BACKSPACE`
unfoldable pub backspace_key : Machine → Machine
backspace_key m =
    if ltb 0 m.keyboard.key_buf_idx
    then set_keyboard
        (λ k. record k {
          key_buf_idx = k.key_buf_idx - 1;
          key_buf = update k.key_buf (k.key_buf_idx - 1) 0;
        })
        (backspace m)
    else m

-- The last branch of `default`: a character for the line.
unfoldable pub letter_key : ℕ → Machine → Machine
letter_key key m =
    if ltb m.keyboard.key_buf_idx (key_buf_max - 1)
    then putc key (
        set_keyboard
          (λ k. record k {
            key_buf = update k.key_buf k.key_buf_idx key;
            key_buf_idx = k.key_buf_idx + 1;
          })
          m)
    else m

-- A letter with control held down.
unfoldable pub control_key : ℕ → Machine → Machine
control_key key m =
    if key == b'l' || key == b'L'
    then set_screen_cursor 0 0 (clear m)
    else if key == b'c' || key == b'C'
    then buf_clear (set_keyboard (λ k. record k { ctrl_c_flag = 1 }) m)
    else m

-- `default`
unfoldable pub default_key : ℕ → Machine → Machine
default_key code m =
    if leb 59 code
    then m
    else (let key = scancode_map m.keyboard.scancode_state code in
        if key == 0
        then m
        else if m.keyboard.alt_state == 1
        then m
        else if m.keyboard.ctrl_state == 1
        then control_key key m
        else letter_key key m)

-- `case F1` to `case F3`
unfoldable pub function_key : ℕ → Machine → Machine
function_key id m = if m.keyboard.alt_state == 0 then m else term_switch m.cur_term_id id m

-- The switch on the scancode.
unfoldable pub press : ℕ → Machine → Machine
press code m =
    if code == 0x3A
    then set_keyboard (λ k. record k { scancode_state = bit_xor k.scancode_state 0x02 }) m
    else if code == 0x2A || code == 0x36
    then set_keyboard (λ k. record k { scancode_state = bit_or k.scancode_state 0x01 }) m
    else if code == 0xAA || code == 0xB6
    then set_keyboard (λ k. record k { scancode_state = bit_and k.scancode_state 0xFE }) m
    else if code == 0x1D
    then set_keyboard (λ k. record k { ctrl_state = 1 }) m
    else if code == 0x9D
    then set_keyboard (λ k. record k { ctrl_state = 0 }) m
    else if code == 0x38
    then set_keyboard (λ k. record k { alt_state = 1 }) m
    else if code == 0xB8
    then set_keyboard (λ k. record k { alt_state = 0 }) m
    else if code == 0x1C
    then enter_key m
    else if code == 0x0E
    then backspace_key m
    else if code == 0x3B
    then function_key 0 m
    else if code == 0x3C
    then function_key 1 m
    else if code == 0x3D
    then function_key 2 m
    else default_key code m

-- `scancode_idx` is the byte that the port gives. `frame` is for a `halt` that starts a shell.
unfoldable pub keyboard_interrupt_handler : Frame → ℕ → Machine → Outcome
keyboard_interrupt_handler frame scancode_idx m =
    let m1 = set_keyboard (λ k. record k { keyboard_enabled = 1; ctrl_c_flag = 0 }) m in
    let m2 = press scancode_idx m1 in
    let m3 = send_eoi 1 (set_keyboard (λ k. record k { keyboard_enabled = 0 }) m2) in
    if m3.keyboard.ctrl_c_flag == 0 then returned (pos 0) m3 else halt frame 1 m3
