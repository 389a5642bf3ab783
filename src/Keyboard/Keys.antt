-- ===== src/Keyboard/Keys.antt =====
-- student-distrib/keyboard.c: the length of the key buffer under each key.
use linux_like_os_kernel.Prelude.{
  ℕ, ◌≤◌, ◌<◌, refl, Bool, true, false, ◌||◌, ltb, leb, ◌==◌, if◌then◌else◌, fill, ◌≡◌, inl, inr,
  arith, Bool-cases,
}
use linux_like_os_kernel.Machine.{Machine, Keyboard}
use linux_like_os_kernel.Console.{
  enter, backspace, clear, set_screen_cursor, putc, place_cursor, scroll_up,
}
use linux_like_os_kernel.Terminal.{buf_clear, term_switch, term_save, term_restore}
use linux_like_os_kernel.Keyboard.Scancodes.{scancode_map}
use linux_like_os_kernel.Keyboard.{
  enter_key, backspace_key, letter_key, control_key, default_key, function_key, press,
}

-- The key buffer and those that are kept for the terminals hold at most 128 characters.
pub record IsFilled (m : Machine) : Type 0 where
  pub here : m.keyboard.key_buf_idx ≤ 128
  pub kept : (i : ℕ) → (m.term i).key_buf_idx ≤ 128

-- The screen's functions change neither the keyboard's state nor the terminals'.
record Keeps (m m' : Machine) : Type 0 where
  keyboard : m'.keyboard ≡ m.keyboard
  term : m'.term ≡ m.term

set_screen_cursor-Keeps : (x y : ℕ) (m : Machine) → Keeps m (set_screen_cursor x y m)
unfolding set_screen_cursor enter place_cursor scroll_up
set_screen_cursor-Keeps x y m = record { keyboard = ground arith; term = ground arith }

enter-Keeps : (m : Machine) → Keeps m (enter m)
unfolding enter place_cursor scroll_up
enter-Keeps m = record { keyboard = ground arith; term = ground arith }

putc-Keeps : (c : ℕ) (m : Machine) → Keeps m (putc c m)
unfolding putc set_screen_cursor enter place_cursor scroll_up
putc-Keeps c m = record { keyboard = ground arith; term = ground arith }

backspace-Keeps : (m : Machine) → Keeps m (backspace m)
unfolding backspace set_screen_cursor enter place_cursor scroll_up
backspace-Keeps m = record { keyboard = ground arith; term = ground arith }

IsFilled-Keeps : (m m' : Machine) → IsFilled m → Keeps m m' → IsFilled m'
IsFilled-Keeps m m' f k = record { here = rw k.keyboard f.here; kept = λ i. rw k.term (f.kept i) }

enter_key-IsFilled : (m : Machine) → IsFilled m → IsFilled (enter_key m)
unfolding enter_key
enter_key-IsFilled m f = elim (Bool-cases (ltb m.keyboard.key_buf_idx 128)) [
  | inl e ↦ rw e (
      IsFilled-Keeps _ _
        (record { here = ground arith; kept = λ i. ground (arith, f.kept i, f.kept m.cur_term_id) })
        (enter-Keeps _))
  | inr e ↦ rw e f
]

backspace_key-IsFilled : (m : Machine) → IsFilled m → IsFilled (backspace_key m)
unfolding backspace_key
backspace_key-IsFilled m f = elim (Bool-cases (ltb 0 m.keyboard.key_buf_idx)) [
  | inl e ↦ rw e (
      let k = IsFilled-Keeps m (backspace m) f (backspace-Keeps m) in
      record { here = omega (arith, k.here); kept = k.kept })
  | inr e ↦ rw e f
]

letter_key-IsFilled : (key : ℕ) (m : Machine) → IsFilled m → IsFilled (letter_key key m)
unfolding letter_key
letter_key-IsFilled key m f = elim (Bool-cases (ltb m.keyboard.key_buf_idx 127)) [
  | inl e ↦
      rw e (IsFilled-Keeps _ _ (record { here = ground arith; kept = f.kept }) (putc-Keeps key _))
  | inr e ↦ rw e f
]

control_key-IsFilled : (key : ℕ) (m : Machine) → IsFilled m → IsFilled (control_key key m)
unfolding control_key buf_clear clear
control_key-IsFilled key m f = elim (Bool-cases (key == b'l' || key == b'L')) [
  | inl e ↦
      rw e (
        IsFilled-Keeps _ _ (record { here = f.here; kept = f.kept })
          (set_screen_cursor-Keeps 0 0 _))
  | inr e ↦ elim (Bool-cases (key == b'c' || key == b'C')) [
    | inl e' ↦ rw (e, e') (record { here = omega arith; kept = f.kept })
    | inr e' ↦ rw (e, e') f
  ]
]

if-IsFilled : (b : Bool) (x y : Machine) → IsFilled x → IsFilled y → IsFilled (if b then x else y)
if-IsFilled true x y f g = f
if-IsFilled false x y f g = g

default_key-IsFilled : (code : ℕ) (m : Machine) → IsFilled m → IsFilled (default_key code m)
unfolding default_key
default_key-IsFilled code m f =
    let key = scancode_map m.keyboard.scancode_state code in
    if-IsFilled (leb 59 code) _ _ f (
      if-IsFilled (key == 0) _ _ f (
        if-IsFilled (m.keyboard.alt_state == 1) _ _ f (
          if-IsFilled (m.keyboard.ctrl_state == 1) _ _ (control_key-IsFilled key m f)
            (letter_key-IsFilled key m f))))

term_save-IsFilled : (id : ℕ) (m : Machine) → IsFilled m → IsFilled (term_save id m)
unfolding term_save
term_save-IsFilled id m f = record { here = f.here; kept = λ i. ground (arith, f.kept i, f.here) }

term_restore-IsFilled : (id : ℕ) (m : Machine) → IsFilled m → IsFilled (term_restore id m)
unfolding term_restore
term_restore-IsFilled id m f =
    let k =
      IsFilled-Keeps _ _ (record { here = f.kept id; kept = f.kept })
        (set_screen_cursor-Keeps (m.term id).cursor_x (m.term id).cursor_y (record m {
          keyboard = record (m.keyboard) {
            key_buf = fill m.keyboard.key_buf 0 (m.term id).key_buf 128;
            key_buf_idx = (m.term id).key_buf_idx;
          };
        })) in
    record { here = k.here; kept = k.kept }

function_key-IsFilled : (id : ℕ) (m : Machine) → IsFilled m → IsFilled (function_key id m)
unfolding function_key term_switch
function_key-IsFilled id m f = elim (Bool-cases (m.keyboard.alt_state == 0)) [
  | inl e ↦ rw e f
  | inr e ↦
      rw e (
        term_restore-IsFilled id (term_save m.cur_term_id m) (term_save-IsFilled m.cur_term_id m f))
]

if-keeps : (P : Machine → Type 0) (b : Bool) (m m' : Machine) → P m → P m' → P (if b then m else m')
if-keeps P true m m' p q = p
if-keeps P false m m' p q = q

-- What holds behind each kind of key holds behind `press`.
pub press-keeps :
    (P : Machine → Type 0) (code : ℕ) (m : Machine)
    → ((k : Keyboard) → k.key_buf_idx ≡ m.keyboard.key_buf_idx → P (record m { keyboard = k }))
    → P (enter_key m)
    → P (backspace_key m)
    → ((id : ℕ) → id < 3 → P (function_key id m))
    → P (default_key code m)
    → P (press code m)
unfolding press
press-keeps P code m flags enters erases switches types =
    if-keeps P (code == 0x3A) _ _ (flags _ refl) (
      if-keeps P (code == 0x2A || code == 0x36) _ _ (flags _ refl) (
        if-keeps P (code == 0xAA || code == 0xB6) _ _ (flags _ refl) (
          if-keeps P (code == 0x1D) _ _ (flags _ refl) (
            if-keeps P (code == 0x9D) _ _ (flags _ refl) (
              if-keeps P (code == 0x38) _ _ (flags _ refl) (
                if-keeps P (code == 0xB8) _ _ (flags _ refl) (
                  if-keeps P (code == 0x1C) _ _ enters (
                    if-keeps P (code == 0x0E) _ _ erases (
                      if-keeps P (code == 0x3B) _ _ (switches 0 (omega arith)) (
                        if-keeps P (code == 0x3C) _ _ (switches 1 (omega arith))
                          (if-keeps P (code == 0x3D) _ _ (switches 2 (omega arith)) types)))))))))))

-- Whatever byte the keyboard sends, the key buffer and the buffers that are kept for the terminals
-- still hold at most 128 characters each afterwards, if they did before.
pub press-IsFilled : (code : ℕ) (m : Machine) → IsFilled m → IsFilled (press code m)
press-IsFilled code m f =
    press-keeps IsFilled code m (λ g e. record { here = rw e f.here; kept = f.kept })
      (enter_key-IsFilled m f) (backspace_key-IsFilled m f) (λ id h. function_key-IsFilled id m f)
      (default_key-IsFilled code m f)
