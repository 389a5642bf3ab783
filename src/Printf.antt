-- ===== src/Printf.antt =====
-- student-distrib/lib.c: `printf` and `multi_printf`, which differ in the function that puts a character.
-- A format is the list of its characters up to the terminator, and each variable argument is a word
-- or the string that a pointer argument points to.
pub mod Plain
pub mod Hexadecimal
pub mod Frame
pub mod Fitting
pub mod Bounds
mod Tests
use linux_like_os_kernel.Prelude.{
  ℕ, zero, suc, ◌+◌, ◌-◌, ◌^◌, Bool, true, false, ltb, leb, ◌==◌, if◌then◌else◌, update, fill,
  Option, none, some, List, [], ◌∷◌, length,
}
use linux_like_os_kernel.Machine.{Memory, Machine, u8}
use linux_like_os_kernel.CString.{strlen, itoa}
use linux_like_os_kernel.Console.{put_all, putc, multi_putc}

pub data Arg : Type 0 where
  word : ℕ → Arg
  text : List ℕ → Arg

-- Where the loop stands: at a plain character, or behind a '%', with the flag `alternate`.
pub data Mode : Type 0 where
  plain : Mode
  spec : Bool → Mode

-- The characters of the string at `p`, up to `fuel` of them.
unfoldable pub chars : ℕ → Memory → ℕ → List ℕ
chars zero m p = []
chars (suc fuel) m p = elim (m p == 0) [ true ↦ [] | false ↦ m p ∷ chars fuel m (p + 1) ]

-- A local `conv_buf`, of at most 64 bytes; what it holds at first is never read.
abbrev pub conv_size : ℕ
conv_size = 64

abbrev pub fresh_buf : Memory
fresh_buf = λ a. 0

-- `itoa(value, conv_buf, radix)`
unfoldable pub numeral : ℕ → ℕ → List ℕ
unfolding chars itoa
numeral value radix = chars conv_size (itoa value 0 radix fresh_buf) 0

-- The digits at `&conv_buf[8]`, with zeros in front from `starting_index` to 7.
unfoldable pub padded_numeral : ℕ → List ℕ
unfolding chars itoa strlen
padded_numeral value =
    let conv_buf : Memory = itoa value 8 16 fresh_buf in
    let starting_index : ℕ = strlen conv_buf 8 in
    chars conv_size (fill conv_buf starting_index (λ i. b'0') (8 - starting_index)) starting_index

unfoldable pub signed_numeral : ℕ → List ℕ
unfolding numeral
signed_numeral value =
    if ltb value (2 ^ 31) then numeral value 10 else b'-' ∷ numeral (2 ^ 32 - value) 10

-- What is left to print after a character: the mode, the arguments and the machine.
abbrev pub Rest : Type 0
Rest = Mode × List Arg × Machine

module _ (put : ℕ → Machine → Machine) where
  -- A conversion that takes a word. A missing argument, or a string in its place, is read from
  -- whatever stands on the stack, which the model counts as a fault.
  abbrev pub with_word : (ℕ → Machine → Machine) → List Arg → Machine → Option Rest
  with_word f [] m = none
  with_word f (word w ∷ args) m = some (plain, args, f w m)
  with_word f (text s ∷ args) m = none

  abbrev pub with_text : (List ℕ → Machine → Machine) → List Arg → Machine → Option Rest
  with_text f [] m = none
  with_text f (word w ∷ args) m = none
  with_text f (text s ∷ args) m = some (plain, args, f s m)

  -- The switch at `format_char_switch`, at the character `c`.
  unfoldable pub conversion : Bool → ℕ → List Arg → Machine → Option Rest
  conversion alternate c args m =
      if c == b'%'
      then some (plain, args, put b'%' m)
      else if c == b'#'
      then some (spec true, args, m)
      else if c == b'x'
      then with_word (λ w. put_all put (if alternate then padded_numeral w else numeral w 16)) args
          m
      else if c == b'u'
      then with_word (λ w. put_all put (numeral w 10)) args m
      else if c == b'd'
      then with_word (λ w. put_all put (signed_numeral w)) args m
      else if c == b'c'
      then with_word (λ w. put (u8 w)) args m
      else if c == b's'
      then with_text (put_all put) args m
      else some (plain, args, m)

  unfoldable pub print_char : Mode → ℕ → List Arg → Machine → Option Rest
  unfolding conversion
  print_char plain c args m =
      if c == b'%' then some (spec false, args, m) else some (plain, args, put c m)
  print_char (spec alternate) c args m = conversion alternate c args m

  -- The loop over the format. A '%' at its end makes the code read on behind the terminator, a fault.
  unfoldable pub print_all : Mode → List ℕ → List Arg → Machine → Option Machine
  print_all plain [] args m = some m
  print_all (spec alternate) [] args m = none
  print_all mode (c ∷ format) args m = elim (print_char mode c args m) [
    | none ↦ none
    | some (mode', args', m') ↦ print_all mode' format args' m'
  ]

  -- The result is `buf - format`, the length of the format.
  unfoldable pub print_with : List ℕ → List Arg → Machine → Option (ℕ × Machine)
  print_with format args m = elim (print_all plain format args m) [
    | none ↦ none
    | some m' ↦ some (length format, m')
  ]

unfoldable pub printf : List ℕ → List Arg → Machine → Option (ℕ × Machine)
printf = print_with putc

unfoldable pub multi_printf : List ℕ → List Arg → Machine → Option (ℕ × Machine)
multi_printf = print_with multi_putc
