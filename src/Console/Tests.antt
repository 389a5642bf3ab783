-- ===== src/Console/Tests.antt =====
-- student-distrib/lib.c: the screen of a machine with the cursor at its last cell.
use linux_like_os_kernel.Prelude.{ℕ, ◌+◌, ◌*◌, List, [], ◌∷◌, ◌≡◌, arith}
use linux_like_os_kernel.Fixtures.{boot}
use linux_like_os_kernel.Console.{attrib, puts, backspace, now_term, multi_putc, cursor_cell}
use linux_like_os_kernel.Console.Cursor.{
  IsOnScreen, shown, Grid_put_all, Grid_backspace, puts_refines, backspace_refines,
}
use linux_like_os_kernel.Console.Background.{kept_cell, multi_putc_colours}

boot-IsOnScreen : IsOnScreen boot
boot-IsOnScreen = record { column = omega arith; row = omega arith }

abbrev hello : List ℕ
hello = b'h' ∷ b'i' ∷ b'\n' ∷ []

puts_refines_example :
    (shown (puts hello boot) ≡ Grid_put_all (attrib 0) hello (shown boot))
    × IsOnScreen (puts hello boot)
puts_refines_example = puts_refines hello boot boot-IsOnScreen

backspace_refines_example : shown (backspace boot) ≡ Grid_backspace (attrib 0) (shown boot)
backspace_refines_example = backspace_refines boot boot-IsOnScreen

multi_putc_colours_example :
    ((multi_putc b'a' boot).mem (kept_cell boot) ≡ b'a')
    × ((multi_putc b'a' boot).mem (kept_cell boot + 1) ≡ boot.mem (kept_cell boot + 1))
    × ((multi_putc b'a' boot).mem (boot.console.video_mem + cursor_cell boot * 2 + 1) ≡ attrib 0)
    × ((now_term (multi_putc b'a' boot)).cursor_x ≡ (now_term boot).cursor_x + 1)
multi_putc_colours_example =
    multi_putc_colours b'a' boot (omega arith) (omega arith) (omega arith) (omega arith)
      (omega arith) (omega arith)
