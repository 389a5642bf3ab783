-- ===== src/Pic/Tests.antt =====
-- student-distrib/i8259.c: the masks on a machine where every line is masked.
use linux_like_os_kernel.Prelude.{true, ◌==◌, if◌then◌else◌, ◌≡◌, arith}
use linux_like_os_kernel.Fixtures.{boot}
use linux_like_os_kernel.Pic.{disable_irq}
use linux_like_os_kernel.Pic.Masks.{IsValid, is_masked, is_masked-disable_irq, same_controller}

boot-IsValid : IsValid boot
boot-IsValid = record { master_byte = omega arith; slave_byte = omega arith }

is_masked-disable_irq_example :
    (is_masked (disable_irq 1 boot) 3 ≡ (
      if 3 == 1 then is_masked boot 3 else if same_controller 1 3 then true else is_masked boot 3))
    × IsValid (disable_irq 1 boot)
is_masked-disable_irq_example =
    is_masked-disable_irq boot 1 3 boot-IsValid (omega arith) (omega arith)
