-- ===== src/Keyboard/Tests.antt =====
-- student-distrib/keyboard.c: a key on a machine with a full key buffer.
use linux_like_os_kernel.Prelude.{arith}
use linux_like_os_kernel.Machine.{Machine}
use linux_like_os_kernel.Fixtures.{boot}
use linux_like_os_kernel.Keyboard.Keys.{IsFilled}

abbrev full : Machine
full = record boot { keyboard = record (boot.keyboard) { key_buf_idx = 128 } }

full-IsFilled : IsFilled full
full-IsFilled = record { here = omega arith; kept = λ i. omega arith }
