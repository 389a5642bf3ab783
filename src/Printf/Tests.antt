-- ===== src/Printf/Tests.antt =====
-- student-distrib/lib.c: `printf` and its digits on concrete arguments.
use linux_like_os_kernel.Prelude.{length, refl, true, some, [], ◌∷◌, ascii, ◌≡◌, arith}
use linux_like_os_kernel.Machine.{Machine}
use linux_like_os_kernel.Fixtures.{boot}
use linux_like_os_kernel.Console.Cursor.{IsOnScreen}
use linux_like_os_kernel.Printf.{word, plain, printf, padded_numeral}
use linux_like_os_kernel.Printf.Bounds.{IsConfined, printf-IsConfined}
use linux_like_os_kernel.Printf.Fitting.{fits}
use linux_like_os_kernel.Printf.Hexadecimal.{AreDigits, value_from, padded_numeral_lem}

padded_numeral_lem_example :
    (length (padded_numeral 255) ≡ 8)
    × AreDigits 16 (padded_numeral 255)
    × (value_from 16 0 (padded_numeral 255) ≡ 255)
padded_numeral_lem_example = padded_numeral_lem 255 (omega arith)

boot-IsOnScreen : IsOnScreen boot
boot-IsOnScreen = record { column = omega arith; row = omega arith }

fitting : fits plain (ascii "%d\n") (word 5 ∷ []) ≡ true
unfolding fits
fitting = refl

printf-IsConfined_example :
    (m' : Machine) × (printf (ascii "%d\n") (word 5 ∷ []) boot ≡ some (3, m')) × IsConfined boot m'
printf-IsConfined_example =
    printf-IsConfined (ascii "%d\n") (word 5 ∷ []) boot fitting boot-IsOnScreen
