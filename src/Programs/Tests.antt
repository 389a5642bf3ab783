-- ===== src/Programs/Tests.antt =====
-- syscalls/: `cat` of a file with two characters, `ls` of two names, and the support functions on a string.
use linux_like_os_kernel.Prelude.{is_zero, pos, some, [], ◌∷◌, ascii, ◌≡◌, refl, arith}
use linux_like_os_kernel.Fixtures.{no_memory, word}
use linux_like_os_kernel.CString.{strlen, strcpy, strrev, itoa, strncmp}
use linux_like_os_kernel.CString.Strings.{IsBytes}
use linux_like_os_kernel.Programs.{
  cat_main, ece391_strlen, ece391_strcpy, ece391_strrev, ece391_itoa, ece391_strncmp,
}
use linux_like_os_kernel.Programs.Cat.{IsText, cat_main_lem}
use linux_like_os_kernel.Programs.Listing.{Directory}
use linux_like_os_kernel.Programs.Support.{support_lem}
use linux_like_os_kernel.Programs.System.{World, one_file, At, one_file-IsServing}

abbrev started : World
started = record { mem = no_memory; rest = ascii "hi"; out = [] }

hi-IsText : IsText (ascii "hi")
hi-IsText = (
  (λ e. absurd (omega arith)),
  (λ e. absurd (omega arith)),
  ((λ e. absurd (omega arith)), (λ e. absurd (omega arith)), tt),
)

cat_main_lem_example :
    (w : World) × (cat_main one_file 3 5000 started ≡ some (0, w)) × At [] (ascii "hi") w
cat_main_lem_example =
    cat_main_lem one_file (pos 2) 5000 At one_file-IsServing 3 (ascii "hi") [] started (omega arith)
      hi-IsText refl refl refl (refl, refl)

word-IsBytes : IsBytes word
word-IsBytes a = ground arith

support_lem_example :
    (ece391_strlen word 10 ≡ strlen word 10)
    × (ece391_strcpy 20 10 word ≡ strcpy 20 10 word)
    × (ece391_strrev 10 word ≡ strrev 10 word)
    × (ece391_itoa 255 10 16 word ≡ itoa 255 10 16 word)
    × (is_zero (ece391_strncmp word 20 10 3) ≡ is_zero (strncmp word 20 10 3))
support_lem_example = support_lem 20 10 255 16 3 word word-IsBytes

abbrev home : Directory
home = record { mem = no_memory; names = ascii "cat" ∷ ascii "ls" ∷ []; out = [] }
