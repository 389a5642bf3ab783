-- ===== src/CString/Tests.antt =====
-- student-distrib/lib.c: the functions on strings and memory on concrete bytes.
use linux_like_os_kernel.Prelude.{pos, ◌≡◌, ◌↔◌, arith, refl}
use linux_like_os_kernel.Fixtures.{no_memory, word, image}
use linux_like_os_kernel.CString.{strncmp, memcpy, itoa}
use linux_like_os_kernel.CString.Strings.{IsString, IsBytes, Agree, strncmp_iff}
use linux_like_os_kernel.CString.Copy.{copied, memcpy_lem}
use linux_like_os_kernel.CString.Digits.{IsNumeral, itoa-IsNumeral}

word-IsString : IsString word 10 2
word-IsString = record { nonzero = λ i h. ground arith; ends = refl }

image-IsBytes : IsBytes image
image-IsBytes a = ground arith

strncmp_iff_example : (strncmp image 10 64 3 ≡ pos 0) ↔ Agree image 10 64 0 3
strncmp_iff_example = strncmp_iff image 10 64 3 image-IsBytes

memcpy_lem_example : memcpy 21 10 6 word 22 ≡ copied word 21 10 6 22
memcpy_lem_example = memcpy_lem 21 10 6 word (omega arith) 22

itoa-IsNumeral_example : IsNumeral no_memory (itoa 255 50 16 no_memory) 50 16 255 8
itoa-IsNumeral_example =
    itoa-IsNumeral 255 50 16 8 no_memory (omega arith) (omega arith) (omega arith) (omega arith)
      (omega arith)
