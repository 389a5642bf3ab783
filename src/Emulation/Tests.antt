-- ===== src/Emulation/Tests.antt =====
-- syscalls/ece391emulate.c: two arguments, joined.
use linux_like_os_kernel.Prelude.{ℕ, List, [], ◌∷◌, ascii, arith, refl}
use linux_like_os_kernel.Machine.{Memory}
use linux_like_os_kernel.Fixtures.{no_memory}
use linux_like_os_kernel.Programs.System.{put}
use linux_like_os_kernel.Emulation.{emulate_getargs}
use linux_like_os_kernel.Emulation.Arguments.{joined, addresses, IsJoined, emulate_getargs_lem}

abbrev argv : List (ℕ × List ℕ)
argv = (6000, ascii "very") ∷ (6100, ascii "long") ∷ []

abbrev stack : Memory
stack = put 6000 (ascii "very") (put 6100 (ascii "long") no_memory)

emulate_getargs_lem_example :
    IsJoined stack 5000 32 (joined argv) (emulate_getargs (addresses argv) 5000 32 stack)
emulate_getargs_lem_example = emulate_getargs_lem argv 5000 32 stack (
  omega arith,
  omega arith,
  (refl, omega arith, (refl, omega arith, (refl, omega arith, (refl, omega arith, refl)))),
  (
    omega arith,
    omega arith,
    (refl, omega arith, (refl, omega arith, (refl, omega arith, (refl, omega arith, refl)))),
    tt,
  ),
)
