-- ===== src/Files/Tests.antt =====
-- student-distrib/system_call.c: `open` and `close` of the file "ls".
use linux_like_os_kernel.Prelude.{
  ℕ, ◌<◌, ◌≤◌, pos, negsuc, failure, Option, some, update, ◌≡◌, ◌≢◌, ◌⊎◌, arith, refl,
}
use linux_like_os_kernel.Machine.{Machine, set_pcb}
use linux_like_os_kernel.Fixtures.{boot, image, image_fs}
use linux_like_os_kernel.CString.Strings.{IsString}
use linux_like_os_kernel.FileSystem.{find_dentry, dentry_filetype, dentry_inode}
use linux_like_os_kernel.FileSystem.Lookup.{name_matches_iff, find_dentry-matches}
use linux_like_os_kernel.Files.{open_file, close, close_op}
use linux_like_os_kernel.Files.Descriptors.{
  now_fds, IsLowest, Opens, Attaches, open_file_lem, close_lem,
}

given : IsString image 10 2
given = record { nonzero = λ i h. ground arith; ends = refl }

entry : IsString image 64 2
entry = record { nonzero = λ i h. ground arith; ends = refl }

found : find_dentry image image_fs 10 0 63 ≡ some 0
found = find_dentry-matches image image_fs 10 0 62 (
    (name_matches_iff image 64 2 10 2 entry given (λ a. ground arith) (omega arith) (omega arith)).1
      (omega arith, refl, λ i h. ground arith))

open_file_lem_example :
    (slot : Option ℕ) × IsLowest (now_fds boot) 0 slot
    × Opens boot (open_file 10 boot) slot
    × Attaches
        (dentry_filetype boot.mem boot.fs 0)
        (dentry_inode boot.mem boot.fs 0)
        (open_file 10 boot).1
        slot
open_file_lem_example = open_file_lem 10 0 boot (omega arith) found

abbrev opened : Machine
opened = set_pcb 4 (λ p. record p { fds = update p.fds 3 (record (p.fds 3) { flags = 1 }) }) boot

close_lem_example :
    (((2 ≤ 3)
        × (3 < 8)
        × ((now_fds opened 3).flags ≢ 0)
        × ((close (pos 3) opened).0 ≡ close_op (now_fds opened 3).optable 3)
        × ((now_fds (close (pos 3) opened).1 3).flags ≡ 0)
        × ((j : ℕ) → j ≢ 3 → now_fds (close (pos 3) opened).1 j ≡ now_fds opened j))
      ⊎ (((3 < 2) ⊎ ((8 ≤ 3) ⊎ ((now_fds opened 3).flags ≡ 0)))
          × (close (pos 3) opened ≡ (failure, opened))))
    × (close (negsuc 3) opened ≡ (failure, opened))
close_lem_example = close_lem 3 opened
