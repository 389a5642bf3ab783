-- ===== src/FileSystem/Tests.antt =====
-- student-distrib/file_system.c: the operations on an image with one file, "ls".
use linux_like_os_kernel.Prelude.{
  ℕ, ◌+◌, ◌-◌, ◌<◌, ◌&&◌, ltb, leb, ◌==◌, if◌then◌else◌, pos, ◌≡◌, inl, inr, arith, refl, Option,
}
use linux_like_os_kernel.Fixtures.{image, image_fs}
use linux_like_os_kernel.CString.Strings.{IsString, padded}
use linux_like_os_kernel.FileSystem.{read_data, read_dentry_by_name, dir_read, dentry_addr}
use linux_like_os_kernel.FileSystem.ReadData.{IsReadable, remaining, file_byte, read_data_lem}
use linux_like_os_kernel.FileSystem.Entry.{IsApart}
use linux_like_os_kernel.FileSystem.Lookup.{IsDirectory, IsFirst, Answer, read_dentry_by_name_lem}
use linux_like_os_kernel.FileSystem.Directory.{NextName, dir_read-next}

image-IsReadable : IsReadable image image_fs 0 20000 20010
image-IsReadable = record {
  fits = omega arith;
  inode_below = omega arith;
  small = ground arith;
  blocks = λ k h. ground arith;
  apart = inr (omega arith);
}

read_data_lem_example :
    ((read_data image image_fs 0 1 20000 10).0 ≡ pos (remaining image image_fs 0 1 10))
    × ((a : ℕ)
        → (read_data image image_fs 0 1 20000 10).1 a ≡ (
            if leb 20000 a && ltb a (20000 + remaining image image_fs 0 1 10)
            then file_byte image image_fs 0 (1 + (a - 20000))
            else image a))
read_data_lem_example =
    read_data_lem image image_fs 0 1 20000 10 (omega arith) image-IsReadable (omega arith)
      (omega arith) (inr (ground arith))

given : IsString image 10 2
given = record { nonzero = λ i h. ground arith; ends = refl }

image-IsDirectory : IsDirectory image image_fs
image-IsDirectory = record {
  len = λ i. if i == 0 then 2 else 0;
  bytes = λ a. ground arith;
  names = λ i h. record { nonzero = λ j lt. ground arith; ends = ground arith };
  bounded = λ i h. ground arith;
}

apart : (i : ℕ) → i < 63 → IsApart (dentry_addr image_fs i) (image-IsDirectory.len i) 20000
unfolding image-IsDirectory
apart i h = inl (ground arith, ground arith)

read_dentry_by_name_lem_example :
    (found : Option ℕ) × IsFirst image image_fs 10 2 image-IsDirectory 0 found
    × Answer image image_fs 10 2 image-IsDirectory given
        (omega arith)
        20000
        (read_dentry_by_name image image_fs 10 20000)
        found
read_dentry_by_name_lem_example =
    read_dentry_by_name_lem image image_fs 10 2 image-IsDirectory given (omega arith) 20000
      (omega arith) (omega arith) apart

abbrev start : ℕ
start = 4096

abbrev end : ℕ
end = 9000

next : NextName image image_fs 20000 2
next = record {
  live = λ j h. ground arith;
  stop = inr refl;
  short = omega arith;
  apart = inr (omega arith);
}

dir_read-next_example :
    ((dir_read image image_fs 20000).0 ≡ pos 2)
    × ((a : ℕ)
        → (dir_read image image_fs 20000).1 a ≡ (
            if leb 20000 a && ltb a (20000 + 33)
            then padded image (dentry_addr image_fs 0) 2 (a - 20000)
            else image a))
    × ((dir_read image image_fs 20000).2 ≡ record image_fs { num_file_read = 0 + 1 })
dir_read-next_example =
    dir_read-next image image_fs 20000 2 (omega arith) (omega arith) (omega arith) next
