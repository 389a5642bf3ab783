-- ===== src/Programs/OnKernel/Refuses.antt =====
-- student-distrib/: the kernel refuses descriptors that are not open, names that are not there, addresses
-- outside the user's page and numbers that no call has.
use linux_like_os_kernel.Prelude.{
  ℕ, zero, suc, ◌<◌, ◌||◌, ltb, leb, ◌==◌, Bool, true, false, ℤ, pos, negsuc, failure, List, Option,
  none, some, ◌≡◌, ◌≢◌, ◌⊎◌, inl, inr, refl, arith, lt→ltb, Bool-cases,
}
use linux_like_os_kernel.Machine.{Machine}
use linux_like_os_kernel.FileSystem.{find_dentry}
use linux_like_os_kernel.Files.{read, read_op, write, write_op, operation_error, open_file, close}
use linux_like_os_kernel.Files.Descriptors.{now_fds}
use linux_like_os_kernel.Paging.Translation.{translate}
use linux_like_os_kernel.Process.{Frame}
use linux_like_os_kernel.Halt.{vidmap}
use linux_like_os_kernel.Programs.Syserr.Passes.{IsNoCall}
use linux_like_os_kernel.Programs.OnKernel.{Registers, vidmap_at, mapped, syc_handler}
use linux_like_os_kernel.Programs.OnKernel.Served.{AreOpen}

ltb_below : (n k : ℕ) → ltb n k ≡ true → n < k
ltb_below n k h = ground arith

module _ (m : Machine) (fds : AreOpen 2 2 (now_fds m)) where
  shut : (n : ℕ) → ltb (suc (suc n)) 8 ≡ true → (now_fds m (suc (suc n))).flags ≡ 0
  shut n h = fds.shut (suc (suc n)) (omega arith) (ltb_below _ 8 h) (inr (omega arith))

  -- A read but of 0, and a write but of 1, is refused.
  pub read-refused :
      (ticks : ℕ) (keys : List (Machine → Machine)) (fd : ℤ) (buf : ℕ) (n : ℤ)
      → fd ≢ pos 0
      → read ticks keys fd buf n m ≡ some (failure, m)
  unfolding read read_op operation_error
  read-refused ticks keys (negsuc k) buf n h = refl
  read-refused ticks keys (pos zero) buf n h = absurd (h refl)
  read-refused ticks keys (pos (suc zero)) buf n h = elim (Bool-cases (buf == 0)) [
    | inl null ↦ rw null refl
    | inr real ↦ rw (real, fds.stdout.0, fds.stdout.1) refl
  ]
  read-refused ticks keys (pos (suc (suc fd))) buf n h = elim (Bool-cases (ltb (suc (suc fd)) 8)) [
    | inr big ↦ rw (big, read) refl
    | inl small ↦ elim (Bool-cases (buf == 0)) [
      | inl null ↦ rw (small, null, read) refl
      | inr real ↦ rw (small, real, shut fd small, read) refl
    ]
  ]

  pub write-refused : (fd : ℤ) (buf : ℕ) (n : ℤ) → fd ≢ pos 1 → write fd buf n m ≡ some (failure, m)
  unfolding write write_op operation_error
  write-refused (negsuc k) buf n h = refl
  write-refused (pos zero) buf n h = elim (Bool-cases (buf == 0)) [
    | inl null ↦ rw null refl
    | inr real ↦ rw (real, fds.stdin.0, fds.stdin.1) refl
  ]
  write-refused (pos (suc zero)) buf n h = absurd (h refl)
  write-refused (pos (suc (suc fd))) buf n h = elim (Bool-cases (ltb (suc (suc fd)) 8)) [
    | inr big ↦ rw (big, write) refl
    | inl small ↦ elim (Bool-cases (buf == 0)) [
      | inl null ↦ rw (small, null, write) refl
      | inr real ↦ rw (small, real, shut fd small, write) refl
    ]
  ]

  pub close-refused : (fd : ℤ) → close fd m ≡ (failure, m)
  unfolding close
  close-refused (negsuc k) = refl
  close-refused (pos zero) = refl
  close-refused (pos (suc zero)) = refl
  close-refused (pos (suc (suc fd))) = elim (Bool-cases (ltb (suc (suc fd)) 8)) [
    | inr big ↦ rw (at_end fd big, close) refl
    | inl small ↦ rw (in_range fd small, not_terminal fd, shut fd small, close) refl
  ]
    where
      at_end : (n : ℕ) → ltb (suc (suc n)) 8 ≡ false → leb 8 (suc (suc n)) ≡ true
      at_end n h = ground arith

      in_range : (n : ℕ) → ltb (suc (suc n)) 8 ≡ true → leb 8 (suc (suc n)) ≡ false
      in_range n h = ground arith

      not_terminal : (n : ℕ) → ltb (suc (suc n)) 2 ≡ false
      not_terminal n = ground arith

pub open_file-refused :
    (m : Machine) (name : ℕ)
    → find_dentry m.mem m.fs name 0 63 ≡ none
    → open_file name m ≡ (failure, m)
unfolding open_file
open_file-refused m name e = elim (Bool-cases (name == 0)) [
  | inl null ↦ rw null refl
  | inr real ↦ rw (real, e) refl
]

vidmap-refused : (p at : ℕ) (m : Machine) → p < 0x8000000 → vidmap p at m ≡ (failure, m)
unfolding vidmap
vidmap-refused p at m h = elim (Bool-cases (p == 0)) [
  | inl null ↦ rw null refl
  | inr real ↦ rw (real, lt→ltb p 0x8000000 h) refl
]

mapped-refused :
    (o : Option (ℕ × Bool)) (p : ℕ) (m : Machine) → p < 0x8000000 → mapped o p m ≡ some (failure, m)
mapped-refused none p m h = rw (vidmap-refused p 0 m h) refl
mapped-refused (some (at, writable)) p m h = rw (vidmap-refused p at m h) refl

pub vidmap_at-refused : (p : ℕ) (m : Machine) → p < 0x8000000 → vidmap_at p m ≡ some (failure, m)
vidmap_at-refused p m h = mapped-refused (translate m.paging p) p m h

pub syc_handler-refused :
    (frame : Frame) (ticks : ℕ) (keys : List (Machine → Machine)) (r : Registers) (number : ℤ)
    (m : Machine)
    → IsNoCall number
    → syc_handler frame ticks keys r number m ≡ some (failure, m)
unfolding syc_handler
syc_handler-refused frame ticks keys r (negsuc k) m h = refl
syc_handler-refused frame ticks keys r (pos n) m h = rw (out_of_range n h) refl
  where
    out_of_range : (n : ℕ) → (n ≡ 0) ⊎ (10 < n) → (n == 0 || ltb 10 n) ≡ true
    out_of_range n (inl e) = ground arith
    out_of_range n (inr e) = ground arith
