-- ===== src/Files/Descriptors.antt =====
-- student-distrib/system_call.c: which descriptor `open` gives, and what `close` does to it.
use linux_like_os_kernel.Prelude.{
  ℕ, zero, suc, ◌+◌, ◌/◌, ◌<◌, ◌≤◌, ◌==◌, if◌then◌else◌, ℤ, pos, negsuc, failure, Option, none,
  some, ◌≡◌, ◌≢◌, ◌⊎◌, inl, inr, refl, arith, Bool-cases, ==_iff, ne→==, ==_refl, ap, ◌∙◌,
}
use linux_like_os_kernel.Machine.{
  Machine, FileDesc, now_pcb_id, set_pcb, rtc_fop, dir_fop, file_fop,
}
use linux_like_os_kernel.FileSystem.{find_dentry, dentry_filetype, dentry_inode}
use linux_like_os_kernel.Rtc.{rtc_open}
use linux_like_os_kernel.Files.{find_fd, attach, open_file, take_fd, set_fd, close, close_op}

-- `fd` is the lowest descriptor from `start` on, below 8, that is not open, if there is one.
abbrev pub IsLowest : (ℕ → FileDesc) → ℕ → Option ℕ → Type 0
IsLowest fds start none = (j : ℕ) → start ≤ j → j < 8 → (fds j).flags ≢ 0
IsLowest fds start (some fd) =
    (start ≤ fd)
    × (fd < 8)
    × ((fds fd).flags ≡ 0)
    × ((j : ℕ) → start ≤ j → j < fd → (fds j).flags ≢ 0)

IsLowest-extend :
    (fds : ℕ → FileDesc) (start : ℕ) (o : Option ℕ)
    → (fds start).flags ≢ 0
    → IsLowest fds (start + 1) o
    → IsLowest fds start o
IsLowest-extend fds start none h rest = λ j lo hi. ground (arith, rest j)
IsLowest-extend fds start (some fd) h rest =
    (omega (arith, rest.0), rest.1, rest.2, λ j lo hi. ground (arith, rest.3 j))

find_fd-IsLowest :
    (fds : ℕ → FileDesc) (start left : ℕ)
    → start + left ≡ 8
    → IsLowest fds start (find_fd fds start left)
unfolding find_fd
find_fd-IsLowest fds start zero e = λ j lo hi. absurd (omega arith)
find_fd-IsLowest fds start (suc left) e = elim (Bool-cases ((fds start).flags == 0)) [
  | inl free ↦
      rw (free, find_fd)
        (omega arith, omega arith, (==_iff _ _).0 free, λ j lo hi. absurd (omega arith))
  | inr busy ↦
      rw (busy, find_fd)
        (IsLowest-extend fds start (find_fd fds (start + 1) left) (ground arith)
          (find_fd-IsLowest fds (start + 1) left (omega arith)))
]

-- The descriptors of the process that runs.
abbrev pub now_fds : Machine → ℕ → FileDesc
now_fds m = (m.pcb (now_pcb_id m)).fds

-- `open` has taken descriptor `fd`: it is open at the file's start, and no other has changed.
pub record IsOpened (m : Machine) (fd : ℕ) (out : ℤ × Machine) : Type 0 where
  pub result : out.0 ≡ pos fd
  pub opened : (now_fds out.1 fd).flags ≡ 1
  pub at_start : (now_fds out.1 fd).file_position ≡ 0
  pub others : (j : ℕ) → j ≢ fd → now_fds out.1 j ≡ now_fds m j

-- Two assignments to one descriptor.
set_fd_twice :
    (id fd : ℕ) (f g : FileDesc → FileDesc) (m : Machine) (j : ℕ)
    → ((set_fd id fd g (set_fd id fd f m)).pcb id).fds j
      ≡ (if j == fd then g (f ((m.pcb id).fds fd)) else (m.pcb id).fds j)
set_fd_twice id fd f g m j =
    rw (==_refl id) (elim (Bool-cases (j == fd)) [ inl e ↦ rw (e, ==_refl fd) | inr e ↦ rw e ])

-- The same with `rtc_open` between them.
set_fd_rtc :
    (id fd : ℕ) (f g : FileDesc → FileDesc) (m : Machine) (j : ℕ)
    → ((set_fd id fd g (
            set_pcb id
              (λ p. record p { rtc_freq = 2; rtc_counter = 1024 / 2 })
              (set_fd id fd f m))).pcb
          id).fds
        j
      ≡ (if j == fd then g (f ((m.pcb id).fds fd)) else (m.pcb id).fds j)
set_fd_rtc id fd f g m j =
    rw (==_refl id) (elim (Bool-cases (j == fd)) [ inl e ↦ rw (e, ==_refl fd) | inr e ↦ rw e ])

IsOpened-of_fds :
    (m m' : Machine) (fd : ℕ) (d : FileDesc)
    → ((j : ℕ) → now_fds m' j ≡ (if j == fd then d else now_fds m j))
    → d.flags ≡ 1
    → d.file_position ≡ 0
    → IsOpened m fd (pos fd, m')
IsOpened-of_fds m m' fd d h p q = record {
  result = refl;
  opened = rw (h fd, ==_refl fd) p;
  at_start = rw (h fd, ==_refl fd) q;
  others = λ j ne. rw (h j, ne→== j fd ne);
}

attach-IsOpened :
    (m : Machine) (fd filetype inode : ℕ)
    → IsOpened m fd
        (pos fd, attach (now_pcb_id m) fd filetype inode (set_fd (now_pcb_id m) fd take_fd m))
unfolding attach
attach-IsOpened m fd filetype inode = elim (Bool-cases (filetype == 0)) [
  | inl rtc ↦
      rw rtc (IsOpened-of_fds m _ fd (set_rtc (take_fd (now_fds m fd))) (rtc_fds set_rtc) refl refl)
  | inr not_rtc ↦ elim (Bool-cases (filetype == 1)) [
    | inl dir ↦ rw (not_rtc, dir) (attached set_dir refl refl)
    | inr not_dir ↦ elim (Bool-cases (filetype == 2)) [
      | inl file ↦ rw (not_rtc, not_dir, file) (attached set_file refl refl)
      | inr other ↦
          rw (not_rtc, not_dir, other)
            (IsOpened-of_fds m _ fd (take_fd (now_fds m fd)) (set_fd_once (now_pcb_id m)) refl refl)
    ]
  ]
]
  where
    set_rtc : FileDesc → FileDesc
    set_rtc d = record d { inode = 0; optable = rtc_fop }

    set_dir : FileDesc → FileDesc
    set_dir d = record d { inode = 0; optable = dir_fop }

    set_file : FileDesc → FileDesc
    set_file d = record d { inode = inode; optable = file_fop }

    set_fd_once :
        (id : ℕ) (j : ℕ)
        → ((set_fd id fd take_fd m).pcb id).fds j
          ≡ (if j == fd then take_fd ((m.pcb id).fds fd) else (m.pcb id).fds j)
    set_fd_once id j = rw (==_refl id)

    attached :
        (f : FileDesc → FileDesc)
        → (f (take_fd (now_fds m fd))).flags ≡ 1
        → (f (take_fd (now_fds m fd))).file_position ≡ 0
        → IsOpened m fd (pos fd, set_fd (now_pcb_id m) fd f (set_fd (now_pcb_id m) fd take_fd m))
    attached f p q =
        IsOpened-of_fds m _ fd (f (take_fd (now_fds m fd)))
          (set_fd_twice (now_pcb_id m) fd take_fd f m) p q

    rtc_fds :
        (f : FileDesc → FileDesc) (j : ℕ)
        → now_fds (set_fd (now_pcb_id m) fd f (rtc_open (set_fd (now_pcb_id m) fd take_fd m)).1) j
          ≡ (if j == fd then f (take_fd (now_fds m fd)) else now_fds m j)
    rtc_fds f j = unfold rtc_open in set_fd_rtc (now_pcb_id m) fd take_fd f m j

-- Descriptor `d` is that of a file of a type, 0 for the clock, 1 for a directory and 2 for a regular file, with
-- an inode.
pub record IsAttached (filetype inode : ℕ) (d : FileDesc) : Type 0 where
  pub clock : filetype ≡ 0 → (d.optable ≡ rtc_fop) × (d.inode ≡ 0)
  pub directory : filetype ≡ 1 → (d.optable ≡ dir_fop) × (d.inode ≡ 0)
  pub regular : filetype ≡ 2 → (d.optable ≡ file_fop) × (d.inode ≡ inode)

attach-IsAttached :
    (m : Machine) (fd filetype inode : ℕ)
    → IsAttached filetype inode
        (now_fds (attach (now_pcb_id m) fd filetype inode (set_fd (now_pcb_id m) fd take_fd m)) fd)
unfolding attach
attach-IsAttached m fd filetype inode = record {
  clock = λ e.
      let at : now_fds taken fd ≡ set_rtc (take_fd (now_fds m fd)) = rw e (rtc_at set_rtc) in
      (ap (λ (d : FileDesc). d.optable) at, ap (λ (d : FileDesc). d.inode) at);
  directory = λ e.
      let at : now_fds taken fd ≡ set_dir (take_fd (now_fds m fd)) = rw e (twice_at set_dir) in
      (ap (λ (d : FileDesc). d.optable) at, ap (λ (d : FileDesc). d.inode) at);
  regular = λ e.
      let at : now_fds taken fd ≡ set_file (take_fd (now_fds m fd)) = rw e (twice_at set_file) in
      (ap (λ (d : FileDesc). d.optable) at, ap (λ (d : FileDesc). d.inode) at);
}
  where
    taken : Machine
    taken = attach (now_pcb_id m) fd filetype inode (set_fd (now_pcb_id m) fd take_fd m)

    set_rtc : FileDesc → FileDesc
    set_rtc d = record d { inode = 0; optable = rtc_fop }

    set_dir : FileDesc → FileDesc
    set_dir d = record d { inode = 0; optable = dir_fop }

    set_file : FileDesc → FileDesc
    set_file d = record d { inode = inode; optable = file_fop }

    twice_at :
        (f : FileDesc → FileDesc)
        → now_fds (set_fd (now_pcb_id m) fd f (set_fd (now_pcb_id m) fd take_fd m)) fd
          ≡ f (take_fd (now_fds m fd))
    twice_at f = set_fd_twice (now_pcb_id m) fd take_fd f m fd ∙ rw (==_refl fd)

    rtc_at :
        (f : FileDesc → FileDesc)
        → now_fds (set_fd (now_pcb_id m) fd f (rtc_open (set_fd (now_pcb_id m) fd take_fd m)).1) fd
          ≡ f (take_fd (now_fds m fd))
    rtc_at f =
        let at : now_fds
              (set_fd (now_pcb_id m) fd f (rtc_open (set_fd (now_pcb_id m) fd take_fd m)).1) fd
            ≡ (if fd == fd then f (take_fd (now_fds m fd)) else now_fds m fd) =
          unfold rtc_open in set_fd_rtc (now_pcb_id m) fd take_fd f m fd in
        at ∙ rw (==_refl fd)

-- The descriptor that `open` has found, if there is one, is the file's.
abbrev pub Attaches : ℕ → ℕ → Machine → Option ℕ → Type 0
Attaches filetype inode m' none = Unit {0}
Attaches filetype inode m' (some fd) = IsAttached filetype inode (now_fds m' fd)

-- What `open` of a file that exists does with the descriptor that it finds.
abbrev pub Opens : Machine → ℤ × Machine → Option ℕ → Type 0
Opens m out none = out ≡ (failure, m)
Opens m out (some fd) = IsOpened m fd out

-- `open` of a name that the directory has takes the lowest descriptor that is not open: it returns
-- it, open at the file's start, and no other descriptor changes; the descriptor has the operations
-- of the clock, the directory or regular files by the entry's type, and a regular file's has the
-- entry's inode. When all eight are open it returns -1 and changes nothing. The name must not be NULL.
pub open_file_lem :
    (filename index : ℕ) (m : Machine)
    → filename ≢ 0
    → find_dentry m.mem m.fs filename 0 63 ≡ some index
    → (found : Option ℕ) × IsLowest (now_fds m) 0 found
      × Opens m (open_file filename m) found
      × Attaches
          (dentry_filetype m.mem m.fs index)
          (dentry_inode m.mem m.fs index)
          (open_file filename m).1
          found
unfolding open_file
open_file_lem filename index m h e = (
  find_fd (now_fds m) 0 8,
  find_fd-IsLowest (now_fds m) 0 8 refl,
  opens (find_fd (now_fds m) 0 8) refl,
  attaches (find_fd (now_fds m) 0 8) refl,
)
  where
    opens :
        (o : Option ℕ)
        → find_fd (now_fds m) 0 8 ≡ o
        → Opens m (open_file filename m) (find_fd (now_fds m) 0 8)
    opens none p = rw (p, ne→== filename 0 h, e, p)
    opens (some fd) p =
        rw (p, ne→== filename 0 h, e, p)
          (attach-IsOpened m fd (dentry_filetype m.mem m.fs index) (dentry_inode m.mem m.fs index))

    attaches :
        (o : Option ℕ)
        → find_fd (now_fds m) 0 8 ≡ o
        → Attaches
            (dentry_filetype m.mem m.fs index)
            (dentry_inode m.mem m.fs index)
            (open_file filename m).1
            (find_fd (now_fds m) 0 8)
    attaches none p = rw p tt
    attaches (some fd) p =
        rw (p, ne→== filename 0 h, e, p)
          (attach-IsAttached m fd (dentry_filetype m.mem m.fs index)
            (dentry_inode m.mem m.fs index))

-- `close` of one of the descriptors 2 to 7 that is open returns what the file type's close function
-- does, frees the descriptor and changes no other. On every other int, a negative one too, it
-- returns -1 and changes nothing.
pub close_lem :
    (n : ℕ) (m : Machine)
    → (((2 ≤ n)
          × (n < 8)
          × ((now_fds m n).flags ≢ 0)
          × ((close (pos n) m).0 ≡ close_op (now_fds m n).optable n)
          × ((now_fds (close (pos n) m).1 n).flags ≡ 0)
          × ((j : ℕ) → j ≢ n → now_fds (close (pos n) m).1 j ≡ now_fds m j))
        ⊎ (((n < 2) ⊎ ((8 ≤ n) ⊎ ((now_fds m n).flags ≡ 0))) × (close (pos n) m ≡ (failure, m))))
      × (close (negsuc n) m ≡ (failure, m))
unfolding close
close_lem n m = (ground arith, refl)
