-- ===== src/Programs/OnKernel/Opens.antt =====
-- syscalls/ece391syserr.c on student-distrib/: the descriptors of a process that opens "." again and again,
-- and closes them.
use linux_like_os_kernel.Prelude.{
  ℕ, zero, suc, ◌+◌, ◌<◌, ◌≤◌, ◌==◌, if◌then◌else◌, ℤ, pos, failure, List, Option, none, some, ◌≡◌,
  ◌≢◌, inl, inr, refl, arith, ◌∙◌, ap, subst, Bool, true, false, Bool-cases, ℕ_discrete,
}
use linux_like_os_kernel.Machine.{Machine, FileDesc, now_pcb_id}
use linux_like_os_kernel.FileSystem.{find_dentry, dentry_filetype, dentry_inode}
use linux_like_os_kernel.Rtc.{rtc_open}
use linux_like_os_kernel.Files.{
  attach, open_file, take_fd, set_fd, find_fd, close, closable, close_op,
}
use linux_like_os_kernel.Files.Descriptors.{
  now_fds, IsLowest, IsOpened, Opens, open_file_lem, close_lem,
}
use linux_like_os_kernel.Programs.OnKernel.Served.{AreOpen, IsServed}

-- Only the processes' descriptors have changed.
abbrev SamePcb : Machine → Machine → Type 0
SamePcb m m' = m' ≡ record m { pcb = m'.pcb }

SamePcb-if :
    (b : Bool) (m x y : Machine) → SamePcb m x → SamePcb m y → SamePcb m (if b then x else y)
SamePcb-if true m x y p q = p
SamePcb-if false m x y p q = q

attach-SamePcb :
    (m : Machine) (id fd filetype inode : ℕ) → SamePcb m (attach id fd filetype inode m)
unfolding attach rtc_open
attach-SamePcb m id fd filetype inode =
    SamePcb-if (filetype == 0) m _ _ refl
      (SamePcb-if (filetype == 1) m _ _ refl (SamePcb-if (filetype == 2) m _ _ refl refl))

open_file-SamePcb : (name : ℕ) (m : Machine) → SamePcb m (open_file name m).1
unfolding open_file
open_file-SamePcb name m = elim (Bool-cases (name == 0)) [
  | inl null ↦ rw null refl
  | inr real ↦ rw (real, open_file) (of_dentry (find_dentry m.mem m.fs name 0 63))
]
  where
    of_fd :
        (index : ℕ) (o : Option ℕ)
        → SamePcb m
            (elim o as (λ x. ℤ × Machine) [
              | none ↦ (failure, m)
              | some fd ↦ (
                pos fd,
                attach
                    (now_pcb_id m)
                    fd
                    (dentry_filetype m.mem m.fs index)
                    (dentry_inode m.mem m.fs index)
                    (set_fd (now_pcb_id m) fd take_fd m),
              )
            ]).1
    of_fd index none = refl
    of_fd index (some fd) = attach-SamePcb (set_fd (now_pcb_id m) fd take_fd m) _ fd _ _

    of_dentry :
        (o : Option ℕ)
        → SamePcb m
            (elim o as (λ x. ℤ × Machine) [
              | none ↦ (failure, m)
              | some index ↦ elim (find_fd (now_fds m) 0 8) as (λ x. ℤ × Machine) [
                | none ↦ (failure, m)
                | some fd ↦ (
                  pos fd,
                  attach
                      (now_pcb_id m)
                      fd
                      (dentry_filetype m.mem m.fs index)
                      (dentry_inode m.mem m.fs index)
                      (set_fd (now_pcb_id m) fd take_fd m),
                )
              ]
            ]).1
    of_dentry none = refl
    of_dentry (some index) = of_fd index (find_fd (now_fds m) 0 8)

close-SamePcb : (fd : ℤ) (m : Machine) → SamePcb m (close fd m).1
unfolding close
close-SamePcb fd m = of_fd (closable fd)
  where
    of_fd :
        (o : Option ℕ)
        → SamePcb m
            (elim o as (λ x. ℤ × Machine) [
              | none ↦ (failure, m)
              | some i ↦ if (now_fds m i).flags == 0 then (failure, m) else (
                close_op (now_fds m i).optable i,
                set_fd (now_pcb_id m) i (λ d. record d { flags = 0 }) m,
              )
            ]).1
    of_fd none = refl
    of_fd (some i) = elim (Bool-cases ((now_fds m i).flags == 0)) [
      | inl free ↦ rw free refl
      | inr busy ↦ rw busy refl
    ]

AreOpen-open :
    (hi : ℕ) (fds fds' : ℕ → FileDesc)
    → 2 ≤ hi
    → AreOpen 2 hi fds
    → (fds' hi).flags ≡ 1
    → ((j : ℕ) → j ≢ hi → fds' j ≡ fds j)
    → AreOpen 2 (hi + 1) fds'
AreOpen-open hi fds fds' h o new others = record {
  stdin = rw (others 0 (omega (arith, h))) o.stdin;
  stdout = rw (others 1 (omega (arith, h))) o.stdout;
  opened = λ j lo lt. elim (ℕ_discrete j hi) [
    | yes e ↦ rw (e, new) (omega arith)
    | no ne ↦ rw (others j ne) (o.opened j lo (omega (arith, ne, lt)))
  ];
  shut = λ j lo lt side.
      rw (others j (omega (arith, lo, side))) (o.shut j lo lt (omega (arith, lo, side)));
}

AreOpen-close :
    (lo : ℕ) (fds fds' : ℕ → FileDesc)
    → 2 ≤ lo
    → AreOpen lo 8 fds
    → (fds' lo).flags ≡ 0
    → ((j : ℕ) → j ≢ lo → fds' j ≡ fds j)
    → AreOpen (lo + 1) 8 fds'
AreOpen-close lo fds fds' h o gone others = record {
  stdin = rw (others 0 (omega (arith, h))) o.stdin;
  stdout = rw (others 1 (omega (arith, h))) o.stdout;
  opened = λ j le lt. rw (others j (omega (arith, le))) (o.opened j (omega (arith, le)) lt);
  shut = λ j le lt side. elim (ℕ_discrete j lo) [
    | yes e ↦ rw (e, gone) refl
    | no ne ↦ rw (others j ne) (o.shut j le lt (omega (arith, ne, side, lt)))
  ];
}

-- The descriptors below `hi` are open.
busy : (fds : ℕ → FileDesc) (hi j : ℕ) → AreOpen 2 hi fds → j < hi → (fds j).flags ≢ 0
busy fds hi zero o h = rw o.stdin.0 (omega arith)
busy fds hi (suc zero) o h = rw o.stdout.0 (omega arith)
busy fds hi (suc (suc j)) o h = o.opened (suc (suc j)) (omega arith) h

-- The lowest descriptor that is not open is the next one, if one is left.
IsLowest-next :
    (fds : ℕ → FileDesc) (hi : ℕ) (found : Option ℕ)
    → 2 ≤ hi
    → hi < 8
    → AreOpen 2 hi fds
    → IsLowest fds 0 found
    → found ≡ some hi
IsLowest-next fds hi none h lt o lowest =
    absurd (lowest hi (omega arith) lt (o.shut hi h lt (inr (omega arith))))
IsLowest-next fds hi (some fd) h lt o (le, small, free, before) = ap some (
    ground
      (arith, busy fds hi fd o, free, before hi (omega arith), o.shut hi h lt (inr (omega arith))))

IsLowest-full :
    (fds : ℕ → FileDesc) (found : Option ℕ) → AreOpen 2 8 fds → IsLowest fds 0 found → found ≡ none
IsLowest-full fds none o lowest = refl
IsLowest-full fds (some fd) o (le, small, free, before) = absurd (busy fds 8 fd o small free)

module _ (base : Machine) (out : List ℕ) (m : Machine) where
  IsServed-of_SamePcb :
      (lo hi lo' hi' : ℕ) (m' : Machine)
      → IsServed base lo hi out m
      → SamePcb m m'
      → AreOpen lo' hi' (now_fds m')
      → IsServed base lo' hi' out m'
  IsServed-of_SamePcb lo hi lo' hi' m' served same fds = record {
    same = same ∙ ap (λ (x : Machine). record x { pcb = m'.pcb }) served.same;
    fds = fds;
  }

  -- `open` of a name that is there takes the next descriptor.
  pub open_file-IsServed :
      (hi name index : ℕ)
      → 2 ≤ hi
      → hi < 8
      → IsServed base 2 hi out m
      → name ≢ 0
      → find_dentry m.mem m.fs name 0 63 ≡ some index
      → ((open_file name m).0 ≡ pos hi) × IsServed base 2 (hi + 1) out (open_file name m).1
  open_file-IsServed hi name index h lt served real e =
      let (found, lowest, opens, attached) = open_file_lem name index m real e in
      let at : IsOpened m hi (open_file name m) =
        subst (λ o. Opens m (open_file name m) o)
          (IsLowest-next (now_fds m) hi found h lt served.fds lowest) opens in
      (
        at.result,
        IsServed-of_SamePcb 2 hi 2 (hi + 1) _ served (open_file-SamePcb name m)
            (AreOpen-open hi (now_fds m) _ h served.fds at.opened at.others),
      )

  pub open_file-full :
      (name index : ℕ)
      → IsServed base 2 8 out m
      → name ≢ 0
      → find_dentry m.mem m.fs name 0 63 ≡ some index
      → open_file name m ≡ (failure, m)
  open_file-full name index served real e =
      let (found, lowest, opens, attached) = open_file_lem name index m real e in
      subst (λ o. Opens m (open_file name m) o) (IsLowest-full (now_fds m) found served.fds lowest)
        opens

  pub close-IsServed :
      (lo : ℕ)
      → 2 ≤ lo
      → lo < 8
      → IsServed base lo 8 out m
      → IsServed base (lo + 1) 8 out (close (pos lo) m).1
  close-IsServed lo h lt served = elim (close_lem lo m).0 [
    | inl (two, eight, open_now, result, gone, others) ↦
        IsServed-of_SamePcb lo 8 (lo + 1) 8 _ served (close-SamePcb (pos lo) m)
          (AreOpen-close lo (now_fds m) _ h served.fds gone others)
    | inr (why, e) ↦ absurd (ground (arith, why, served.fds.opened lo (omega arith) lt))
  ]

  pub emptied-IsServed : IsServed base 8 8 out m → IsServed base 2 2 out m
  emptied-IsServed served = record {
    same = served.same;
    fds = record {
      stdin = served.fds.stdin;
      stdout = served.fds.stdout;
      opened = λ j le lt. absurd (omega (arith, le, lt));
      shut = λ j le lt side. served.fds.shut j le lt (inl lt);
    };
  }
