-- ===== src/Programs/Listing.antt =====
-- syscalls/: a system with one directory, whose calls keep the promises that `ls` relies on.
use linux_like_os_kernel.Prelude.{
  ℕ, ℤ, pos, negsuc, failure, List, [], ◌∷◌, ◌++◌, length, ◌≡◌, refl, ◌∙◌, ap, subst, ◌==◌,
  if◌then◌else◌,
}
use linux_like_os_kernel.Machine.{Memory}
use linux_like_os_kernel.Programs.{Syscalls}
use linux_like_os_kernel.Programs.Cat.{Holds}
use linux_like_os_kernel.Programs.Ls.{IsListing}
use linux_like_os_kernel.Programs.System.{put, bytes_at, Holds-put, bytes_at-Holds}

-- The program's memory, the names that are left and what has been written.
pub record Directory : Type 0 where
  pub mem : Memory
  pub names : List (List ℕ)
  pub out : List ℕ

abbrev next_name : List (List ℕ) → List ℕ
next_name [] = []
next_name (name ∷ names) = name

abbrev other_names : List (List ℕ) → List (List ℕ)
other_names [] = []
other_names (name ∷ names) = names

abbrev appended : ℕ → ℤ → Directory → List ℕ
appended buf (pos n) w = w.out ++ bytes_at w.mem buf n
appended buf (negsuc n) w = w.out

abbrev pub one_directory : Syscalls Directory
one_directory = record {
  memory = λ w. w.mem;
  store = λ f w. record w { mem = f w.mem };
  literal = λ s. 0;
  ece391_open = λ name w. (pos 2, w);
  ece391_read = λ fd buf n w. if buf == 0 then (failure, w) else (
    pos (length (next_name w.names)),
    record w { mem = put buf (next_name w.names) w.mem; names = other_names w.names },
  );
  ece391_write =
      λ fd buf n w. if buf == 0 then (failure, w) else (n, record w { out = appended buf n w });
  ece391_getargs = λ buf n w. (failure, w);
  ece391_execute = λ command w. (failure, w);
  ece391_close = λ fd w. (failure, w);
  ece391_vidmap = λ screen_start w. (failure, w);
  int_0x80 = λ number w. (failure, w);
}

abbrev pub Lists : List (List ℕ) → List ℕ → Directory → Type 0
Lists names out w = (w.names ≡ names) × (w.out ≡ out)

-- The promises are kept.
pub one_directory-IsListing : IsListing one_directory (pos 2) 5000 Lists
one_directory-IsListing = record {
  ends = λ out w at. (ap (λ l. pos (length (next_name l))) at.0, (ap other_names at.0, at.1));
  gives = λ name names out w at. (
    ap (λ l. pos (length (next_name l))) at.0,
    subst (λ s. Holds (put 5000 (next_name w.names) w.mem) 5000 s) (ap next_name at.0)
        (Holds-put 5000 (next_name w.names) w.mem),
    (ap other_names at.0, at.1),
  );
  stores = λ f w. refl;
  keeps = λ names out i c w h at. at;
  writes = λ names out chunk w text short at h. (
    refl,
    (
      at.0,
      ap (λ o. o ++ bytes_at w.mem 5000 (length chunk)) at.1
          ∙ ap (◌++◌ out) (bytes_at-Holds chunk 5000 w.mem h),
    ),
  );
}
