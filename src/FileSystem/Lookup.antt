-- ===== src/FileSystem/Lookup.antt =====
-- student-distrib/file_system.c: `read_dentry_by_name` and `read_dentry_by_index` against the names in
-- the directory.
use linux_like_os_kernel.Prelude.{
  ℕ, zero, suc, ◌+◌, ◌^◌, ◌<◌, ◌≤◌, Bool, true, ◌&&◌, leb, ◌==◌, not, if◌then◌else◌, ◌≡◌, ◌≢◌, ◌↔◌,
  inl, inr, arith, refl, Bool-cases, ne→==, min, ℤ, pos, negsuc, is_zero, Option, none, some,
  failure, ℕ_discrete, subst, le_refl, sym,
}
use linux_like_os_kernel.Machine.{Memory, Fs}
use linux_like_os_kernel.CString.{strncmp}
use linux_like_os_kernel.CString.Strings.{IsString, strlen_lem, strncmp_iff, Agree, IsBytes}
use linux_like_os_kernel.FileSystem.{name_matches, find_dentry, read_dentry_by_name, dentry_addr}
use linux_like_os_kernel.FileSystem.Entry.{IsFilled, IsApart, copy_dentry-IsFilled}

is_zero_iff : (z : ℤ) → (is_zero z ≡ true) ↔ (z ≡ pos 0)
is_zero_iff (pos n) = ground arith
is_zero_iff (negsuc n) = ground arith

and3 : (x y z : Bool) → (x && y && z) ≡ true → (x ≡ true) × (y ≡ true) × (z ≡ true)
and3 x y z h = ground arith

-- The filename field at `filename`, a string of `n` characters cut off at 32, holds the string of
-- `f` characters at `fname`, which is not empty.
abbrev pub SameName : Memory → ℕ → ℕ → ℕ → ℕ → Type 0
SameName m filename n fname f =
    (0 < f) × (f ≡ min n 32) × ((i : ℕ) → i < f → m (filename + i) ≡ m (fname + i))

module _ (m : Memory) (a n fname f : ℕ) (name : IsString m a n) (given : IsString m fname f) where
  -- Agreement up to the end of the second string is equality there.
  Agree-eq : (k : ℕ) → k ≤ f → Agree m a fname 0 f → (i : ℕ) → i < k → m (a + i) ≡ m (fname + i)
  Agree-eq zero h agree i lt = absurd (omega arith)
  Agree-eq (suc k) h agree i lt =
      let below = Agree-eq k (omega arith) agree in
      elim (ℕ_discrete i k) [
        | yes e ↦
            agree i (omega arith) (omega arith)
              (λ j lo hi. ground (arith, below j (omega arith), given.nonzero j (omega arith)))
        | no ne ↦ below i (omega arith)
      ]

  SameName-of_Agree :
      f ≤ 32 → 0 < f → Agree m a fname 0 f → Agree m a fname 0 (min n 32) → SameName m a n fname f
  SameName-of_Agree short nonempty agree agree' = (nonempty, ground (arith, longer, shorter), equal)
    where
      equal : (i : ℕ) → i < f → m (a + i) ≡ m (fname + i)
      equal = Agree-eq f (omega arith) agree

      longer : ¬ (n < f)
      longer h = ground (arith, equal n h, name.ends, given.nonzero n h)

      shorter : ¬ (f < min n 32)
      shorter h = ground (
        arith,
        agree' f (omega arith) h (λ j lo hi. name.nonzero j (omega arith)),
        given.ends,
        name.nonzero f (omega arith),
      )

  name_matches-eq :
      n < 2 ^ 32
      → f ≤ 32
      → name_matches m a fname ≡ (
          is_zero (strncmp m a fname f)
          && is_zero (strncmp m a fname (min n 32))
          && not (m fname == 0))
  unfolding name_matches
  name_matches-eq hn short =
      rw (strlen_lem m a n name hn, strlen_lem m fname f given (omega arith), cut)
    where
      cut : (if leb 32 n then 32 else n) ≡ min n 32
      cut = ground arith

  -- The test of `read_dentry_by_name` compares names.
  pub name_matches_iff :
      IsBytes m → n < 2 ^ 32 → f ≤ 32 → (name_matches m a fname ≡ true) ↔ SameName m a n fname f
  name_matches_iff bytes hn short = rw (name_matches-eq hn short) (forth, back)
    where
      zero_iff : (k : ℕ) → (is_zero (strncmp m a fname k) ≡ true) ↔ Agree m a fname 0 k
      zero_iff k = (
        λ h. (strncmp_iff m a fname k bytes).0 ((is_zero_iff _).0 h),
        λ h. (is_zero_iff _).1 ((strncmp_iff m a fname k bytes).1 h),
      )

      tests : Bool
      tests =
          is_zero (strncmp m a fname f)
          && is_zero (strncmp m a fname (min n 32))
          && not (m fname == 0)

      forth : tests ≡ true → SameName m a n fname f
      forth h =
          let (agree, agree', live) = and3 _ _ _ h in
          SameName-of_Agree short (ground (arith, given.ends)) ((zero_iff f).0 agree)
            ((zero_iff (min n 32)).0 agree')

      back : SameName m a n fname f → tests ≡ true
      back same = ground (
        arith,
        (zero_iff f).1 (λ i lo hi before. same.2 i hi),
        (zero_iff (min n 32)).1 (λ i lo hi before. same.2 i (omega (arith, same.1))),
        given.nonzero 0 same.0,
      )

-- The search stops at an entry that matches.
pub find_dentry-matches :
    (m : Memory) (fs : Fs) (fname index left : ℕ)
    → name_matches m (dentry_addr fs index) fname ≡ true
    → find_dentry m fs fname index (suc left) ≡ some index
unfolding find_dentry
find_dentry-matches m fs fname index left h = rw (h, find_dentry)

-- Each of the 63 directory entries starts with a string; its name is what of it fits 32 characters.
pub record IsDirectory (m : Memory) (fs : Fs) : Type 0 where
  pub len : ℕ → ℕ
  pub bytes : IsBytes m
  pub names : (i : ℕ) → i < 63 → IsString m (dentry_addr fs i) (len i)
  pub bounded : (i : ℕ) → i < 63 → len i < 2 ^ 32

module _ (m : Memory) (fs : Fs) (fname f : ℕ) (d : IsDirectory m fs) where
  -- Entry `i` has the name.
  abbrev pub HasName : ℕ → Type 0
  HasName i = SameName m (dentry_addr fs i) (d.len i) fname f

  -- `found` is the first entry from `index` on that has the name, or none up to 63 has it.
  abbrev pub IsFirst : ℕ → Option ℕ → Type 0
  IsFirst index none = (i : ℕ) → index ≤ i → i < 63 → ¬ HasName i
  IsFirst index (some i) =
      (index ≤ i) × (i < 63) × HasName i × ((j : ℕ) → index ≤ j → j < i → ¬ HasName j)

  module _ (given : IsString m fname f) (short : f ≤ 32) where
    find_dentry-IsFirst :
        (left index : ℕ) → index + left ≡ 63 → IsFirst index (find_dentry m fs fname index left)
    unfolding find_dentry
    find_dentry-IsFirst zero index e = λ i lo hi. absurd (omega arith)
    find_dentry-IsFirst (suc left) index e =
        elim (Bool-cases (name_matches m (dentry_addr fs index) fname)) [
          | inl t ↦
              rw (t, find_dentry)
                (le_refl index, below, matches.0 t, λ j lo hi. absurd (omega arith))
          | inr t ↦
              rw (t, find_dentry)
                (extend (λ same. absurd (ground (arith, matches.1 same)))
                  (find_dentry m fs fname (index + 1) left)
                  (find_dentry-IsFirst left (index + 1) (omega arith)))
        ]
      where
        below : index < 63
        below = omega arith

        matches : (name_matches m (dentry_addr fs index) fname ≡ true) ↔ HasName index
        matches =
            name_matches_iff m (dentry_addr fs index) (d.len index) fname f (d.names index below)
              given d.bytes (d.bounded index below) short

        extend : ¬ HasName index → (o : Option ℕ) → IsFirst (index + 1) o → IsFirst index o
        extend no_match none rest = λ i lo hi same. elim (ℕ_discrete index i) [
          | yes p ↦ no_match (subst HasName (sym p) same)
          | no p ↦ rest i (omega arith) hi same
        ]
        extend no_match (some i) rest = (
          omega (arith, rest.0),
          rest.1,
          rest.2,
          λ j lo hi same. elim (ℕ_discrete index j) [
            | yes p ↦ no_match (subst HasName (sym p) same)
            | no p ↦ rest.3 j (omega arith) hi same
          ],
        )

    -- What `read_dentry_by_name` does with the result of its search.
    abbrev pub Answer : ℕ → ℤ × Memory → Option ℕ → Type 0
    Answer dentry out none = out ≡ (failure, m)
    Answer dentry out (some i) =
        (out.0 ≡ pos 0) × IsFilled m (dentry_addr fs i) (d.len i) dentry out.1

    -- `read_dentry_by_name` of a string of at most 32 characters finds the first of the 63 directory
    -- entries that has this name, copies its name, its type and its inode to the caller's entry, the
    -- type at offset 32 and the inode at offset 36, changes no byte besides, and returns 0; if there
    -- is none it returns -1 and changes nothing. The pointers must not be NULL, memory holds bytes,
    -- each entry starts with a string, and the caller's entry overlaps none of them.
    pub read_dentry_by_name_lem :
        (dentry : ℕ)
        → fname ≢ 0
        → dentry ≢ 0
        → ((i : ℕ) → i < 63 → IsApart (dentry_addr fs i) (d.len i) dentry)
        → (found : Option ℕ) × IsFirst 0 found
          × Answer dentry (read_dentry_by_name m fs fname dentry) found
    unfolding read_dentry_by_name
    read_dentry_by_name_lem dentry hf hd apart = (
      find_dentry m fs fname 0 63,
      find_dentry-IsFirst 63 0 refl,
      answer (find_dentry m fs fname 0 63) refl,
    )
      where
        answer :
            (o : Option ℕ)
            → find_dentry m fs fname 0 63 ≡ o
            → Answer dentry (read_dentry_by_name m fs fname dentry) (find_dentry m fs fname 0 63)
        answer none e = rw (e, ne→== fname 0 hf, ne→== dentry 0 hd)
        answer (some i) e =
            let first = subst (IsFirst 0) e (find_dentry-IsFirst 63 0 refl) in
            rw (e, ne→== fname 0 hf, ne→== dentry 0 hd)
              (
                refl,
                copy_dentry-IsFilled m fs i (d.len i) dentry d.bytes (d.names i first.1)
                    (d.bounded i first.1) (apart i first.1),
              )
