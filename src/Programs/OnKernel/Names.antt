-- ===== src/Programs/OnKernel/Names.antt =====
-- student-distrib/file_system.c: a search in the directory reads nothing below the directory and the
-- name.
use linux_like_os_kernel.Prelude.{
  ℕ, zero, suc, ◌+◌, ◌≤◌, ◌||◌, leb, ◌==◌, not, if◌then◌else◌, ◌≡◌, inl, inr, refl, arith,
  Bool-cases,
}
use linux_like_os_kernel.Machine.{Memory, Fs}
use linux_like_os_kernel.CString.{strlen_from, strlen, strncmp_from, strncmp, address_space}
use linux_like_os_kernel.FileSystem.{name_matches, find_dentry, dentry_addr}

module _ (m m' : Memory) (bound : ℕ) (same : (a : ℕ) → bound ≤ a → m a ≡ m' a) where
  strlen_from_above :
      (fuel s len : ℕ) → bound ≤ s → strlen_from fuel m s len ≡ strlen_from fuel m' s len
  unfolding strlen_from
  strlen_from_above zero s len h = refl
  strlen_from_above (suc fuel) s len h =
      let here = same (s + len) (omega (arith, h)) in
      elim (Bool-cases (m' (s + len) == 0)) [
        | inl e ↦ rw (here, e, strlen_from) refl
        | inr e ↦ rw (here, e, strlen_from) (strlen_from_above fuel s (len + 1) h)
      ]

  strlen_above : (s : ℕ) → bound ≤ s → strlen m s ≡ strlen m' s
  unfolding strlen
  strlen_above s h = strlen_from_above address_space s 0 h

  strncmp_from_above :
      (left s1 s2 i : ℕ)
      → bound ≤ s1
      → bound ≤ s2
      → strncmp_from m s1 s2 i left ≡ strncmp_from m' s1 s2 i left
  unfolding strncmp_from
  strncmp_from_above zero s1 s2 i h h' = refl
  strncmp_from_above (suc left) s1 s2 i h h' =
      let one = same (s1 + i) (omega (arith, h)) in
      let two = same (s2 + i) (omega (arith, h')) in
      elim (Bool-cases (not (m' (s1 + i) == m' (s2 + i)) || m' (s1 + i) == 0)) [
        | inl e ↦ rw (one, two, e, strncmp_from) (rw (one, two) refl)
        | inr e ↦ rw (one, two, e, strncmp_from) (strncmp_from_above left s1 s2 (i + 1) h h')
      ]

  name_matches_above :
      (a name : ℕ) → bound ≤ a → bound ≤ name → name_matches m a name ≡ name_matches m' a name
  unfolding name_matches strncmp
  name_matches_above a name h h' =
      rw
        (
          strlen_above a h,
          strlen_above name h',
          strncmp_from_above (strlen m' name) a name 0 h h',
          same name h',
          strncmp_from_above (if leb 32 (strlen m' a) then 32 else strlen m' a) a name 0 h h',
        )
        refl

  pub find_dentry_above :
      (fs : Fs) (name index left : ℕ)
      → bound ≤ fs.fs_dentry
      → bound ≤ name
      → find_dentry m fs name index left ≡ find_dentry m' fs name index left
  unfolding find_dentry
  find_dentry_above fs name index zero h h' = refl
  find_dentry_above fs name index (suc left) h h' =
      let here = name_matches_above (dentry_addr fs index) name (omega (arith, h)) h' in
      elim (Bool-cases (name_matches m' (dentry_addr fs index) name)) [
        | inl e ↦ rw (here, e, find_dentry) refl
        | inr e ↦ rw (here, e, find_dentry) (find_dentry_above fs name (index + 1) left h h')
      ]
