-- ===== src/Prelude/Arrays.antt =====
-- Arrays and memory as functions of an index, and the loops that fill and copy them.
use Prim.Native.Nat.{ℕ, zero, suc, ◌+◌, ◌-◌, ◌≤◌, ◌<◌}
use mathlib.Core.Path.{◌≡◌, refl}
use mathlib.Core.Logic.{◌⊎◌}
use mathlib.Core.Bool.{◌&&◌}
use native.Mathlib.Omega.{arith}
use linux_like_os_kernel.Prelude.Tests.{◌==◌, ltb, leb, if◌then◌else◌}

module _ {A : Type 0} where
  -- `f[k] = v`
  abbrev pub update : (ℕ → A) → ℕ → A → ℕ → A
  update f k v = λ a. if a == k then v else f a

  -- `for (i = 0; i < n; i++) f[p + i] = g(i);`
  unfoldable pub fill : (ℕ → A) → ℕ → (ℕ → A) → ℕ → ℕ → A
  fill f p g zero = f
  fill f p g (suc n) = update (fill f p g n) (p + n) (g n)

  -- The loop writes `g i` at `p + i` for each `i < n`, and nothing else.
  pub fill_lem :
      (f : ℕ → A) (p : ℕ) (g : ℕ → A) (n a : ℕ)
      → fill f p g n a ≡ (if leb p a && ltb a (p + n) then g (a - p) else f a)
  unfolding fill
  fill_lem f p g zero a = ground arith
  fill_lem f p g (suc n) a = ground (arith, fill_lem f p g n a)

  pub fill_inside : (f : ℕ → A) (p : ℕ) (g : ℕ → A) (n i : ℕ) → i < n → fill f p g n (p + i) ≡ g i
  unfolding fill
  fill_inside f p g zero i h = absurd (omega arith)
  fill_inside f p g (suc n) i h = ground (arith, fill_inside f p g n i)

  pub fill_outside :
      (f : ℕ → A) (p : ℕ) (g : ℕ → A) (n a : ℕ) → (a < p) ⊎ (p + n ≤ a) → fill f p g n a ≡ f a
  unfolding fill
  fill_outside f p g zero a h = refl
  fill_outside f p g (suc n) a h = ground (arith, fill_outside f p g n a)
