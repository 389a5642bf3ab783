-- ===== src/Prelude.antt =====
-- The names that the modules of the development share: the libraries', passed on, and the helpers
-- of its children (Boolean tests, arrays, bits, signed integers, lists, checks by table).
mod Tests
mod Arrays
mod Int
mod Table
mod Lists
mod Bits
mod Text
pub use Tests.*
unfoldable pub use Arrays.*
pub use Int.*
unfoldable pub use Table.*
pub use Bits.*
pub use Text.*
pub use Lists.*
pub use Prim.Native.Nat.{
  ℕ, zero, suc, ◌+◌, ◌-◌, ◌*◌, ◌/◌, ◌%◌, ◌^◌, ◌≤◌, ◌<◌, min, bit_and, bit_or, bit_xor,
}
pub use mathlib.Core.Path.{◌≡◌, refl, sym, ap, ◌∙◌, fun_ext, subst}
pub use mathlib.Core.Logic.{◌≢◌, ◌↔◌, ◌⊎◌, inl, inr}
pub use mathlib.Core.Bool.{Bool, true, false, ◌&&◌, ◌||◌, not}
pub use mathlib.Core.Option.{Option, none, some}
pub use mathlib.Core.List.{List, [], ◌∷◌, ◌++◌, map, append-nil, append_assoc}
pub use native.Mathlib.Omega.{arith}
unfoldable pub use native.Mathlib.Decide.{ℕ_discrete, dec_lt}
pub use native.Mathlib.Nat.{
  mod-add-mod, mod-eq_of_lt, mod_self, mod-lt, le_refl, le_trans, pow-zero, pow-suc, add-zero,
  zero-add, add-suc, add_comm, add_assoc,
}
