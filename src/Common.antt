-- ===== src/Common.antt =====
-- The names that the modules of this library share: those of the libraries, passed on, and those
-- of the children.
mod Tests
mod Lists
mod Text
mod Dicts
pub use Tests.*
pub use Lists.*
unfoldable pub use Text.{str_dec}
pub use Text.{str_ne}
unfoldable pub use Dicts.{Dict, lookup, insert, erase, values}
pub use Dicts.{
  lookup-insert_self, lookup-insert_ne, lookup-insert, lookup-erase_self, lookup-erase_ne, keys,
  IsFresh, insert_fresh,
}
pub use Prim.Native.Nat.{ℕ, zero, suc, ◌+◌, ◌-◌, ◌*◌, ◌/◌, ◌%◌, ◌^◌, ◌≤◌, ◌<◌, min, max}
pub use Prim.Native.String.{String}
pub use mathlib.Core.Path.{◌≡◌, refl, sym, ap, ◌∙◌, subst, ◌≡⟨◌⟩◌, ◌∎}
pub use mathlib.Core.Logic.{◌≢◌, ◌↔◌, ◌⊎◌, inl, inr, ite, dite, if_pos, if_neg}
pub use mathlib.Core.Bool.{Bool, true, false, not, ◌&&◌, ◌||◌}
pub use mathlib.Core.Option.{Option, none, some}
pub use mathlib.Core.List.{List, [], ◌∷◌, ◌++◌, map}
pub use native.Mathlib.Omega.{arith}
unfoldable pub use native.Mathlib.Decide.{dec_lt, dec_le, ℕ_discrete}
