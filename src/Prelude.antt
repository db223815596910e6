-- ===== src/Prelude.antt =====
-- The names that the other modules share: the libraries', passed on, and those of the children.
mod Tests
mod Lists
mod Equality
pub mod Int
pub mod Text
pub mod Maps
pub mod Codes
pub mod Trim
pub mod Digits
pub use Tests.*
pub use Lists.*
pub use Equality.*
pub use Prim.Native.Nat.{ℕ, zero, suc, ◌+◌, ◌-◌, ◌*◌, ◌/◌, ◌%◌, ◌^◌, ◌≤◌, ◌<◌}
pub use Prim.Native.String.{String}
pub use mathlib.Core.Path.{◌≡◌, refl, sym, ap, subst, ◌∙◌}
pub use mathlib.Core.Logic.{◌≢◌, ◌↔◌, ◌⊎◌, inl, inr}
pub use mathlib.Core.Bool.{Bool, true, false, not, ◌&&◌, ◌||◌}
pub use mathlib.Core.Option.{Option, none, some}
pub use mathlib.Core.List.{List, [], ◌∷◌, ◌++◌, map}
pub use native.Mathlib.Omega.{arith}
pub use text.Mathlib.TextEquality.{eq_iff}
unfoldable pub use native.Mathlib.Decide.{dec_lt, ℕ_discrete}
pub use Int.{int_eq, beq_ℤ_iff, ℤ, pos, negsuc, pos_part, neg_part, ltb_ℤ, leb_ℤ, ◌≤ℤ◌, ◌<ℤ◌}
pub use Maps.{Dict}
unfoldable pub use Maps.{lookup, insert, remove, text_at}
pub use Maps.{
  lookup-insert, lookup-insert_self, remove-insert, insert-append, lookup-append,
  lookup-append_none, remove-append, text_at-insert,
}
unfoldable pub use Text.{concat, quote}
