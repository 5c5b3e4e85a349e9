-- ===== src/Prelude.antt =====
-- Names that the other modules share: the libraries', passed on, and those of the children.
pub mod Tests
pub mod Lists
pub mod Int
pub mod Text
pub mod Dict
pub mod Float
pub use Tests.{
  ltb, leb, ◌==ℕ◌, if◌then◌else◌, not, Bool-cases, if_cases, if_cases_true, if_split, Option-cases,
  ltb→lt, lt→ltb, leb→le, ==ℕ_iff, tests, is_some, IfSome, if_some,
}
pub use Lists.{
  length, take, drop, any, all, length-append, length-drop, append_assoc, append_nil, All,
}
pub use Int.{ℤ, pos, negsuc, pos_part, neg_part, ltb_ℤ, leb_ℤ, ◌+ℤ◌}
pub use Text.{String, eq_iff, eq_refl, ◌==◌, ◌++ˢ◌}
unfoldable pub use Text.{lower, strip, starts_with, contains_text, show_nat, elem, parse_nat, join}
pub use Prim.Native.Nat.{ℕ, zero, suc, ◌+◌, ◌-◌, ◌*◌, ◌/◌, ◌%◌, ◌≤◌, ◌<◌, min, max}
pub use mathlib.Core.Path.{◌≡◌, refl, sym, ap, ◌∙◌}
pub use mathlib.Core.Logic.{◌≢◌, ◌↔◌, ◌⊎◌, inl, inr}
pub use mathlib.Core.Bool.{Bool, true, false, ◌&&◌, ◌||◌}
pub use mathlib.Core.Option.{Option, none, some}
pub use mathlib.Core.List.{List, [], ◌∷◌, ◌++◌, map}
pub use native.Mathlib.Omega.{arith}
