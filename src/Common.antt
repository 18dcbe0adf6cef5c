-- ===== src/Common.antt =====
-- The names that the other modules share: those of the libraries, passed on, and those of the
-- children: tests and lists over the native numbers, texts, the insertion-ordered `Map` of
-- JavaScript, and the JSON values that the code receives as `unknown`.
mod Tests
mod Lists
mod Text
pub mod Dict
pub mod Memo
pub mod Sort
pub mod Json
pub mod Fields
pub mod Checked
pub mod Attempt
pub mod Split
pub mod Distinct
pub mod Pick
pub use Tests.*
pub use Lists.*
pub use Text.{◌⧺◌, singleton, is_empty, codes, is_digit, is_lower, is_upper, starts_with}
unfoldable pub use Text.{split, split_from, strip_prefix, remove_first, part, includes}
pub use Json.{Number}
pub use Prim.Native.Nat.{ℕ, zero, suc, ◌+◌, ◌-◌, ◌*◌, ◌^◌, ◌≤◌, ◌<◌}
pub use Prim.Native.String.{String}
pub use mathlib.Core.Path.{◌≡◌, refl, sym, ap, ◌∙◌}
pub use mathlib.Core.Logic.{◌≢◌, ◌↔◌, ◌⊎◌, inl, inr}
pub use mathlib.Core.Bool.{Bool, true, false, not, ◌&&◌, ◌||◌}
pub use mathlib.Core.Option.{Option, none, some}
pub use mathlib.Core.List.{List, [], ◌∷◌, ◌++◌, map}
pub use native.Mathlib.Omega.{arith}
pub use text.Mathlib.Text.{◌==◌}
pub use text.Mathlib.TextEquality.{eq_iff}
pub use text.Mathlib.TextPositions.{eq_refl}
