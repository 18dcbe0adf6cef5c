-- ===== src/Common/Json.antt =====
-- JSON values as the source receives them under the type `unknown`. `undefined`, the value of a
-- missing key, is `none`. A number that is no integer is kept by its text and never computed with.
use Prim.Native.Nat.{ℕ}
use Prim.Native.String.{String}
use mathlib.Core.Bool.{Bool, true, false}
use mathlib.Core.Option.{Option, none, some}
use mathlib.Core.List.{List, [], ◌∷◌}
use text.Mathlib.Text.{◌==◌}
use atproto_market.Common.Tests.{if◌then◌else◌}

-- `negative n` is -(n + 1).
pub data Number : Type 0 where
  natural : ℕ → Number
  negative : ℕ → Number
  fractional : String → Number

mutual
  pub data Json : Type 0 where
    null : Json
    boolean : Bool → Json
    number : Number → Json
    str : String → Json
    array : Items → Json
    object : Fields → Json

  pub data Items : Type 0 where
    nil : Items
    cons : Json → Items → Items

  pub data Fields : Type 0 where
    end : Fields
    field : String → Json → Fields → Fields

unfoldable pub fields_get : Fields → String → Option Json
fields_get end k = none
fields_get (field j v fs) k = if j == k then some v else fields_get fs k

abbrev pub items : Items → List Json
items nil = []
items (cons v vs) = v ∷ items vs

-- `o[k]` for an object; any other value has no fields of its own that the source reads.
unfoldable pub member : Json → String → Option Json
unfolding fields_get
member (object fs) k = fields_get fs k
member _ k = none

-- `v && typeof v === "object"`: arrays pass too.
abbrev pub is_object : Json → Bool
is_object (object fs) = true
is_object (array vs) = true
is_object _ = false

-- The text of a value whose `typeof` is "string".
abbrev pub as_text : Option Json → Option String
as_text (some (str s)) = some s
as_text _ = none

-- The value that passes `Number.isInteger`.
abbrev pub as_integer : Option Json → Option Number
as_integer (some (number (natural n))) = some (natural n)
as_integer (some (number (negative n))) = some (negative n)
as_integer _ = none
