-- ===== src/Common/Fields.antt =====
-- Objects as values: `{ ...o }`, an assignment to a property, `delete o[k]`, and the texts inside.
use atproto_market.Common.{
  String, ℕ, zero, suc, Bool, length, ◌≡◌, refl, arith, Option, none, some, List, [], ◌∷◌,
  if◌then◌else◌, ◌==◌, eq_iff,
}
use atproto_market.Common.Json.{
  Json, Number, Fields, null, boolean, number, str, array, object, end, field, items, fields_get,
  member,
}

-- `o[k] = v`: a property that is there keeps its place.
unfoldable pub fields_set : Fields → String → Json → Fields
fields_set end k v = field k v end
fields_set (field j w fs) k v = if j == k then field j v fs else field j w (fields_set fs k v)

-- `delete o[k]`
unfoldable pub fields_drop : Fields → String → Fields
fields_drop end k = end
fields_drop (field j w fs) k =
    let rest = fields_drop fs k in if j == k then rest else field j w rest

pub fields_get-fields_set :
    (fs : Fields) (k j : String) (v : Json)
    → fields_get (fields_set fs k v) j ≡ (if k == j then some v else fields_get fs j)
unfolding fields_get fields_set
fields_get-fields_set end k j v = refl
fields_get-fields_set (field i w fs) k j v =
    ground (arith, eq_iff k j, eq_iff i k, eq_iff i j, fields_get-fields_set fs k j v)

pub fields_get-fields_drop :
    (fs : Fields) (k j : String)
    → fields_get (fields_drop fs k) j ≡ (if k == j then none else fields_get fs j)
unfolding fields_get fields_drop
fields_get-fields_drop end k j = ground arith
fields_get-fields_drop (field i w fs) k j =
    ground (arith, eq_iff k j, eq_iff i k, eq_iff i j, fields_get-fields_drop fs k j)

-- A step into a value: to a property of an object, or to a member of an array.
pub data Step : Type 0 where
  property : String → Step
  index : ℕ → Step

-- What stands at a place: of an array its length, of an object only that it is one.
pub data Leaf : Type 0 where
  null_leaf object_leaf : Leaf
  boolean_leaf : Bool → Leaf
  number_leaf : Number → Leaf
  text_leaf : String → Leaf
  array_leaf : ℕ → Leaf

leaf : Json → Leaf
leaf null = null_leaf
leaf (boolean b) = boolean_leaf b
leaf (number n) = number_leaf n
leaf (str s) = text_leaf s
leaf (array vs) = array_leaf (length (items vs))
leaf (object fs) = object_leaf

nth_of : List Json → ℕ → Option Json
nth_of [] i = none
nth_of (v ∷ vs) zero = some v
nth_of (v ∷ vs) (suc i) = nth_of vs i

element : Json → ℕ → Option Json
unfolding nth_of
element (array vs) i = nth_of (items vs) i
element _ i = none

-- What stands in the value at the end of the path, if anything does.
unfoldable pub leaf_at : List Step → Option Json → Option Leaf
unfolding member element leaf
leaf_at path none = none
leaf_at [] (some v) = some (leaf v)
leaf_at (property k ∷ path) (some v) = leaf_at path (member v k)
leaf_at (index i ∷ path) (some v) = leaf_at path (element v i)

pub leaf_at-object :
    (fs : Fields) (k : String) (path : List Step)
    → leaf_at (property k ∷ path) (some (object fs)) ≡ leaf_at path (fields_get fs k)
unfolding leaf_at
leaf_at-object fs k path = refl

pub leaf_at-str : (s : String) → leaf_at [] (some (str s)) ≡ some (text_leaf s)
unfolding leaf_at
leaf_at-str s = refl
