-- ===== src/Common/Dict.antt =====
-- The `Map<string, V>` of JavaScript: entries in the order of their first insertion. `set` on a
-- key that is there writes in place, and `delete` closes the gap. A `Set<string>` is a map to
-- `Unit`.
use Prim.Native.Nat.{◌≤◌}
use Prim.Native.String.{String}
use mathlib.Core.Path.{◌≡◌, refl}
use mathlib.Core.Bool.{Bool, false}
use mathlib.Core.Option.{Option, none, some}
use mathlib.Core.List.{List, [], ◌∷◌, ◌++◌}
use native.Mathlib.Omega.{arith}
use text.Mathlib.Text.{◌==◌}
use text.Mathlib.TextEquality.{eq_iff}
use atproto_market.Common.Tests.{if◌then◌else◌, is_some}
use atproto_market.Common.Lists.{length}

abbrev pub Dict {ℓ} : Type ℓ → Type ℓ
Dict V = List (String × V)

module _ {ℓ} {V : Type ℓ} where
  unfoldable pub get : Dict V → String → Option V
  get [] k = none
  get ((j, v) ∷ m) k = if j == k then some v else get m k

  unfoldable pub set : Dict V → String → V → Dict V
  set [] k v = (k, v) ∷ []
  set ((j, w) ∷ m) k v = if j == k then (j, v) ∷ m else (j, w) ∷ set m k v

  unfoldable pub delete : Dict V → String → Dict V
  delete [] k = []
  delete ((j, v) ∷ m) k = if j == k then delete m k else (j, v) ∷ delete m k

  abbrev pub has : Dict V → String → Bool
  has m k = is_some (get m k)

  abbrev pub keys : Dict V → List String
  keys [] = []
  keys ((k, v) ∷ m) = k ∷ keys m

  pub get-nil : (k : String) → get [] k ≡ none
  unfolding get
  get-nil k = refl

  -- What a lookup gives after a write, at every key.
  pub get-set :
      (m : Dict V) (k j : String) (v : V) → get (set m k v) j ≡ (if k == j then some v else get m j)
  unfolding get set
  get-set [] k j v = refl
  get-set ((i, w) ∷ m) k j v = ground (arith, eq_iff k j, eq_iff i k, eq_iff i j, get-set m k j v)

  pub get-delete :
      (m : Dict V) (k j : String) → get (delete m k) j ≡ (if k == j then none else get m j)
  unfolding get delete
  get-delete [] k j = ground arith
  get-delete ((i, w) ∷ m) k j = ground (arith, eq_iff k j, eq_iff i k, eq_iff i j, get-delete m k j)

  -- No key stands twice.
  abbrev pub Fresh : String → Dict V → Type 0
  Fresh k [] = Unit {0}
  Fresh k ((j, v) ∷ m) = ((j == k) ≡ false) × Fresh k m

  abbrev pub HasUniqueKeys : Dict V → Type 0
  HasUniqueKeys [] = Unit {0}
  HasUniqueKeys ((k, v) ∷ m) = Fresh k m × HasUniqueKeys m

  pub Fresh-set :
      (m : Dict V) (k j : String) (v : V) → Fresh k m → (j == k) ≡ false → Fresh k (set m j v)
  unfolding set
  Fresh-set [] k j v h e = (e, tt)
  Fresh-set ((i, w) ∷ m) k j v h e = ground (arith, Fresh-set m k j v h.1 e)

  pub Fresh-delete : (m : Dict V) (k j : String) → Fresh k m → Fresh k (delete m j)
  unfolding delete
  Fresh-delete [] k j h = tt
  Fresh-delete ((i, w) ∷ m) k j h = ground (arith, Fresh-delete m k j h.1)

  pub Fresh-delete_self : (m : Dict V) (k : String) → Fresh k (delete m k)
  unfolding delete
  Fresh-delete_self [] k = tt
  Fresh-delete_self ((i, w) ∷ m) k = ground (arith, Fresh-delete_self m k)

  pub set-HasUniqueKeys :
      (m : Dict V) (k : String) (v : V) → HasUniqueKeys m → HasUniqueKeys (set m k v)
  unfolding set
  set-HasUniqueKeys [] k v h = (tt, tt)
  set-HasUniqueKeys ((i, w) ∷ m) k v h =
      ground (arith, eq_iff i k, eq_iff k i, Fresh-set m i k v h.0, set-HasUniqueKeys m k v h.1)

  pub delete-HasUniqueKeys :
      (m : Dict V) (k : String) → HasUniqueKeys m → HasUniqueKeys (delete m k)
  unfolding delete
  delete-HasUniqueKeys [] k h = tt
  delete-HasUniqueKeys ((i, w) ∷ m) k h =
      ground (arith, Fresh-delete m i k h.0, delete-HasUniqueKeys m k h.1)

  pub delete_of_Fresh : (m : Dict V) (k : String) → Fresh k m → delete m k ≡ m
  unfolding delete
  delete_of_Fresh [] k h = refl
  delete_of_Fresh ((i, w) ∷ m) k h = ground (arith, delete_of_Fresh m k h.1)

  pub set_of_Fresh : (m : Dict V) (k : String) (v : V) → Fresh k m → set m k v ≡ m ++ (k, v) ∷ []
  unfolding set
  set_of_Fresh [] k v h = refl
  set_of_Fresh ((i, w) ∷ m) k v h = ground (arith, set_of_Fresh m k v h.1)

  pub get_of_Fresh : (m : Dict V) (k : String) → Fresh k m → get m k ≡ none
  unfolding get
  get_of_Fresh [] k h = refl
  get_of_Fresh ((i, w) ∷ m) k h = ground (arith, get_of_Fresh m k h.1)

  pub get-Fresh : (m : Dict V) (k : String) → get m k ≡ none → Fresh k m
  unfolding get
  get-Fresh [] k h = tt
  get-Fresh ((i, w) ∷ m) k h = ground (arith, get-Fresh m k)

  pub length-delete-le : (m : Dict V) (k : String) → length (delete m k) ≤ length m
  unfolding delete
  length-delete-le [] k = omega arith
  length-delete-le ((i, w) ∷ m) k = ground (arith, length-delete-le m k)
