-- ===== src/Common/Pick.antt =====
-- What taking one member out of a list keeps.
use Prim.Native.Nat.{ℕ, zero, suc}
use Prim.Native.String.{String}
use mathlib.Core.Path.{◌≡◌, refl}
use mathlib.Core.Bool.{false, ◌||◌}
use mathlib.Core.Option.{Option, none, some}
use mathlib.Core.List.{List, [], ◌∷◌, map}
use native.Mathlib.Omega.{arith}
use text.Mathlib.Text.{◌==◌}
use text.Mathlib.TextEquality.{eq_iff}
use atproto_market.Common.Text.{includes}
use atproto_market.Common.Distinct.{Distinct}
use atproto_market.Common.Lists.{All, pick}

-- A member picked from a list whose members satisfy `P`.
abbrev pub IsPicked {ℓ κ} : {A : Type ℓ} → (A → Type κ) → Option (A × List A) → Type κ
IsPicked P none = Unit
IsPicked P (some (x, xs)) = P x × (All P xs)

IsPicked-behind {ℓ κ} :
    {A : Type ℓ} (P : A → Type κ) (x : A) (o : Option (A × List A))
    → P x
    → IsPicked P o
    → IsPicked P (elim o [ none ↦ none | some (y, ys) ↦ some (y, x ∷ ys) ])
IsPicked-behind P x none p h = tt
IsPicked-behind P x (some (y, ys)) p (q, qs) = (q, (p, qs))

pub pick-IsPicked {ℓ κ} :
    {A : Type ℓ} (P : A → Type κ) (i : ℕ) (xs : List A) → All P xs → IsPicked P (pick i xs)
pick-IsPicked P i [] h = tt
pick-IsPicked P zero (x ∷ xs) h = h
pick-IsPicked P (suc i) (x ∷ xs) (p, h) = IsPicked-behind P x (pick i xs) p (pick-IsPicked P i xs h)

module _ {ℓ} {A : Type ℓ} (f : A → String) where
  -- The names of what is picked and of what is left are those of the list.
  HasNames : List A → Option (A × List A) → String → Type 0
  HasNames xs none u = Unit
  HasNames xs (some (y, ys)) u = includes u (map f xs) ≡ (f y == u || includes u (map f ys))

  HasNames-behind :
      (x : A) (xs : List A) (u : String) (o : Option (A × List A))
      → HasNames xs o u
      → HasNames (x ∷ xs) (elim o [ none ↦ none | some (y, ys) ↦ some (y, x ∷ ys) ]) u
  unfolding HasNames includes
  HasNames-behind x xs u none h = tt
  HasNames-behind x xs u (some (y, ys)) h = ground (arith, h)

  pick-HasNames : (i : ℕ) (xs : List A) (u : String) → HasNames xs (pick i xs) u
  unfolding HasNames includes
  pick-HasNames i [] u = tt
  pick-HasNames zero (x ∷ xs) u = refl
  pick-HasNames (suc i) (x ∷ xs) u = HasNames-behind x xs u (pick i xs) (pick-HasNames i xs u)

  -- What is picked has another name than what is left, where no name stands twice.
  abbrev pub IsApart : Option (A × List A) → Type 0
  IsApart none = Unit
  IsApart (some (y, ys)) = (includes (f y) (map f ys) ≡ false) × Distinct (map f ys)

  IsApart-behind :
      (x : A) (xs : List A) (o : Option (A × List A))
      → includes (f x) (map f xs) ≡ false
      → HasNames xs o (f x)
      → IsApart o
      → IsApart (elim o [ none ↦ none | some (y, ys) ↦ some (y, x ∷ ys) ])
  unfolding HasNames includes
  IsApart-behind x xs none out names h = tt
  IsApart-behind x xs (some (y, ys)) out names h =
      ground (arith, out, names, h, eq_iff (f x) (f y), eq_iff (f y) (f x))

  pub pick-IsApart : (i : ℕ) (xs : List A) → Distinct (map f xs) → IsApart (pick i xs)
  pick-IsApart i [] h = tt
  pick-IsApart zero (x ∷ xs) h = h
  pick-IsApart (suc i) (x ∷ xs) h =
      IsApart-behind x xs (pick i xs) h.0 (pick-HasNames i xs (f x)) (pick-IsApart i xs h.1)
