-- ===== src/Common/Split.antt =====
-- Splitting a text at a separator undoes joining lines that do not hold it.
use Prim.Native.Char.{Char, code}
use Prim.Native.String.{String}
use mathlib.Core.Path.{◌≡◌, refl, ap, ◌∙◌}
use mathlib.Core.Bool.{Bool, true, false}
use mathlib.Core.List.{[], ◌∷◌}
use Prim.Native.Nat.{ℕ}
use native.Mathlib.Omega.{arith}
use text.Mathlib.TextLemmas.{nil-append, cons-append, append-nil, append_assoc}
use atproto_market.Common.Tests.{eqb, eqb_iff, Bool-cases}
use atproto_market.Common.Lists.{every}
use mathlib.Core.Logic.{inl, inr}
use atproto_market.Common.Text.{◌⧺◌, singleton, codes, split_from, split}

-- No character of the text is `sep`.
abbrev pub Without : ℕ → String → Type 0
Without sep String.[] = Unit {0}
Without sep (String.◌∷◌ c s) = (eqb (code c) sep ≡ false) × Without sep s

pub Without-append : (sep : ℕ) (a b : String) → Without sep a → Without sep b → Without sep (a ⧺ b)
Without-append sep String.[] b ha hb = rw nil-append hb
Without-append sep (String.◌∷◌ c a) b ha hb = rw cons-append (ha.0, Without-append sep a b ha.1 hb)

-- Every character of the text passes the test.
abbrev pub Only : (ℕ → Bool) → String → Type 0
Only p String.[] = Unit {0}
Only p (String.◌∷◌ c s) = (p (code c) ≡ true) × Only p s

pub Only-append : (p : ℕ → Bool) (a b : String) → Only p a → Only p b → Only p (a ⧺ b)
Only-append p String.[] b ha hb = rw nil-append hb
Only-append p (String.◌∷◌ c a) b ha hb = rw cons-append (ha.0, Only-append p a b ha.1 hb)

pub codes-Only : (p : ℕ → Bool) (s : String) → every p (codes s) ≡ true → Only p s
codes-Only p String.[] h = tt
codes-Only p (String.◌∷◌ c s) h = (ground arith, codes-Only p s (ground arith))

-- A class of characters that leaves `sep` out.
pub Only-Without : (p : ℕ → Bool) (sep : ℕ) (s : String) → p sep ≡ false → Only p s → Without sep s
Only-Without p sep String.[] out h = tt
Only-Without p sep (String.◌∷◌ c s) out h = (
  elim (Bool-cases (eqb (code c) sep)) [
    | inl same ↦ let e : code c ≡ sep = (eqb_iff (code c) sep).0 same in absurd (cc (e, out, h.0))
    | inr other ↦ other
  ],
  Only-Without p sep s out h.1,
)

push-append :
    (cur : String) (d : Char) (a : String) → (cur ⧺ singleton d) ⧺ a ≡ cur ⧺ String.◌∷◌ d a
push-append cur d a = rw append_assoc (rw cons-append (rw nil-append))

split_from-line :
    (sep : ℕ) (c : Char) (cur a rest : String)
    → eqb (code c) sep ≡ true
    → Without sep a
    → split_from sep cur (a ⧺ String.◌∷◌ c rest) ≡ (cur ⧺ a) ∷ split_from sep "" rest
unfolding split_from
split_from-line sep c cur String.[] rest e h = rw (nil-append, append-nil) (rw e refl)
split_from-line sep c cur (String.◌∷◌ d a) rest e h = rw cons-append (
    rw h.0 (
      rw (split_from-line sep c (cur ⧺ singleton d) a rest e h.1)
        (ap (λ x. x ∷ split_from sep "" rest) (push-append cur d a))))

split_from-last : (sep : ℕ) (cur a : String) → Without sep a → split_from sep cur a ≡ (cur ⧺ a) ∷ []
unfolding split_from
split_from-last sep cur String.[] h = rw append-nil refl
split_from-last sep cur (String.◌∷◌ d a) h =
    rw h.0
      (rw (split_from-last sep (cur ⧺ singleton d) a h.1) (ap (λ x. x ∷ []) (push-append cur d a)))

-- A line and its separator, then the rest.
pub split-line :
    (sep : ℕ) (c : Char) (a rest : String)
    → eqb (code c) sep ≡ true
    → Without sep a
    → split sep (a ⧺ singleton c ⧺ rest) ≡ a ∷ split sep rest
unfolding split
split-line sep c a rest e h =
    ap (λ s. split_from sep "" (a ⧺ s))
      (cons-append c "" rest ∙ ap (λ s. String.◌∷◌ c s) (nil-append rest))
    ∙ split_from-line sep c "" a rest e h
    ∙ ap (λ s. s ∷ split_from sep "" rest) (nil-append a)

-- A text that does not hold the separator is its only part.
pub split_of_Without : (sep : ℕ) (a : String) → Without sep a → split sep a ≡ a ∷ []
unfolding split
split_of_Without sep a h = rw (split_from-last sep "" a h) (rw nil-append)
