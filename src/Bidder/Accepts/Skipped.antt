-- ===== src/Bidder/Accepts/Skipped.antt =====
-- A second accept of the same record.
use atproto_market.Common.{
  String, ℕ, suc, ◌≤◌, ◌+◌, ◌-◌, true, false, ◌≡◌, refl, arith, Option, none, some, List, [], ◌∷◌,
  ltb, ◌==◌, eq_iff, eq_refl, is_some, Bool-cases, inl, inr, All,
}
use atproto_market.Common.Dict.{Dict, get, set, has, get-set}
use atproto_market.Bidder.Accepts.{Accepted, sweep, counted, admit, admit_all, one_hour}

-- An entry that is not older than the cutoff is kept: `at` or later.
IsSince : ℕ → Option ℕ → Type 0
IsSince at none = ⊥
IsSince at (some t) = at ≤ t

sweep-IsSince :
    (cutoff at : ℕ) (m : Dict ℕ) (uri : String)
    → cutoff ≤ at
    → IsSince at (get m uri)
    → IsSince at (get (sweep cutoff m) uri)
unfolding sweep IsSince get
sweep-IsSince cutoff at [] uri le h = h
sweep-IsSince cutoff at ((j, t) ∷ m) uri le h = elim (Bool-cases (j == uri)) [
  | inl same ↦
      let late : at ≤ t = rw same at h in
      let kept : ltb t cutoff ≡ false = ground (arith, late, le) in rw (kept, same) late
  | inr other ↦
      let rest = sweep-IsSince cutoff at m uri le (rw other at h) in
      elim (Bool-cases (ltb t cutoff)) [
        | inl old ↦ rw old rest
        | inr young ↦ rw (young, other) rest
      ]
]

counted-IsSince :
    (a : Accepted) (now at : ℕ) (uri : String)
    → now ≤ at + one_hour
    → IsSince at (get a.times uri)
    → IsSince at (get (counted a now).times uri)
unfolding counted
counted-IsSince a now at uri le h = elim (Bool-cases (ltb 100 (suc a.counter))) [
  | inl full ↦ rw full (sweep-IsSince (now - one_hour) at a.times uri (omega (arith, le)) h)
  | inr few ↦ rw few h
]

set-IsSince :
    (m : Dict ℕ) (j uri : String) (now at : ℕ)
    → has m j ≡ false
    → IsSince at (get m uri)
    → IsSince at (get (set m j now) uri)
unfolding IsSince
set-IsSince m j uri now at new h = elim (Bool-cases (j == uri)) [
  | inl same ↦ absurd (missing (get m uri) (rw ((eq_iff j uri).0 same) at new) h)
  | inr other ↦ rw (get-set m j uri now, other) h
]
  where
    missing : (o : Option ℕ) → is_some o ≡ false → IsSince at o → ⊥
    missing none e k = k
    missing (some t) e k = absurd (ground (arith, e))

admit-IsSince :
    (a : Accepted) (now at : ℕ) (j uri : String)
    → now ≤ at + one_hour
    → IsSince at (get a.times uri)
    → IsSince at (get (admit a now j).0.times uri)
unfolding admit
admit-IsSince a now at j uri le h = elim (Bool-cases (has a.times j)) [
  | inl known ↦ rw known h
  | inr new ↦ rw new (
      counted-IsSince (record a { times = set a.times j now }) now at uri le
        (set-IsSince a.times j uri now at new h))
]

admit_all-IsSince :
    (a : Accepted) (es : List (ℕ × String)) (at : ℕ) (uri : String)
    → All (λ e. e.0 ≤ at + one_hour) es
    → IsSince at (get a.times uri)
    → IsSince at (get (admit_all a es).times uri)
unfolding admit_all
admit_all-IsSince a [] at uri le h = h
admit_all-IsSince a ((now, j) ∷ rest) at uri le h =
    admit_all-IsSince (admit a now j).0 rest at uri le.1 (admit-IsSince a now at j uri le.0 h)

since-known : (at : ℕ) (o : Option ℕ) → IsSince at o → is_some o ≡ true
unfolding IsSince
since-known at none h = absurd h
since-known at (some t) h = refl

admitted-IsSince :
    (a : Accepted) (at : ℕ) (uri : String)
    → has a.times uri ≡ false
    → IsSince at (get (admit a at uri).0.times uri)
unfolding admit IsSince
admitted-IsSince a at uri new = rw new (
    counted-IsSince (record a { times = set a.times uri at }) at at uri (omega arith)
      (rw (get-set a.times uri uri at, eq_refl uri) (omega arith)))

-- An accept that went on to the callback is not handed to it again within an hour, however the
-- callback has ended and whatever else was accepted in between.
pub accept_skipped :
    (a : Accepted) (at : ℕ) (uri : String) (es : List (ℕ × String)) (later : ℕ)
    → (admit a at uri).1 ≡ true
    → All (λ e. e.0 ≤ at + one_hour) es
    → (admit (admit_all (admit a at uri).0 es) later uri).1 ≡ false
unfolding admit
accept_skipped a at uri es later went le = elim (Bool-cases (has a.times uri)) [
  | inl known ↦ absurd (ground (arith, went, known))
  | inr new ↦
      let known =
        since-known at _
          (admit_all-IsSince (admit a at uri).0 es at uri le (admitted-IsSince a at uri new)) in
      ground (arith, known)
]
