-- ===== src/Scope/State/Index.antt =====
-- The index by did lists exactly the keys of the entries, and a dropped generation is gone.
use atproto_market.Common.{
  String, ℕ, ◌≤◌, Bool, true, false, ◌≡◌, refl, arith, Option, none, some, [], ◌∷◌, ◌==◌, eq_iff,
  eqb, length, if◌then◌else◌, or_else, is_some, Option-cases, Bool-cases, inl, inr,
}
use atproto_market.Common.Dict.{Dict, get, set, delete, get-nil, get-set, get-delete}
use atproto_market.Scope.State.{
  Entry, ScopeState, use_entry, use_key, current, unlist, drop_entry, drop,
}

abbrev pub lists : Dict (Dict (Unit {0})) → String → String → Bool
lists by_did did key = is_some (get (or_else (get by_did did) []) key)

module _ {ℓ} {T : Type ℓ} where
  abbrev pub owned_by : Option (Entry T) → String → Bool
  owned_by none did = false
  owned_by (some e) did = e.counterparty_did == did

  -- The index lists a key under a did exactly when the key's entry is of that did.
  abbrev pub IsIndexed : ScopeState T → Type 0
  IsIndexed s = (did key : String) → lists s.by_did did key ≡ owned_by (get s.entries key) did

empty_lists_nothing :
    (m : Dict (Unit {0})) (key : String) → eqb (length m) 0 ≡ true → is_some (get m key) ≡ false
unfolding get
empty_lists_nothing [] key h = refl
empty_lists_nothing ((k, v) ∷ m) key h = ground arith

lists-set :
    (by_did : Dict (Dict (Unit {0}))) (did did' key : String) (listed : Dict (Unit {0}))
    → lists (set by_did did listed) did' key
      ≡ (if did == did' then is_some (get listed key) else lists by_did did' key)
lists-set by_did did did' key listed = ground (arith, get-set by_did did did' listed)

lists-delete :
    (by_did : Dict (Dict (Unit {0}))) (did did' key : String)
    → lists (delete by_did did) did' key ≡ (if did == did' then false else lists by_did did' key)
unfolding get
lists-delete by_did did did' key = ground (arith, get-delete by_did did did')

-- Taking a key out of the set of a did changes nothing else.
lists-unlist :
    (by_did : Dict (Dict (Unit {0}))) (did key did' key' : String)
    → lists (unlist by_did did key (get by_did did)) did' key' ≡ (
        if did == did'
        then if key == key' then false else lists by_did did' key'
        else lists by_did did' key')
unfolding unlist
lists-unlist by_did did key did' key' = elim (Option-cases (get by_did did)) [
  | inl missing ↦
      rw missing (ground (arith, get-nil {V = Unit {0}} key', eq_iff did did', eq_iff key key'))
  | inr (listed, there) ↦ rw there (elim (Bool-cases (eqb (length (delete listed key)) 0)) [
    | inl empty ↦ rw empty (
        ground (
          arith,
          lists-delete by_did did did' key',
          empty_lists_nothing (delete listed key) key' empty,
          get-delete listed key key',
          eq_iff did did',
          eq_iff key key',
        ))
    | inr left ↦ rw left (
        ground (
          arith,
          lists-set by_did did did' key' (delete listed key),
          get-delete listed key key',
          eq_iff did did',
          eq_iff key key',
        ))
  ])
]

module _ {ℓ} {T : Type ℓ} (s : ScopeState T) (key : String) where
  -- A use of a key keeps the index by did in step with the entries: it lists a key under a did
  -- exactly when the key's entry is of that did.
  pub use_key-IsIndexed :
      (did : String) (payload : T) (now : ℕ)
      → IsIndexed s
      → IsIndexed (use_key s key did payload now).0
  unfolding use_key
  use_key-IsIndexed did payload now h did' key' = elim (Option-cases (get s.entries key)) [
    | inl fresh ↦ ground (
      arith,
      h did' key',
      get-nil {V = Unit {0}} key',
      lists-set s.by_did did did' key' (set (or_else (get s.by_did did) []) key tt),
      get-set (or_else (get s.by_did did) []) key key' tt,
      get-set s.entries key key' (use_entry s key did payload now none).1,
      eq_iff did did',
      eq_iff key key',
    )
    | inr (old, there) ↦ ground (
      arith,
      h did' key',
      get-set s.entries key key' (use_entry s key did payload now (some old)).1,
      eq_iff key key',
    )
  ]

  -- Dropping a key keeps the index by did in step with the entries.
  pub drop-IsIndexed : IsIndexed s → IsIndexed (drop s key)
  unfolding drop
  drop-IsIndexed h did' key' = elim (Option-cases (get s.entries key)) [
    | inl missing ↦ rw (missing, drop_entry) (h did' key')
    | inr (e, there) ↦
        rw (there, drop_entry)
          (ground (
            arith,
            h did' key',
            lists-unlist s.by_did e.counterparty_did key did' key',
            get-delete s.entries key key',
            eq_iff e.counterparty_did did',
            eq_iff key key',
          ))
  ]

module _ {ℓ} {T : Type ℓ} (s : ScopeState T) (key : String) (g : ℕ) where
  -- A generation that a key has lost does not come back by a use.
  pub current-use_key :
      (key' did : String) (payload : T) (now : ℕ)
      → g ≤ s.generation
      → current s key g ≡ none
      → (current (use_key s key' did payload now).0 key g ≡ none)
        × (s.generation ≤ (use_key s key' did payload now).0.generation)
  unfolding current use_key
  current-use_key key' did payload now le gone = elim (Option-cases (get s.entries key')) [
    | inl fresh ↦ ground (
      arith,
      get-set s.entries key' key (use_entry s key' did payload now none).1,
      eq_iff key' key,
    )
    | inr (old, there) ↦ ground (
      arith,
      get-set s.entries key' key (use_entry s key' did payload now (some old)).1,
      eq_iff key' key,
    )
  ]

  pub current-drop :
      (key' : String)
      → current s key g ≡ none
      → (current (drop s key') key g ≡ none) × ((drop s key').generation ≡ s.generation)
  unfolding current drop
  current-drop key' gone = ground (arith, get-delete s.entries key' key)

  pub current-drop_self : current (drop s key) key g ≡ none
  unfolding current drop
  current-drop_self = ground (arith, get-delete s.entries key key, eq_iff key key)

pub generation-drop {ℓ} :
    {T : Type ℓ} (s : ScopeState T) (key : String) → (drop s key).generation ≡ s.generation
unfolding drop
generation-drop s key = ground arith
