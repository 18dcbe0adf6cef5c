-- ===== src/Store/Trust.antt =====
-- What is loaded from the files.
use atproto_market.Common.{
  String, ℕ, ◌≤◌, suc, eq_refl, Bool, false, ◌≡◌, refl, ap, arith, some, List, [], ◌∷◌, map,
  if◌then◌else◌, ◌==◌, eq_iff, All, Bool-cases, inl, inr, includes, ltb, length,
}
use atproto_market.Common.Sort.{sort_by, sort_by-All}
use atproto_market.Common.Attempt.{returned, >>=-eq-returned, returned-eq}
use atproto_market.Common.Dict.{Dict, get, delete, Fresh, HasUniqueKeys}
use atproto_market.Receipts.{StoredContract, Tombstone}
use atproto_market.Store.Parse.{
  Platform, file_name_of, parse_contract, parse_envelope, contract_of, check_name,
}
use atproto_market.Store.Files.{
  Files, StoredContracts, load_tombstones, cap_tombstones, load_contracts, by_name, load,
  first_tombstone, previous_of,
}

-- A contract that was loaded has no tombstone among those loaded.
abbrev pub IsAlive : List String → StoredContract → Type 0
IsAlive dead c = includes c.receipt_uri dead ≡ false

-- It is the one in the file of its receipt.
abbrev pub IsHeld : Platform → Dict String → StoredContract → Type 0
IsHeld p files c =
    previous_of p (file_name_of p c.receipt_uri) (get files (file_name_of p c.receipt_uri))
    ≡ returned (some c)

abbrev IsEntry : Dict String → (String × String) → Type 0
IsEntry files e = get files e.0 ≡ some e.1

behind-IsEntry :
    (k v : String) (m rest : Dict String)
    → Fresh k rest
    → All (IsEntry m) rest
    → All (IsEntry ((k, v) ∷ m)) rest
unfolding get
behind-IsEntry k v m [] f h = tt
behind-IsEntry k v m ((j, w) ∷ rest) f h =
    (ground (arith, f.0, h.0, eq_iff k j, eq_iff j k), behind-IsEntry k v m rest f.1 h.1)

-- Where no name stands twice, each entry is the one that is found.
entries-IsEntry : (m : Dict String) → HasUniqueKeys m → All (IsEntry m) m
unfolding get
entries-IsEntry [] h = tt
entries-IsEntry ((k, v) ∷ m) h =
    (ground (arith, eq_refl k), behind-IsEntry k v m m h.0 (entries-IsEntry m h.1))

cap_tombstones-le :
    (p : Platform) (capacity : ℕ) (ts : List (Tombstone × ℕ)) (files : Dict String)
    → length (map first_tombstone (cap_tombstones p capacity ts files).1) ≤ capacity
unfolding cap_tombstones
cap_tombstones-le p capacity [] files = omega arith
cap_tombstones-le p capacity (t ∷ ts) files =
    let fewer = cap_tombstones-le p capacity ts (delete files (file_name_of p t.0.receipt_uri)) in
    let same = length-tombstones ts in ground (arith, fewer, same)
  where
    length-tombstones : (xs : List (Tombstone × ℕ)) → length (map first_tombstone xs) ≡ length xs
    length-tombstones [] = refl
    length-tombstones (x ∷ xs) = ap suc (length-tombstones xs)

module _ (p : Platform) (before earlier : String → String → Bool) where
  held_lem :
      (files : Dict String) (file raw : String) (c : StoredContract)
      → IsEntry files (file, raw)
      → parse_contract p raw file ≡ returned c
      → IsHeld p files c
  unfolding previous_of parse_contract check_name
  held_lem files file raw c there read =
      let (v, e, h1) = >>=-eq-returned (parse_envelope p raw "contract") _ read in
      let (d, k, h2) = >>=-eq-returned (contract_of v) _ h1 in
      elim (Bool-cases (file_name_of p d.receipt_uri == file)) [
        | inr other ↦ absurd (ground (arith, h2, other))
        | inl own ↦
            let is : d ≡ c = ground (arith, h2, own) in
            let named = (eq_iff (file_name_of p d.receipt_uri) file).0 own in
            rw (← is, named, there, e, k, own) refl
      ]

  load_contracts-All :
      (files : Dict String) (dead : List String) (es : List (String × String)) (left : Dict String)
      (r : Dict String × List StoredContract)
      → All (IsEntry files) es
      → load_contracts p dead es left ≡ returned r
      → All (IsAlive dead) r.1 × All (IsHeld p files) r.1
  unfolding load_contracts
  load_contracts-All files dead [] left r h l = let is = returned-eq l in rw (← is) (tt, tt)
  load_contracts-All files dead ((file, raw) ∷ rest) left r h l =
      let (c, read, l1) = >>=-eq-returned (parse_contract p raw file) _ l in
      let (more, others, l2) =
        >>=-eq-returned
          (load_contracts p dead rest
            (if includes c.receipt_uri dead then delete left file else left))
          _ l1 in
      let (alive, held) = load_contracts-All files dead rest _ more h.1 others in
      let is = returned-eq l2 in
      elim (Bool-cases (includes c.receipt_uri dead)) [
        | inl gone ↦ rw (← is, gone) (alive, held)
        | inr stays ↦ rw (← is, stays) ((stays, alive), (held_lem files file raw c h.0 read, held))
      ]

  -- If no file name stands twice, each contract that is loaded is the one that the file of its receipt
  -- holds, and no tombstone that is loaded is of its receipt; of the tombstones at most as many are
  -- loaded as there is room for.
  pub load-IsTrusted :
      (cutoff capacity : ℕ) (s s' : Files) (r : StoredContracts)
      → HasUniqueKeys s.contracts
      → load p before earlier cutoff capacity s ≡ returned (s', r)
      → All (IsAlive (map (λ t. t.receipt_uri) r.tombstones)) r.contracts
        × All (IsHeld p s.contracts) r.contracts
        × (length r.tombstones ≤ capacity)
  unfolding load by_name
  load-IsTrusted cutoff capacity s s' r unique h =
      let (young, y, h1) =
        >>=-eq-returned
          (load_tombstones p cutoff (by_name p before earlier s.tombstones) s.tombstones) _ h in
      let kept = cap_tombstones p capacity (sort_by (λ a b. ltb a.1 b.1) [] young.1) young.0 in
      let dead = map (λ t. t.receipt_uri) (map first_tombstone kept.1) in
      let (found, f, h2) =
        >>=-eq-returned (load_contracts p dead (by_name p before earlier s.contracts) s.contracts) _
          h1 in
      let (alive, held) =
        load_contracts-All s.contracts dead (by_name p before earlier s.contracts) s.contracts found
          (sort_by-All (IsEntry s.contracts) (λ a b. before a.0 b.0) [] s.contracts tt
            (entries-IsEntry s.contracts unique))
          f in
      let is = ap (λ z. z.1) (returned-eq h2) in
      let less = λ (a b : StoredContract). earlier a.accepted_at b.accepted_at in
      rw (← is) (
        sort_by-All (IsAlive dead) less [] found.1 tt alive,
        sort_by-All (IsHeld p s.contracts) less [] found.1 tt held,
        cap_tombstones-le p capacity (sort_by (λ a b. ltb a.1 b.1) [] young.1) young.0,
      )
