-- ===== src/Store/Complete.antt =====
-- Which contracts of the files are loaded at a start (lib/market-bidder-contract-store-fs/mod.ts).
use atproto_market.Common.{
  String, ℕ, Bool, true, ◌||◌, ◌≡◌, ap, arith, List, [], ◌∷◌, map, if◌then◌else◌, eq_refl, All,
  Bool-cases, inl, inr, includes, ltb,
}
use mathlib.Core.Path.{subst}
use atproto_market.Common.Sort.{sort_by, sort_by-All_back, includes-sort_by}
use atproto_market.Common.Attempt.{returned, >>=-eq-returned, returned-eq}
use atproto_market.Common.Dict.{Dict, delete}
use atproto_market.Receipts.{StoredContract}
use atproto_market.Store.Parse.{Platform, parse_contract}
use atproto_market.Store.Files.{
  Files, StoredContracts, load_tombstones, cap_tombstones, load_contracts, by_name, load,
  first_tombstone,
}

-- The file is read as a contract, and one of its receipt is loaded unless the receipt is dead.
pub record IsServed (p : Platform) (dead : List String) (cs : List StoredContract)
    (file : String × String) : Type 0 where
  contract : StoredContract
  read : parse_contract p file.1 file.0 ≡ returned contract
  served :
      (includes contract.receipt_uri dead
        || includes contract.receipt_uri (map (λ c. c.receipt_uri) cs))
      ≡ true

module _ (p : Platform) (dead : List String) where
  -- What is among some contracts is among more.
  IsServed-more :
      (cs ds : List StoredContract) (files : List (String × String))
      → ((u : String)
          → includes u (map (λ c. c.receipt_uri) cs) ≡ true
          → includes u (map (λ c. c.receipt_uri) ds) ≡ true)
      → All (IsServed p dead cs) files
      → All (IsServed p dead ds) files
  IsServed-more cs ds [] more h = tt
  IsServed-more cs ds (f ∷ fs) more (h, hs) = (
    record {
      contract = h.contract;
      read = h.read;
      served = ground (arith, h.served, more h.contract.receipt_uri);
    },
    IsServed-more cs ds fs more hs,
  )

  IsServed-next :
      (c : StoredContract) (cs ds : List StoredContract) (file raw : String)
      (rest : List (String × String))
      → parse_contract p raw file ≡ returned c
      → (if includes c.receipt_uri dead then cs else c ∷ cs) ≡ ds
      → All (IsServed p dead cs) rest
      → All (IsServed p dead ds) ((file, raw) ∷ rest)
  unfolding includes
  IsServed-next c cs ds file raw rest read is h = elim (Bool-cases (includes c.receipt_uri dead)) [
    | inl gone ↦
        let same : cs ≡ ds = rw gone at is in
        subst (λ z. All (IsServed p dead z) ((file, raw) ∷ rest)) same
          (record { contract = c; read = read; served = ground (arith, gone) }, h)
    | inr stays ↦
        let same : (c ∷ cs) ≡ ds = rw stays at is in
        subst (λ z. All (IsServed p dead z) ((file, raw) ∷ rest)) same
          (
            record { contract = c; read = read; served = ground (arith, eq_refl c.receipt_uri) },
            IsServed-more cs (c ∷ cs) rest (λ u k. ground (arith, k)) h,
          )
  ]

  load_contracts-IsServed :
      (es : List (String × String)) (left : Dict String) (r : Dict String × List StoredContract)
      → load_contracts p dead es left ≡ returned r
      → All (IsServed p dead r.1) es
  unfolding load_contracts
  load_contracts-IsServed [] left r l = tt
  load_contracts-IsServed ((file, raw) ∷ rest) left r l =
      let (c, read, l1) = >>=-eq-returned (parse_contract p raw file) _ l in
      let (more, others, l2) =
        >>=-eq-returned
          (load_contracts p dead rest
            (if includes c.receipt_uri dead then delete left file else left))
          _ l1 in
      IsServed-next c more.1 r.1 file raw rest read (ap (λ z. z.1) (returned-eq l2))
        (load_contracts-IsServed rest _ more others)

-- Where the bidder starts from its files, every file of a contract is read as one, and a contract of
-- its receipt is loaded unless a tombstone of the receipt is.
pub load-AreServed :
    (p : Platform) (before earlier : String → String → Bool) (cutoff capacity : ℕ) (s s' : Files)
    (r : StoredContracts)
    → load p before earlier cutoff capacity s ≡ returned (s', r)
    → All (IsServed p (map (λ t. t.receipt_uri) r.tombstones) r.contracts) s.contracts
unfolding load by_name
load-AreServed p before earlier cutoff capacity s s' r h =
    let (young, y, h1) =
      >>=-eq-returned
        (load_tombstones p cutoff (by_name p before earlier s.tombstones) s.tombstones) _ h in
    let kept = cap_tombstones p capacity (sort_by (λ a b. ltb a.1 b.1) [] young.1) young.0 in
    let dead = map (λ t. t.receipt_uri) (map first_tombstone kept.1) in
    let (found, f, h2) =
      >>=-eq-returned (load_contracts p dead (by_name p before earlier s.contracts) s.contracts) _
        h1 in
    let less = λ (a b : StoredContract). earlier a.accepted_at b.accepted_at in
    let sorted = sort_by less [] found.1 in
    let by_file = λ (a b : String × String). before a.0 b.0 in
    let served : All (IsServed p dead found.1) (sort_by by_file [] s.contracts) =
      load_contracts-IsServed p dead (sort_by by_file [] s.contracts) s.contracts found f in
    let all = (sort_by-All_back (IsServed p dead found.1) by_file [] s.contracts served).1 in
    let is = ap (λ z. z.1) (returned-eq h2) in
    subst
      (λ (z : StoredContracts).
        All (IsServed p (map (λ t. t.receipt_uri) z.tombstones) z.contracts) s.contracts)
      is
      (IsServed-more p dead found.1 sorted s.contracts
        (λ u k.
          unfold includes in
          ground (arith, k, includes-sort_by (λ c. c.receipt_uri) less u [] found.1))
        all)
