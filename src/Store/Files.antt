-- ===== src/Store/Files.antt =====
-- The operations of the store (lib/market-bidder-contract-store-fs/mod.ts). Those of one receipt run
-- one after another, so each is one step. `before` is the order of file names and `earlier` the
-- order of times of acceptance, `localeCompare`.
use atproto_market.Common.{
  String, ℕ, Bool, true, false, Option, none, some, List, [], ◌∷◌, if◌then◌else◌, ltb, length,
  includes, map,
}
use atproto_market.Common.Sort.{sort_by}
use atproto_market.Common.Attempt.{Attempt, returned, ◌>>=◌}
use atproto_market.Common.Dict.{Dict, get, set, delete, has}
use atproto_market.Receipts.{
  StoredContract, Tombstone, ContractEvent, ContractEventType, stored_contract_of,
}
use atproto_market.Store.Parse.{
  Platform, file_name_of, parse_contract, parse_tombstone, contract_json, tombstone_json,
  envelope_text,
}

pub record Files : Type 0 where
  pub contracts : Dict String
  pub tombstones : Dict String

unfoldable pub over {ℓ} : {A : Type ℓ} → Option A → Option A → Option A
over (some a) b = some a
over none b = b

-- `{ ...previous, ...next }`: what is undefined in the next one is kept.
unfoldable pub merged : Option StoredContract → StoredContract → StoredContract
unfolding over
merged none next = next
merged (some previous) next = record next {
  accept_uri = over next.accept_uri previous.accept_uri;
  accept_cid = over next.accept_cid previous.accept_cid;
  provider_id = over next.provider_id previous.provider_id;
  provider = over next.provider previous.provider;
  submit_event_url = over next.submit_event_url previous.submit_event_url;
}

-- What the file holds, if it is there.
unfoldable pub previous_of : Platform → String → Option String → Attempt (Option StoredContract)
previous_of p file none = returned none
previous_of p file (some raw) = parse_contract p raw file >>= λ c. returned (some c)

abbrev pub is_end : ContractEventType → Bool
is_end ContractEventType.terminated = true
is_end _ = false

unfoldable pub write_contract : Platform → Files → String → StoredContract → Files
write_contract p s file c = record s {
  contracts = set s.contracts file (envelope_text p "contract" (contract_json c));
}

unfoldable pub save : Platform → Files → ContractEvent → Attempt Files
unfolding write_contract
save p s event =
    let file = file_name_of p event.receipt_uri in
    if is_end event.type
    then returned (record s { contracts = delete s.contracts file })
    else if has s.tombstones file
    then returned s
    else previous_of p file (get s.contracts file) >>= λ previous.
        returned (write_contract p s file (merged previous (stored_contract_of event)))

unfoldable pub save_tombstone : Platform → Files → Tombstone → Files
save_tombstone p s t = record s {
  tombstones =
      set s.tombstones (file_name_of p t.receipt_uri)
        (envelope_text p "tombstone" (tombstone_json t));
}

-- The tombstones of the files that are young enough; the files of the others are removed.
unfoldable pub load_tombstones :
    Platform
    → ℕ
    → List (String × String)
    → Dict String
    → Attempt (Dict String × List (Tombstone × ℕ))
load_tombstones p cutoff [] files = returned (files, [])
load_tombstones p cutoff ((file, raw) ∷ rest) files = do
  t ← parse_tombstone p raw
  let old = ltb t.1 cutoff
  more ← load_tombstones p cutoff rest (if old then delete files file else files)
  returned (more.0, if old then more.1 else t ∷ more.1)

-- The loop that drops the oldest while there are too many.
unfoldable pub cap_tombstones :
    Platform → ℕ → List (Tombstone × ℕ) → Dict String → Dict String × List (Tombstone × ℕ)
cap_tombstones p capacity [] files = (files, [])
cap_tombstones p capacity (t ∷ ts) files =
    let fewer = cap_tombstones p capacity ts (delete files (file_name_of p t.0.receipt_uri)) in
    if ltb capacity (length (t ∷ ts)) then fewer else (files, t ∷ ts)

-- The contracts that are not dead; the files of the dead are removed.
unfoldable pub load_contracts :
    Platform
    → List String
    → List (String × String)
    → Dict String
    → Attempt (Dict String × List StoredContract)
load_contracts p dead [] files = returned (files, [])
load_contracts p dead ((file, raw) ∷ rest) files = do
  c ← parse_contract p raw file
  let gone = includes c.receipt_uri dead
  more ← load_contracts p dead rest (if gone then delete files file else files)
  returned (more.0, if gone then more.1 else c ∷ more.1)

pub record StoredContracts : Type 0 where
  pub contracts : List StoredContract
  pub tombstones : List Tombstone

abbrev pub first_tombstone : (Tombstone × ℕ) → Tombstone
first_tombstone t = t.0

-- `before` orders the names of files, `earlier` the times of acceptance. Only files of the store are
-- in the directories: temporary ones are removed and others are passed over.
module _ (p : Platform) (before earlier : String → String → Bool) where
  unfoldable pub by_name : Dict String → List (String × String)
  by_name files = sort_by (λ a b. before a.0 b.0) [] files

  unfoldable pub load : ℕ → ℕ → Files → Attempt (Files × StoredContracts)
  unfolding by_name
  load cutoff capacity s = do
    young ← load_tombstones p cutoff (by_name s.tombstones) s.tombstones
    let sorted = sort_by (λ a b. ltb a.1 b.1) [] young.1
    let kept = cap_tombstones p capacity sorted young.0
    let tombstones = map first_tombstone kept.1
    found ← load_contracts p (map (λ t. t.receipt_uri) tombstones) (by_name s.contracts) s.contracts
    returned (
      record { contracts = found.0; tombstones = kept.0 },
      record {
        contracts = sort_by (λ a b. earlier a.accepted_at b.accepted_at) [] found.1;
        tombstones = tombstones;
      },
    )
