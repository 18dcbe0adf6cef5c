-- ===== src/Tests/Stored.antt =====
-- A bidder with one stored contract, over a platform that reads every text as that contract.
use atproto_market.Common.{
  String, ℕ, Bool, true, false, [], ◌∷◌, none, some, List, ◌≡◌, ◌==◌, refl, arith, All, ◌≤◌, map,
  length, includes, if◌then◌else◌, eq_iff, false,
}
use atproto_market.Common.Attempt.{returned, thrown}
use atproto_market.Common.Dict.{Dict, get}
use atproto_market.Common.Json.{Json, Number, natural, number, str, object, end, field}
use atproto_market.Receipts.{
  StoredContract, ContractEvent, Tombstone, name, stored_contract_of, is_known,
}
use atproto_market.Receipts.ContractEventType.{accepted, provisioned, terminated}
use atproto_market.Store.Parse.{Platform, contract_json, envelope_of, file_name_of, parse_contract}
use atproto_market.Store.Files.{Files, StoredContracts, load, save, previous_of, merged, over}
use atproto_market.Store.Trips.{IsUpdated, save_trip}
use atproto_market.Store.Complete.{IsServed, load-AreServed}
use atproto_market.Store.Trust.{IsAlive, IsHeld, load-IsTrusted}
use atproto_market.Common.Distinct.{Distinct}
use atproto_market.Bidder.Load.{load_stored}
use atproto_market.Bidder.Load.Fresh.{started_world, load_stored-IsOnce}
use atproto_market.Bidder.Accepts.{nothing_accepted, admit, admit_all}
use atproto_market.Bidder.Accepts.Skipped.{accept_skipped}
use atproto_market.Common.Memo.{Memo, empty_memo}
use atproto_market.Market.Keys.{keys_for_did, keys_fetched}
use atproto_market.Market.Keys.Forgotten.{began, fetched, failed_fetch_stays}
use atproto_market.Vm.Delete.{Request}
use atproto_market.Vm.Machine.{Event, requested, completed, released, noticed, visited, run}
use atproto_market.Vm.Machine.Once.{IsOnce, ended}
use atproto_market.Vm.Machine.Once.Runs.{run-IsOnce}

abbrev event : ContractEvent
event = record {
  type = accepted;
  key = "r1#c";
  receipt_uri = "r1";
  receipt_cid = "c";
  accept_uri = some "a1";
  accept_cid = some "ac";
  accept_author = "did:plc:a";
  accepted_at = "t0";
  terminated_at = none;
  provider_id = some (name "vm1");
  provider = some "fc";
  submit_event_url = none;
}

abbrev contract : StoredContract
contract = record {
  key = "r1#c";
  receipt_uri = "r1";
  receipt_cid = "c";
  accept_uri = some "a1";
  accept_cid = some "ac";
  accept_author = "did:plc:a";
  accepted_at = "t0";
  provider_id = some (name "vm1");
  provider = some "fc";
  submit_event_url = none;
}

-- The envelope of a contract with a key and a receipt.
abbrev envelope : String → String → Json
envelope key uri = object (
    field "version" (number (natural 1)) (
      field "contract"
        (object (
          field "key" (str key) (
            field "receiptUri" (str uri) (
              field "receiptCid" (str "c") (
                field "acceptAuthor" (str "did:plc:a") (
                  field "acceptedAt" (str "t0") (
                    field "acceptUri" (str "a1") (
                      field "acceptCid" (str "ac")
                        (field "providerId" (str "vm1") (field "provider" (str "fc") end))))))))))
        end))

abbrev platform : Platform
platform = record {
  parse = λ s. returned (if s == "old" then envelope "r0#c" "r0" else envelope "r1#c" "r1");
  stringify = λ v. "contract";
  encode = λ s. s;
  time = λ s. some 5;
}

-- A change of the contract that lacks its provider.
abbrev change : ContractEvent
change = record event { type = provisioned; provider = none }

abbrev one_file : Files
one_file = record { contracts = ("r1.json", "contract") ∷ []; tombstones = [] }

save_trip_example :
    (s' : Files) × (c : StoredContract) × (save platform one_file change ≡ returned s')
    × (previous_of platform
          (file_name_of platform "r1")
          (get s'.contracts (file_name_of platform "r1"))
        ≡ returned (some c))
    × IsUpdated (some contract) change c
    × (s'.tombstones ≡ one_file.tombstones)
unfolding merged stored_contract_of contract_json envelope_of previous_of get file_name_of over
    atproto_market.Store.Parse.with_text atproto_market.Store.Parse.with_id parse_contract
    atproto_market.Store.Parse.parse_envelope atproto_market.Store.Parse.envelope_body
    atproto_market.Store.Parse.contract_of atproto_market.Store.Parse.needed
    atproto_market.Store.Parse.optional atproto_market.Store.Parse.provider_id_of
    atproto_market.Store.Parse.envelope_text
save_trip_example =
    save_trip platform one_file change (some contract)
      (record {
        key = refl;
        receipt_uri = refl;
        receipt_cid = refl;
        accept_author = refl;
        accepted_at = refl;
      })
      refl refl refl refl

abbrev in_order : String → String → Bool
in_order a b = false

abbrev loaded : StoredContracts
loaded = record { contracts = contract ∷ []; tombstones = [] }

file_loaded : load platform in_order in_order 0 8 one_file ≡ returned (one_file, loaded)
unfolding load atproto_market.Store.Files.load_tombstones atproto_market.Common.Sort.sort_by
    atproto_market.Store.Files.load_contracts parse_contract
    atproto_market.Store.Parse.parse_envelope atproto_market.Store.Parse.envelope_body
    atproto_market.Store.Parse.contract_of atproto_market.Store.Parse.needed
    atproto_market.Store.Parse.optional atproto_market.Store.Parse.provider_id_of file_name_of
    atproto_market.Common.includes atproto_market.Store.Files.cap_tombstones
file_loaded = refl

load-IsTrusted_example :
    All (IsAlive (map (λ t. t.receipt_uri) loaded.tombstones)) loaded.contracts
    × All (IsHeld platform one_file.contracts) loaded.contracts
    × (length loaded.tombstones ≤ 8)
load-IsTrusted_example =
    load-IsTrusted platform in_order in_order 0 8 one_file one_file loaded (tt, tt) file_loaded

load-AreServed_example :
    All
      (IsServed platform (map (λ t. t.receipt_uri) loaded.tombstones) loaded.contracts)
      one_file.contracts
load-AreServed_example =
    load-AreServed platform in_order in_order 0 8 one_file one_file loaded file_loaded

-- A contract whose end was recorded, with its tombstone, and whose file is still there.
abbrev old_contract : StoredContract
old_contract = record contract { key = "r0#c"; receipt_uri = "r0" }

abbrev old_tombstone : Tombstone
old_tombstone = record {
  receipt_uri = "r0";
  accept_author = "did:plc:a";
  reason = "oom";
  at = "t0";
  receipt_cid = none;
  accept_uri = none;
  accept_cid = none;
}

abbrev two_files : Dict String
two_files = ("r1.json", "contract") ∷ ("r0.json", "old") ∷ []

abbrev both : StoredContracts
both = record { contracts = old_contract ∷ contract ∷ []; tombstones = old_tombstone ∷ [] }

abbrev past : List ContractEvent
past = record event { type = terminated; key = "r0#c"; receipt_uri = "r0" } ∷ []

both-IsHeld : All (IsHeld platform two_files) both.contracts
unfolding previous_of get file_name_of parse_contract atproto_market.Store.Parse.parse_envelope
    atproto_market.Store.Parse.envelope_body atproto_market.Store.Parse.contract_of
    atproto_market.Store.Parse.needed atproto_market.Store.Parse.optional
    atproto_market.Store.Parse.provider_id_of
both-IsHeld = (refl, (refl, tt))

past_once : Distinct (ended past)
unfolding includes
past_once = (refl, tt)

old_remembered : is_known (load_stored in_order both).terminated "r0" ≡ true
unfolding is_known get load_stored atproto_market.Common.Sort.sort_by atproto_market.Receipts.add
    atproto_market.Common.Dict.set atproto_market.Common.Dict.delete
    atproto_market.Receipts.new_receipts
old_remembered = refl

past_remembered :
    (u : String)
    → includes u (ended past) ≡ true
    → is_known (load_stored in_order both).terminated u ≡ true
past_remembered u h =
    let is : "r0" ≡ u = (eq_iff "r0" u).0 (unfold includes in ground (arith, h)) in
    rw (← is) old_remembered

load_stored-IsOnce_example : IsOnce (started_world past (load_stored in_order both))
load_stored-IsOnce_example =
    load_stored-IsOnce platform in_order two_files both past both-IsHeld past_once past_remembered

started-IsOnce : IsOnce (started_world past (load_stored in_order both))
started-IsOnce =
    load_stored-IsOnce platform in_order two_files both past both-IsHeld past_once past_remembered

abbrev delete_request : Request
delete_request = record {
  issuer_did = "did:plc:a";
  receipt = some (record { uri = "r1"; cid = "c" });
  payload = none;
}

-- The guest ends while its deletion is under way.
abbrev events : List Event
events =
    requested delete_request
    ∷ noticed "r1#c" (record { id = name "vm1"; reason = "oom"; exit_code = none })
    ∷ completed 0 true "t1"
    ∷ visited 0 "t2"
    ∷ released 0
    ∷ requested delete_request
    ∷ []

abbrev show_number : Number → String
show_number n = "n"

run-IsOnce_example :
    IsOnce (run show_number (started_world past (load_stored in_order both)) events)
run-IsOnce_example =
    run-IsOnce show_number (started_world past (load_stored in_order both)) events started-IsOnce

abbrev between : List (ℕ × String)
between = (2000, "b") ∷ (3600900, "c") ∷ []

went_on : (admit nothing_accepted 1000 "a").1 ≡ true
unfolding admit get
went_on = refl

accept_skipped_example :
    (admit (admit_all (admit nothing_accepted 1000 "a").0 between) 3601000 "a").1 ≡ false
accept_skipped_example =
    accept_skipped nothing_accepted 1000 "a" between 3601000 went_on
      (omega arith, (omega arith, tt))

-- Two lookups of different dids are under way; the document of the first cannot be fetched.
abbrev two_lookups : Memo String (List String)
two_lookups = record { kept = []; asked = "did:web:b" ∷ "did:web:c" ∷ [] }

both_begun : (keys_for_did (keys_for_did empty_memo "did:web:b").0 "did:web:c").0 ≡ two_lookups
unfolding keys_for_did atproto_market.Common.Memo.ask get
both_begun = refl

-- The other lookup ends, and the did is looked up again.
abbrev later_lookups : List atproto_market.Market.Keys.Forgotten.Event
later_lookups = began "did:web:b" ∷ fetched 0 (returned (some (str "zKey") ∷ [])) ∷ []

failed_fetch_stays_example :
    keys_for_did
      (atproto_market.Market.Keys.Forgotten.run
        (keys_fetched two_lookups 0 (thrown "timeout"))
        later_lookups)
      "did:web:b"
    ≡ (
      atproto_market.Market.Keys.Forgotten.run
          (keys_fetched two_lookups 0 (thrown "timeout"))
          later_lookups,
      some [],
    )
failed_fetch_stays_example =
    failed_fetch_stays two_lookups 0 "did:web:b" "timeout" ("did:web:c" ∷ []) later_lookups refl
      (refl, tt)
