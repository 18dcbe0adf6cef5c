-- ===== src/Store/Trips.antt =====
-- What is read back of what was written.
use atproto_market.Common.{
  String, false, ◌≡◌, refl, sym, ap, ◌∙◌, arith, Option, none, some, eq_refl,
}
use atproto_market.Common.Attempt.{returned}
use atproto_market.Common.Dict.{get, has, get-set}
use atproto_market.Common.Json.{Fields, object, fields_get, member}
use atproto_market.Receipts.{StoredContract, ContractEvent, stored_contract_of}
use atproto_market.Store.Parse.{
  Platform, file_name_of, body_of, is_version, envelope_body, parse_envelope, check_name,
  parse_contract, contract_json, envelope_of, envelope_text,
}
use atproto_market.Store.Files.{Files, over, merged, previous_of, is_end, write_contract, save}
use atproto_market.Store.Parse.Written.{IsFilled, all, contract_of-contract_json}

previous_lem :
    (p : Platform) (file raw : String) (c : StoredContract)
    → parse_contract p raw file ≡ returned c
    → previous_of p file (some raw) ≡ returned (some c)
unfolding previous_of
previous_lem p file raw c read = rw read refl

envelope_body_lem :
    (fs : Fields)
    → envelope_body (envelope_of "contract" (object fs)) "contract" ≡ returned (object fs)
unfolding envelope_body envelope_of is_version body_of member fields_get
envelope_body_lem fs = refl

-- The five texts of an event that a stored contract needs are there.
abbrev pub IsStorable : ContractEvent → Type 0
IsStorable e = IsFilled (stored_contract_of e)

merged-IsFilled :
    (o : Option StoredContract) (c : StoredContract) → IsFilled c → IsFilled (merged o c)
unfolding merged
merged-IsFilled none c w = w
merged-IsFilled (some d) c w = record {
  key = w.key;
  receipt_uri = w.receipt_uri;
  receipt_cid = w.receipt_cid;
  accept_author = w.accept_author;
  accepted_at = w.accepted_at;
}

merged-receipt_uri :
    (o : Option StoredContract) (c : StoredContract) → (merged o c).receipt_uri ≡ c.receipt_uri
unfolding merged
merged-receipt_uri none c = refl
merged-receipt_uri (some d) c = refl

stored_contract_of-receipt_uri :
    (e : ContractEvent) → (stored_contract_of e).receipt_uri ≡ e.receipt_uri
unfolding stored_contract_of
stored_contract_of-receipt_uri e = refl

-- The platform reads back the envelope that it writes for the contract.
abbrev pub ReadsBack : Platform → StoredContract → Type 0
ReadsBack p c =
    p.parse (envelope_text p "contract" (contract_json c))
    ≡ returned (envelope_of "contract" (contract_json c))

parse_envelope_lem :
    (p : Platform) (c : StoredContract)
    → ReadsBack p c
    → parse_envelope p (envelope_text p "contract" (contract_json c)) "contract"
      ≡ returned (contract_json c)
unfolding parse_envelope contract_json all
parse_envelope_lem p c trips = rw trips (envelope_body_lem (all c))

-- A contract whose needed texts are there is read back from the text that is written for it in the
-- file of its receipt, if the platform reads back the envelope.
pub parse_contract-contract_json :
    (p : Platform) (c : StoredContract)
    → ReadsBack p c
    → IsFilled c
    → parse_contract p (envelope_text p "contract" (contract_json c)) (file_name_of p c.receipt_uri)
      ≡ returned c
unfolding parse_contract check_name
parse_contract-contract_json p c trips w =
    rw
      (
        parse_envelope_lem p c trips,
        contract_of-contract_json c w,
        eq_refl (file_name_of p c.receipt_uri),
      )
      refl

written-read :
    (p : Platform) (s : Files) (file : String) (c : StoredContract) (s' : Files)
    → ReadsBack p c
    → IsFilled c
    → file_name_of p c.receipt_uri ≡ file
    → write_contract p s file c ≡ s'
    → (previous_of p file (get s'.contracts file) ≡ returned (some c))
      × (s'.tombstones ≡ s.tombstones)
unfolding write_contract
written-read p s file c s' trips w own is =
    let raw = envelope_text p "contract" (contract_json c) in
    let read : parse_contract p raw file ≡ returned c =
      rw own at (parse_contract-contract_json p c trips w) in
    (
      rw (← is, get-set s.contracts file file raw, eq_refl file) (previous_lem p file raw c read),
      sym (ap (λ z. z.tombstones) is),
    )

-- What a field of the contract holds behind a change: what the change names, or else what was there.
abbrev pub IsNext {ℓ} : {A : Type ℓ} → Option A → Option A → Option A → Type ℓ
IsNext {A = A} held named now =
    ((v : A) → named ≡ some v → now ≡ some v) × (named ≡ none → now ≡ held)

over-IsNext {ℓ} : {A : Type ℓ} (held named : Option A) → IsNext held named (over named held)
unfolding over
over-IsNext held none = (λ v h. absurd (ground (arith, h)), λ h. refl)
over-IsNext held (some a) = (λ v h. h, λ h. absurd (ground (arith, h)))

alone-IsNext {ℓ} : {A : Type ℓ} (named : Option A) → IsNext none named named
alone-IsNext named = (λ v h. h, λ h. h)

-- A field of the contract that was there, if one was.
abbrev pub held_in {ℓ} :
    {A : Type ℓ} → (StoredContract → Option A) → Option StoredContract → Option A
held_in f none = none
held_in f (some d) = f d

-- The contract has the five needed texts of the change, and each optional one of the change or, where
-- the change lacks it, of the contract that was there.
pub record IsUpdated (o : Option StoredContract) (e : ContractEvent) (c : StoredContract)
    : Type 0 where
  pub key : c.key ≡ e.key
  pub receipt_uri : c.receipt_uri ≡ e.receipt_uri
  pub receipt_cid : c.receipt_cid ≡ e.receipt_cid
  pub accept_author : c.accept_author ≡ e.accept_author
  pub accepted_at : c.accepted_at ≡ e.accepted_at
  pub accept_uri : IsNext (held_in (λ d. d.accept_uri) o) e.accept_uri c.accept_uri
  pub accept_cid : IsNext (held_in (λ d. d.accept_cid) o) e.accept_cid c.accept_cid
  pub provider_id : IsNext (held_in (λ d. d.provider_id) o) e.provider_id c.provider_id
  pub provider : IsNext (held_in (λ d. d.provider) o) e.provider c.provider
  pub submit_event_url :
      IsNext (held_in (λ d. d.submit_event_url) o) e.submit_event_url c.submit_event_url

merged-IsUpdated :
    (o : Option StoredContract) (e : ContractEvent)
    → IsUpdated o e (merged o (stored_contract_of e))
unfolding merged stored_contract_of
merged-IsUpdated none e = record {
  key = refl;
  receipt_uri = refl;
  receipt_cid = refl;
  accept_author = refl;
  accepted_at = refl;
  accept_uri = alone-IsNext e.accept_uri;
  accept_cid = alone-IsNext e.accept_cid;
  provider_id = alone-IsNext e.provider_id;
  provider = alone-IsNext e.provider;
  submit_event_url = alone-IsNext e.submit_event_url;
}
merged-IsUpdated (some d) e = record {
  key = refl;
  receipt_uri = refl;
  receipt_cid = refl;
  accept_author = refl;
  accepted_at = refl;
  accept_uri = over-IsNext d.accept_uri e.accept_uri;
  accept_cid = over-IsNext d.accept_cid e.accept_cid;
  provider_id = over-IsNext d.provider_id e.provider_id;
  provider = over-IsNext d.provider e.provider;
  submit_event_url = over-IsNext d.submit_event_url e.submit_event_url;
}

-- A change of a contract that names its five needed texts, that is no end, and whose receipt has no
-- tombstone is saved, where the file of its receipt is missing or holds a contract: afterwards the
-- file is read back as a contract with the needed texts of the change, and with each optional field of
-- the change or, where the change lacks it, of the contract that was there, if the platform reads back
-- the envelope that it writes; the tombstones stay.
pub save_trip :
    (p : Platform) (s : Files) (e : ContractEvent) (o : Option StoredContract)
    → IsStorable e
    → is_end e.type ≡ false
    → has s.tombstones (file_name_of p e.receipt_uri) ≡ false
    → previous_of p (file_name_of p e.receipt_uri) (get s.contracts (file_name_of p e.receipt_uri))
      ≡ returned o
    → ReadsBack p (merged o (stored_contract_of e))
    → (s' : Files) × (c : StoredContract) × (save p s e ≡ returned s')
      × (previous_of p
            (file_name_of p e.receipt_uri)
            (get s'.contracts (file_name_of p e.receipt_uri))
          ≡ returned (some c))
      × IsUpdated o e c
      × (s'.tombstones ≡ s.tombstones)
unfolding save
save_trip p s e o w running free before trips =
    let file = file_name_of p e.receipt_uri in
    let c = merged o (stored_contract_of e) in
    let uri : c.receipt_uri ≡ e.receipt_uri =
      merged-receipt_uri o (stored_contract_of e) ∙ stored_contract_of-receipt_uri e in
    let (read, same) =
      written-read p s file c (write_contract p s file c) trips
        (merged-IsFilled o (stored_contract_of e) w) (ap (file_name_of p) uri) refl in
    (
      write_contract p s file c,
      c,
      rw (running, free, before) refl,
      read,
      merged-IsUpdated o e,
      same,
    )
