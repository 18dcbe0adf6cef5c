-- ===== src/Vm/Accept.antt =====
-- An accepted bid becomes a contract (lib/market-bidder-compute/mod.ts, `onAccept`), cut where it
-- awaits: `begin_accept` up to the signing of the receipt, `sign_accept` up to the save of the
-- contract, `save_accept` behind it, and `provisioned`, when the guest's promise is settled.
use atproto_market.Common.{
  zero, String, Bool, true, false, not, ◌&&◌, Option, none, some, [], ◌∷◌, ◌++◌, if◌then◌else◌,
  last?, or_else, split, is_empty,
}
use atproto_market.Common.Json.{natural}
use atproto_market.Common.Dict.{get, set, delete, has}
use atproto_market.Records.{RecordRef}
use atproto_market.Receipts.{ProviderId, ActiveContract, GuestContractEntry, name, numeral}
use atproto_market.Receipts.ContractEventType.{accepted, provisioned, provisioning_failed}
use atproto_market.Vm.State.{Bidder, ref_key, contract_event, save_change}

-- The body of a reply: the receipt, and whether the accept was known before.
pub record Contracted : Type 0 where
  pub id : String
  pub receipt : RecordRef
  pub already_accepted : Bool

unfoldable pub receipt_id : String → String
unfolding split
receipt_id uri = or_else (last? (split b'/' uri)) ""

known_reply : Option GuestContractEntry → Option Contracted
known_reply none = none
known_reply (some e) = some (record {
  id = receipt_id e.receipt_uri;
  receipt = record { uri = e.receipt_uri; cid = e.receipt_cid };
  already_accepted = true;
})

-- A reply for an accept that has a receipt already.
unfoldable pub begin_accept : Bidder → RecordRef → Option Contracted
unfolding known_reply
begin_accept b accept = known_reply (get b.accepts (ref_key accept))

-- An accept that goes on: `guest` is what the promise of its guest will give, `none` where the
-- guest is not provisioned.
pub record AcceptJob : Type 0 where
  pub accept : RecordRef
  pub issuer_did : String
  pub submit_event_url : Option String
  pub guest : Option ProviderId
  pub accepted_at : String

abbrev pub contract_of : String → AcceptJob → RecordRef → ActiveContract
contract_of provider job receipt = record {
  provider_id = job.guest;
  accept_author = job.issuer_did;
  receipt_uri = some receipt.uri;
  receipt_cid = some receipt.cid;
  accept_uri = some job.accept.uri;
  accept_cid = some job.accept.cid;
  accepted_at = some job.accepted_at;
  submit_event_url = job.submit_event_url;
  provider = some provider;
  restored = none;
}

-- The receipt is signed: the contract is there, and is saved.
unfoldable pub sign_accept : Bidder → String → AcceptJob → RecordRef → Bidder
sign_accept b provider job receipt =
    let c = contract_of provider job receipt in
    save_change (record b { active = set b.active (ref_key receipt) c })
      (contract_event accepted (ref_key receipt) c none none)

destroy_guest : Bidder → Option ProviderId → Bidder
destroy_guest b none = b
destroy_guest b (some id) = record b { destroyed = b.destroyed ++ id ∷ [] }

-- The save has returned (`ok`) or thrown: then the contract is given up, its guest is destroyed and
-- the callback throws.
unfoldable pub save_accept : Bidder → AcceptJob → RecordRef → Bool → Bidder × Option Contracted
unfolding destroy_guest
save_accept b job receipt true = (
  record b {
    accepts = set b.accepts (ref_key job.accept) (record {
      receipt_key = ref_key receipt;
      receipt_uri = receipt.uri;
      receipt_cid = receipt.cid;
      submit_event_url = job.submit_event_url;
    });
  },
  some (record { id = receipt_id receipt.uri; receipt = receipt; already_accepted = false }),
)
save_accept b job receipt false =
    (destroy_guest (record b { active = delete b.active (ref_key receipt) }) job.guest, none)

-- A provider id that is not falsy.
is_id : Option ProviderId → Bool
is_id none = false
is_id (some (name s)) = not (is_empty s)
is_id (some (numeral (natural zero))) = false
is_id (some (numeral n)) = true

-- The promise of the guest is settled: the change is saved if the contract is still there, and the
-- guest is announced once. `true` where it is announced.
unfoldable pub guest_provisioned : Bidder → String → ActiveContract → Bidder × Bool
unfolding is_id
guest_provisioned b key c =
    let type = if is_id c.provider_id then provisioned else provisioning_failed in
    let saved =
      if has b.active key
      then save_change b (contract_event type key c none c.provider_id)
      else b in
    if is_id c.provider_id && not (has b.registered key)
    then (record saved { registered = set saved.registered key tt }, true)
    else (saved, false)
