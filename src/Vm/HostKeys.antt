-- ===== src/Vm/HostKeys.antt =====
-- The host keys that a guest reports are published once (lib/market-bidder-compute/mod.ts,
-- `acceptHostKeys`), cut where it awaits: `begin_report` up to the publication, `end_report` behind it.
-- The contract is the one whose provider id was awaited.
pub mod Published
use atproto_market.Common.{
  String, ℕ, Bool, true, false, not, Option, none, some, List, [], ◌∷◌, if◌then◌else◌, ◌==◌, any_of,
  pick,
}
use atproto_market.Common.Checked.{Checked, accepted, refused}
use atproto_market.Common.Dict.{Dict, get, set, delete}
use atproto_market.Common.Json.{Json, Number}
use atproto_market.Records.{RecordRef}
use atproto_market.Receipts.{ProviderId, ActiveContract}
use atproto_market.ComputeRequest.State.{HostKey}
use atproto_market.Market.HostKeys.{KeyPlatform, check_host_keys, same_host_keys}
use atproto_market.Vm.State.{Bidder, filled}
use atproto_market.Vm.Guests.{same_id}

pub record Report : Type 0 where
  pub id : ProviderId
  pub keys : Option Json
  pub observed_at : String

pub data KeysReply : Type 0 where
  acknowledged : KeysReply
  declined : ℕ → String → KeysReply

-- A publication under way.
pub record KeysJob : Type 0 where
  pub key : String
  pub receipt : RecordRef
  pub submit_event_url : Option String
  pub keys : List HostKey
  pub observed_at : String

pub data Reported : Type 0 where
  answered : KeysReply → Reported
  publishing : KeysJob → Reported

-- The first contract of the guest.
unfoldable pub contract_of_guest :
    (Number → String) → Dict ActiveContract → ProviderId → Option (String × ActiveContract)
contract_of_guest show [] id = none
contract_of_guest show ((key, c) ∷ m) id =
    let later = contract_of_guest show m id in
    if same_id show c.provider_id id then some (key, c) else later

receipt_ref : Option String → Option String → Option RecordRef
receipt_ref (some uri) (some cid) = some (record { uri = uri; cid = cid })
receipt_ref _ _ = none

-- The keys that were reported before for the receipt, if any were.
unfoldable pub note_keys : Bidder → KeysJob → Option (List HostKey) → Bidder × Reported
note_keys b job none =
    (record b { reported = set b.reported job.receipt.uri job.keys }, publishing job)
note_keys b job (some earlier) =
    if same_host_keys earlier job.keys
    then (b, answered acknowledged)
    else (b, answered (declined 409 "host keys already reported for this receipt"))

unfoldable pub report_for :
    Bidder → Report → List HostKey → String → ActiveContract → Option RecordRef → Bidder × Reported
unfolding note_keys
report_for b r keys key c none = (b, answered (declined 409 "contract has no receipt"))
report_for b r keys key c (some receipt) =
    note_keys b
      (record {
        key = key;
        receipt = receipt;
        submit_event_url = c.submit_event_url;
        keys = keys;
        observed_at = r.observed_at;
      })
      (get b.reported receipt.uri)

unfoldable pub report_found :
    Bidder → Report → List HostKey → Option (String × ActiveContract) → Bidder × Reported
unfolding report_for receipt_ref
report_found b r keys none = (b, answered (declined 404 "no contract holds this guest"))
report_found b r keys (some (key, c)) =
    report_for b r keys key c (receipt_ref (filled c.receipt_uri) (filled c.receipt_cid))

unfoldable pub report_checked :
    (Number → String) → Bidder → Report → Checked (List HostKey) → Bidder × Reported
unfolding report_found contract_of_guest
report_checked show b r (refused reason) = (b, answered (declined 400 reason))
report_checked show b r (accepted keys) =
    if any_of (λ k. k.type == "ssh-ed25519") keys
    then report_found b r keys (contract_of_guest show b.active r.id)
    else (b, answered (declined 400 "no ssh-ed25519 key"))

unfoldable pub begin_report : KeyPlatform → (Number → String) → Bidder → Report → Bidder × Reported
unfolding report_checked
begin_report p show b r = report_checked show b r (check_host_keys p r.keys)

-- `ok` is what `publishContractEvent` gives: false where the event could not be written, and also where
-- it was written and only its push to the requester failed. Without it the keys are forgotten.
unfoldable pub end_report : Bidder → KeysJob → Bool → Bidder × KeysReply
end_report b job true = (b, acknowledged)
end_report b job false = (
  record b { reported = delete b.reported job.receipt.uri },
  declined 502 "vm.hostKeys could not be published",
)

-- The publications under way, and the receipts for which keys were published.
pub record KeysWorld : Type 0 where
  pub bidder : Bidder
  pub jobs : List KeysJob
  pub published : List String

pub data KeysEvent : Type 0 where
  arrives : Report → KeysEvent
  ends : ℕ → Bool → KeysEvent

unfoldable pub take_up : KeysWorld → Bidder × Reported → KeysWorld
take_up w (b, publishing job) = record w { bidder = b; jobs = job ∷ w.jobs }
take_up w (b, answered reply) = record w { bidder = b }

unfoldable pub put_down : KeysWorld → Bool → Option (KeysJob × List KeysJob) → KeysWorld
unfolding end_report
put_down w ok none = w
put_down w true (some (job, others)) = record {
  bidder = (end_report w.bidder job true).0;
  jobs = others;
  published = job.receipt.uri ∷ w.published;
}
put_down w false (some (job, others)) = record w {
  bidder = (end_report w.bidder job false).0;
  jobs = others;
}

unfoldable pub keys_step : KeyPlatform → (Number → String) → KeysWorld → KeysEvent → KeysWorld
unfolding take_up put_down
keys_step p show w (arrives r) = take_up w (begin_report p show w.bidder r)
keys_step p show w (ends i ok) = put_down w ok (pick i w.jobs)

unfoldable pub keys_run : KeyPlatform → (Number → String) → KeysWorld → List KeysEvent → KeysWorld
unfolding keys_step
keys_run p show w [] = w
keys_run p show w (e ∷ es) = keys_run p show (keys_step p show w e) es
