-- ===== src/Vm/Delete.antt =====
-- The deletion of a guest on request (lib/market-bidder-compute/mod.ts, `onVmDelete`), cut where it
-- awaits: `begin_delete` up to the destruction of the guest, `complete_delete` behind it, up to the
-- end of `recordTermination`, and `release_delete`, the `finally`.
pub mod Replies
use atproto_market.Common.{
  String, ℕ, Bool, true, false, not, ◌||◌, Option, none, some, List, [], ◌∷◌, ◌++◌, if◌then◌else◌,
  ◌==◌, or_else, is_some, is_empty,
}
use atproto_market.Common.Dict.{Dict, get, set, delete, has}
use atproto_market.Records.{RecordRef}
use atproto_market.Receipts.{ProviderId, ActiveContract, TerminatedReceipt, lookup}
use atproto_market.Receipts.ContractEventType.{termination_failed}
use atproto_market.Vm.State.{
  Bidder, Published, ref_key, contract_event, save_change, record_termination,
}

-- The replies. `already_terminated` carries the reason where the code names one.
pub data Reply : Type 0 where
  missing_receipt unknown_receipt not_the_accept_author deleted : Reply
  already_terminated : Option String → Reply

abbrev pub status_of : Reply → ℕ
status_of missing_receipt = 400
status_of unknown_receipt = 400
status_of not_the_accept_author = 403
status_of deleted = 200
status_of (already_terminated reason) = 200

pub record Request : Type 0 where
  pub issuer_did : String
  pub receipt : Option RecordRef
  pub payload : Option RecordRef

-- A deletion under way: the guest of the contract is being destroyed.
pub record Job : Type 0 where
  pub key : String
  pub contract : ActiveContract
  pub receipt_uri : String
  pub receipt_cid : String
  pub request : Option RecordRef

pub data Started : Type 0 where
  replied : Reply → Started
  joined : String → Started
  started : Job → Started

-- The first contract with the receipt.
unfoldable pub key_of_receipt : Dict ActiveContract → String → Option String
key_of_receipt [] uri = none
key_of_receipt ((key, c) ∷ m) uri =
    let later = key_of_receipt m uri in
    elim c.receipt_uri [ none ↦ later | some u ↦ if u == uri then some key else later ]

-- By the key of the reference, else by its uri: the receipt may have been written again.
unfoldable pub contract_key : Bidder → RecordRef → Option String
unfolding key_of_receipt
contract_key b ref =
    if has b.active (ref_key ref) then some (ref_key ref) else key_of_receipt b.active ref.uri

unfoldable pub buried : Option TerminatedReceipt → String → Reply
buried none issuer = unknown_receipt
buried (some t) issuer =
    if t.accept_author == issuer then already_terminated (some t.reason) else not_the_accept_author

-- `deleteRef?.uri && deleteRef.cid`
request_ref : Option RecordRef → Option RecordRef
request_ref none = none
request_ref (some ref) = if is_empty ref.uri || is_empty ref.cid then none else some ref

unfoldable pub start : Bidder → Request → RecordRef → String → ActiveContract → Bidder × Started
unfolding request_ref
start b request ref key c =
    let uri = or_else c.receipt_uri ref.uri in
    if not (c.accept_author == request.issuer_did)
    then (b, replied not_the_accept_author)
    else if has b.terminating uri
    then (b, joined uri)
    else (
      record b { terminating = set b.terminating uri tt },
      started (record {
        key = key;
        contract = c;
        receipt_uri = uri;
        receipt_cid = or_else c.receipt_cid ref.cid;
        request = request_ref request.payload;
      }),
    )

unfoldable pub start_held :
    Bidder → Request → RecordRef → String → Option ActiveContract → Bidder × Started
unfolding start
start_held b request ref key none = (b, replied unknown_receipt)
start_held b request ref key (some c) = start b request ref key c

unfoldable pub start_found : Bidder → Request → RecordRef → Option String → Bidder × Started
unfolding start_held buried
start_found b request ref none =
    (b, replied (buried (lookup b.tombstones ref.uri) request.issuer_did))
start_found b request ref (some key) = start_held b request ref key (get b.active key)

unfoldable pub start_receipt : Bidder → Request → Option RecordRef → Bidder × Started
unfolding start_found
start_receipt b request none = (b, replied missing_receipt)
start_receipt b request (some ref) = start_found b request ref (contract_key b ref)

unfoldable pub begin_delete : Bidder → Request → Bidder × Started
unfolding start_receipt
begin_delete b request = start_receipt b request request.receipt

-- What a deletion that joins another replies once the other has ended.
abbrev pub joined_reply : Reply
joined_reply = already_terminated none

unfoldable pub destroy : Bidder → Option ProviderId → Bidder
destroy b none = b
destroy b (some id) = record b { destroyed = b.destroyed ++ id ∷ [] }

-- `ok` is whether the provider's `destroy` returned; a contract without a guest needs none.
unfoldable pub complete_delete : Bidder → Job → Bool → String → Bidder
unfolding destroy
complete_delete b job ok now =
    let c = job.contract in
    let tried = destroy b c.provider_id in
    let ended =
      record_termination tried job.key (record c { receipt_uri = some job.receipt_uri })
        "deleted_on_request" now c.provider_id in
    if ok || not (is_some c.provider_id)
    then record ended {
      terminations =
          ended.terminations
          ++ (record {
            receipt = record { uri = job.receipt_uri; cid = job.receipt_cid };
            submit_event_url = c.submit_event_url;
            reason = "deleted_on_request";
            exit_code = none;
            observed_at = now;
            request = job.request;
          })
            ∷ [];
    }
    else save_change tried (contract_event termination_failed job.key c (some now) c.provider_id)

-- The reply of a deletion that was started is `deleted`, whether or not the guest was destroyed.
unfoldable pub release_delete : Bidder → Job → Bidder
release_delete b job = record b { terminating = delete b.terminating job.receipt_uri }
