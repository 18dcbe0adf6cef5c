-- ===== src/Vm/State.antt =====
-- The state that the callbacks of a bidder share, and what they write into it
-- (lib/market-bidder-compute/mod.ts). `changes` and `tombstones_saved` are the calls of
-- `onContractChange` and `saveTombstone`, whose failures these callbacks only log; `terminations`
-- are the calls of `publishTerminated`.
use atproto_market.Common.{
  String, Option, none, some, List, [], ◌∷◌, ◌++◌, ◌⧺◌, if◌then◌else◌, is_empty, or_else,
}
use atproto_market.Common.Dict.{Dict, delete}
use atproto_market.Common.Json.{Number}
use atproto_market.Records.{RecordRef}
use atproto_market.ComputeRequest.State.{HostKey}
use atproto_market.Receipts.{
  ProviderId, ActiveContract, ContractEvent, ContractEventType, TerminatedReceipts, Tombstone,
  GuestContractEntry, add,
}
use atproto_market.Receipts.ContractEventType.{terminated}

-- What `publishTerminated` is called with.
pub record Published : Type 0 where
  pub receipt : RecordRef
  pub submit_event_url : Option String
  pub reason : String
  pub exit_code : Option Number
  pub observed_at : String
  pub request : Option RecordRef

pub record Bidder : Type 0 where
  pub active : Dict ActiveContract
  pub tombstones : TerminatedReceipts
  pub terminating : Dict (Unit {0})
  pub reported : Dict (List HostKey)
  pub registered : Dict (Unit {0})
  pub accepts : Dict GuestContractEntry
  pub changes : List ContractEvent
  pub tombstones_saved : List Tombstone
  pub terminations : List Published
  pub destroyed : List ProviderId

unfoldable pub ref_key : RecordRef → String
ref_key ref = ref.uri ⧺ "#" ⧺ ref.cid

-- The uri of a receipt, where there is one that is not empty.
abbrev pub filled : Option String → Option String
filled none = none
filled (some s) = if is_empty s then none else some s

-- The fields of a contract. The two of its receipt are asserted to be there.
unfoldable pub contract_event :
    ContractEventType → String → ActiveContract → Option String → Option ProviderId → ContractEvent
contract_event type key c terminated_at provider_id = record {
  type = type;
  key = key;
  receipt_uri = or_else c.receipt_uri "";
  receipt_cid = or_else c.receipt_cid "";
  accept_uri = c.accept_uri;
  accept_cid = c.accept_cid;
  accept_author = c.accept_author;
  accepted_at = or_else c.accepted_at "";
  terminated_at = terminated_at;
  provider_id = provider_id;
  provider = c.provider;
  submit_event_url = c.submit_event_url;
}

unfoldable pub save_change : Bidder → ContractEvent → Bidder
save_change b event = record b { changes = b.changes ++ event ∷ [] }

-- The tombstone of a receipt that has a uri.
unfoldable pub bury : Bidder → ActiveContract → String → String → Option String → Bidder
bury b c reason at none = b
bury b c reason at (some uri) = record b {
  tombstones =
      add b.tombstones uri (record { accept_author = c.accept_author; reason = reason; at = at });
  tombstones_saved =
      b.tombstones_saved
      ++ (record {
        receipt_uri = uri;
        accept_author = c.accept_author;
        reason = reason;
        at = at;
        receipt_cid = c.receipt_cid;
        accept_uri = c.accept_uri;
        accept_cid = c.accept_cid;
      })
        ∷ [];
}

unfoldable pub record_termination :
    Bidder → String → ActiveContract → String → String → Option ProviderId → Bidder
unfolding bury save_change
record_termination b key c reason at provider_id =
    save_change
      (bury (record b { active = delete b.active key }) c reason at (filled c.receipt_uri))
      (contract_event terminated key c (some at) provider_id)

-- `if (contract.receiptUri && contract.receiptCid)`
unfoldable pub publish_receipt :
    Bidder
    → ActiveContract
    → String
    → Option Number
    → String
    → Option String
    → Option String
    → Bidder
publish_receipt b c reason code at (some uri) (some cid) = record b {
  terminations =
      b.terminations
      ++ (record {
        receipt = record { uri = uri; cid = cid };
        submit_event_url = c.submit_event_url;
        reason = reason;
        exit_code = code;
        observed_at = at;
        request = none;
      })
        ∷ [];
}
publish_receipt b c reason code at _ _ = b

unfoldable pub publish_terminated :
    Bidder → ActiveContract → String → Option Number → String → Bidder
unfolding publish_receipt
publish_terminated b c reason code at =
    publish_receipt b c reason code at (filled c.receipt_uri) (filled c.receipt_cid)
