-- ===== src/Receipts.antt =====
-- The receipts of terminated contracts that a bidder remembers, and the contracts that it stores and
-- restores (lib/abc/market-bidder/mod.ts).
pub mod Recent
use atproto_market.Common.{
  String, ℕ, Bool, true, Option, List, [], ◌∷◌, none, some, if◌then◌else◌, ltb, length,
}
use atproto_market.Common.Dict.{Dict, get, set, delete, has}
use atproto_market.Common.Json.{Number}

pub record TerminatedReceipt : Type 0 where
  pub accept_author : String
  pub reason : String
  pub at : String

abbrev pub default_capacity : ℕ
default_capacity = 1024

pub record TerminatedReceipts : Type 0 where
  pub entries : Dict TerminatedReceipt
  pub capacity : ℕ

unfoldable pub new_receipts : ℕ → TerminatedReceipts
new_receipts capacity = record { entries = []; capacity = capacity }

unfoldable pub size : TerminatedReceipts → ℕ
size r = length r.entries

unfoldable pub is_known : TerminatedReceipts → String → Bool
is_known r uri = has r.entries uri

unfoldable pub lookup : TerminatedReceipts → String → Option TerminatedReceipt
lookup r uri = get r.entries uri

-- The loop that deletes the oldest key while there are too many: the first entry, since no key
-- stands twice.
unfoldable pub evict : ℕ → Dict TerminatedReceipt → Dict TerminatedReceipt
evict capacity [] = []
evict capacity (e ∷ m) =
    let fewer = evict capacity m in if ltb capacity (length (e ∷ m)) then fewer else e ∷ m

unfoldable pub add : TerminatedReceipts → String → TerminatedReceipt → TerminatedReceipts
unfolding evict
add r uri entry = record r { entries = evict r.capacity (set (delete r.entries uri) uri entry) }

unfoldable pub add_all : TerminatedReceipts → List (String × TerminatedReceipt) → TerminatedReceipts
unfolding add
add_all r [] = r
add_all r ((uri, entry) ∷ es) = add_all (add r uri entry) es

-- An id of a provider: `string | number`.
pub data ProviderId : Type 0 where
  name : String → ProviderId
  numeral : Number → ProviderId

pub data ContractEventType : Type 0 where
  accepted provisioned provisioning_failed terminated termination_failed : ContractEventType

pub record StoredContract : Type 0 where
  pub key : String
  pub receipt_uri : String
  pub receipt_cid : String
  pub accept_uri : Option String
  pub accept_cid : Option String
  pub accept_author : String
  pub accepted_at : String
  pub provider_id : Option ProviderId
  pub provider : Option String
  pub submit_event_url : Option String

pub record ContractEvent : Type 0 where
  pub type : ContractEventType
  pub key : String
  pub receipt_uri : String
  pub receipt_cid : String
  pub accept_uri : Option String
  pub accept_cid : Option String
  pub accept_author : String
  pub accepted_at : String
  pub terminated_at : Option String
  pub provider_id : Option ProviderId
  pub provider : Option String
  pub submit_event_url : Option String

-- `provider_id` is what the promise gives.
pub record ActiveContract : Type 0 where
  pub provider_id : Option ProviderId
  pub accept_author : String
  pub receipt_uri : Option String
  pub receipt_cid : Option String
  pub accept_uri : Option String
  pub accept_cid : Option String
  pub accepted_at : Option String
  pub submit_event_url : Option String
  pub provider : Option String
  pub restored : Option Bool

unfoldable pub stored_contract_of : ContractEvent → StoredContract
stored_contract_of event = record {
  key = event.key;
  receipt_uri = event.receipt_uri;
  receipt_cid = event.receipt_cid;
  accept_uri = event.accept_uri;
  accept_cid = event.accept_cid;
  accept_author = event.accept_author;
  accepted_at = event.accepted_at;
  provider_id = event.provider_id;
  provider = event.provider;
  submit_event_url = event.submit_event_url;
}

unfoldable pub active_contract_of : StoredContract → ActiveContract
active_contract_of stored = record {
  provider_id = stored.provider_id;
  accept_author = stored.accept_author;
  receipt_uri = some stored.receipt_uri;
  receipt_cid = some stored.receipt_cid;
  accept_uri = stored.accept_uri;
  accept_cid = stored.accept_cid;
  accepted_at = some stored.accepted_at;
  submit_event_url = stored.submit_event_url;
  provider = stored.provider;
  restored = some true;
}

pub record Tombstone : Type 0 where
  pub receipt_uri : String
  pub accept_author : String
  pub reason : String
  pub at : String
  pub receipt_cid : Option String
  pub accept_uri : Option String
  pub accept_cid : Option String

pub record GuestContractEntry : Type 0 where
  pub receipt_key : String
  pub receipt_uri : String
  pub receipt_cid : String
  pub submit_event_url : Option String
