-- ===== src/Bidder/Load.antt =====
-- The contracts and tombstones of the store are loaded at the start (lib/market-bidder/mod.ts,
-- `loadContracts`). `earlier` is the order `localeCompare` of the times of tombstones.
pub mod Fresh
use atproto_market.Common.Sort.{sort_by}
use atproto_market.Common.{
  String, ℕ, Bool, true, false, not, ◌&&◌, Option, none, some, List, [], ◌∷◌, if◌then◌else◌, ◌⧺◌,
  is_empty,
}
use atproto_market.Common.Dict.{Dict, set}
use atproto_market.Receipts.{
  StoredContract, Tombstone, ActiveContract, GuestContractEntry, TerminatedReceipts,
  default_capacity, new_receipts, is_known, add, active_contract_of,
}
use atproto_market.Store.Files.{StoredContracts}

pub record Loaded : Type 0 where
  pub active : Dict ActiveContract
  pub terminated : TerminatedReceipts
  pub accepts : Dict GuestContractEntry

abbrev pub nothing_loaded : Loaded
nothing_loaded = record { active = []; terminated = new_receipts default_capacity; accepts = [] }

-- `a && b`: both are there and not empty.
filled_pair : Option String → Option String → Option (String × String)
filled_pair (some a) (some b) =
    if is_empty a then none else if is_empty b then none else some (a, b)
filled_pair _ _ = none

filled : Option String → Option String
filled none = none
filled (some s) = if is_empty s then none else some s

enter :
    Dict GuestContractEntry
    → Option (String × String)
    → GuestContractEntry
    → Dict GuestContractEntry
enter accepts none e = accepts
enter accepts (some (uri, cid)) e = set accepts (uri ⧺ "#" ⧺ cid) e

buried_entry : Dict GuestContractEntry → Tombstone → Option String → Dict GuestContractEntry
unfolding enter filled_pair
buried_entry accepts t none = accepts
buried_entry accepts t (some cid) = enter accepts (filled_pair t.accept_uri t.accept_cid) (record {
  receipt_key = t.receipt_uri ⧺ "#" ⧺ cid;
  receipt_uri = t.receipt_uri;
  receipt_cid = cid;
  submit_event_url = none;
})

load_tombstone : Loaded → Tombstone → Loaded
unfolding buried_entry filled
load_tombstone l t = record l {
  terminated =
      add l.terminated t.receipt_uri
        (record { accept_author = t.accept_author; reason = t.reason; at = t.at });
  accepts = buried_entry l.accepts t (filled t.receipt_cid);
}

unfoldable pub load_all_tombstones : Loaded → List Tombstone → Loaded
unfolding load_tombstone
load_all_tombstones l [] = l
load_all_tombstones l (t ∷ ts) = load_all_tombstones (load_tombstone l t) ts

unfoldable pub load_contract : Loaded → StoredContract → Loaded
unfolding enter filled_pair
load_contract l c = if is_known l.terminated c.receipt_uri then l else record l {
  active = set l.active c.key (active_contract_of c);
  accepts = enter l.accepts (filled_pair c.accept_uri c.accept_cid) (record {
    receipt_key = c.key;
    receipt_uri = c.receipt_uri;
    receipt_cid = c.receipt_cid;
    submit_event_url = c.submit_event_url;
  });
}

unfoldable pub load_all_contracts : Loaded → List StoredContract → Loaded
unfolding load_contract
load_all_contracts l [] = l
load_all_contracts l (c ∷ cs) = load_all_contracts (load_contract l c) cs

unfoldable pub load_stored : (String → String → Bool) → StoredContracts → Loaded
unfolding load_all_tombstones load_all_contracts
load_stored earlier stored =
    load_all_contracts
      (load_all_tombstones nothing_loaded (sort_by (λ a b. earlier a.at b.at) [] stored.tombstones))
      stored.contracts
