-- ===== src/Market/Contract.antt =====
-- The records behind an accept (lib/market-atproto/contract.ts). The resolver casts what it fetched
-- to the type of the lexicon: a record is its properties with the references among them.
pub mod Consistent
use atproto_market.Common.{
  String, Bool, true, false, not, Option, none, some, List, [], if◌then◌else◌,
}
use atproto_market.Common.Attempt.{Attempt, returned, thrown, ◌>>=◌}
use atproto_market.Common.Json.{Json, Fields}
use atproto_market.Records.{RecordRef, refs_equal, at_uri_authority}
use atproto_market.Market.Attest.{Crypto}
use atproto_market.Market.Signing.{Bindings, verify_record_signatures}

pub record Accept : Type 0 where
  pub bid : RecordRef
  pub rfp : RecordRef

-- `uri` is `_uri`, and `bare` is the record without `_uri` and `_cid`.
pub record Bid : Type 0 where
  pub uri : String
  pub rfp : RecordRef
  pub payload : RecordRef
  pub config : Option RecordRef
  pub bare : Fields

pub record Rfp : Type 0 where
  pub uri : String
  pub payload : RecordRef
  pub bare : Fields

pub record ContractGraph : Type 0 where
  pub bid : Bid
  pub rfp : Rfp
  pub rfp_payload : Fields
  pub bid_payload : Fields
  pub bid_config : Option Fields

pub record Resolver : Type 0 where
  pub resolve_bid : RecordRef → Attempt Bid
  pub resolve_rfp : RecordRef → Attempt Rfp
  pub resolve : RecordRef → Attempt Fields

-- Keys are bound by the documents of the dids only.
unfoldable pub document_bindings : (Json → List String) → Bindings
document_bindings keys = record { keys_for_did = keys; bound_by_record = λ did key. false }

unfoldable pub demand_true : Bool → String → Attempt (Unit {0})
demand_true true e = returned tt
demand_true false e = thrown e

unfoldable pub signed_by_authors : Crypto → (Json → List String) → Bid → Rfp → Attempt (Unit {0})
signed_by_authors c keys bid rfp =
    demand_true
      (verify_record_signatures c (some (document_bindings keys)) bid.bare
        (at_uri_authority bid.uri))
      "Bid is missing a valid badge.blue signature"
    >>= λ _.
        demand_true
          (verify_record_signatures c (some (document_bindings keys)) rfp.bare
            (at_uri_authority rfp.uri))
          "RFP is missing a valid badge.blue signature"

unfoldable pub resolve_config : Resolver → Option RecordRef → Attempt (Option Fields)
resolve_config r none = returned none
resolve_config r (some ref) = r.resolve ref >>= λ fs. returned (some fs)

unfoldable pub resolve_contract_graph :
    Crypto → (Json → List String) → Bool → Resolver → Accept → Attempt ContractGraph
unfolding resolve_config
resolve_contract_graph c keys verify r accept = do
  bid ← r.resolve_bid accept.bid
  same ← demand_true (refs_equal bid.rfp accept.rfp) "Accept.rfp does not match Bid.rfp"
  rfp ← r.resolve_rfp accept.rfp
  signed ← (if verify then signed_by_authors c keys bid rfp else returned tt)
  rfp_payload ← r.resolve rfp.payload
  bid_payload ← r.resolve bid.payload
  bid_config ← resolve_config r bid.config
  returned (record {
    bid = bid;
    rfp = rfp;
    rfp_payload = rfp_payload;
    bid_payload = bid_payload;
    bid_config = bid_config;
  })
