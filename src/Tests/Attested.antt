-- ===== src/Tests/Attested.antt =====
-- The records behind an accepted bid, a record that is verified for others, and what the cid of an
-- attestation binds, over the records and the platform of the submits.
use atproto_market.Tests.Submits.{crypto, entry, signed, payload, event}
use atproto_market.Common.{String, true, [], ◌∷◌, none, some, List, ◌≡◌, refl, ap, sym, ◌∙◌, All}
use atproto_market.Common.Attempt.{returned, returned-eq}
use atproto_market.Common.Json.{Json, Fields, str, object, end, field, fields_get}
use atproto_market.Common.Fields.{fields_set, fields_drop, Step, leaf_at}
use atproto_market.Records.{RecordRef, at_uri_authority}
use atproto_market.Market.Attest.{attestation_cid}
use atproto_market.Market.Attest.Binding.{IsSameAttested, attestation_cid-IsSameAttested}
use atproto_market.Market.Signing.Author.{IsSigned}
use atproto_market.Market.Server.{goes_on}
use atproto_market.Market.Contract.{
  Accept, Bid, Rfp, ContractGraph, Resolver, resolve_contract_graph, document_bindings,
}
use atproto_market.Market.Contract.Consistent.{IsConsistent, resolve_contract_graph-IsConsistent}
use atproto_market.Market.Verify.{VerifyDeps, Verification, verify, any_left}
use atproto_market.Market.Verify.Vouched.{verify-IsVouched, IsVouched}

abbrev ref : String → RecordRef
ref uri = record { uri = uri; cid = "c" }

abbrev accept : Accept
accept = record { bid = ref "at://did:plc:b/bid/1"; rfp = ref "at://did:plc:a/rfp/1" }

abbrev bid : Bid
bid = record {
  uri = "at://did:plc:b/bid/1";
  rfp = ref "at://did:plc:a/rfp/1";
  payload = ref "at://did:plc:b/free/1";
  config = none;
  bare = signed "bid" end;
}

abbrev rfp : Rfp
rfp = record {
  uri = "at://did:plc:a/rfp/1";
  payload = ref "at://did:plc:a/vm/1";
  bare = signed "rfp" end;
}

abbrev resolver : Resolver
resolver = record {
  resolve_bid = λ r. returned bid;
  resolve_rfp = λ r. returned rfp;
  resolve = λ r. returned payload;
}

abbrev graph : ContractGraph
graph = record {
  bid = bid;
  rfp = rfp;
  rfp_payload = payload;
  bid_payload = payload;
  bid_config = none;
}

abbrev keys_of : Json → List String
keys_of did = "did:key:k" ∷ []

graph_resolved : resolve_contract_graph crypto keys_of true resolver accept ≡ returned graph
unfolding resolve_contract_graph document_bindings atproto_market.Market.Contract.signed_by_authors
    atproto_market.Market.Contract.demand_true atproto_market.Market.Contract.resolve_config
    atproto_market.Records.refs_equal atproto_market.Market.Signing.verify_record_signatures
    atproto_market.Market.Signing.entry_counts atproto_market.Market.Signing.is_bound
    atproto_market.Market.Signing.signing_did atproto_market.Market.Attest.attestation_cid
    atproto_market.Market.Attest.entries_of atproto_market.Market.Attest.inline_entries
    atproto_market.Market.Attest.is_inline_entry atproto_market.Market.Attest.normalize_signature
    atproto_market.Market.Attest.prepared_metadata atproto_market.Market.Attest.prepared_record
    atproto_market.Market.Attest.verify_inline_attestation atproto_market.Common.Fields.fields_drop
    atproto_market.Common.Fields.fields_set atproto_market.Common.Json.fields_get
    atproto_market.Common.Json.member atproto_market.Common.includes
    atproto_market.Records.at_uri_authority atproto_market.Common.part
    atproto_market.Common.remove_first atproto_market.Common.split atproto_market.Common.split_from
    atproto_market.Common.strip_prefix
graph_resolved = refl

resolve_contract_graph-IsConsistent_example :
    IsConsistent resolver accept graph
    × IsSigned crypto (document_bindings keys_of) graph.bid.bare "did:plc:b"
    × IsSigned crypto (document_bindings keys_of) graph.rfp.bare "did:plc:a"
unfolding atproto_market.Records.at_uri_authority atproto_market.Common.part
    atproto_market.Common.remove_first atproto_market.Common.split
resolve_contract_graph-IsConsistent_example =
    resolve_contract_graph-IsConsistent crypto keys_of resolver accept graph graph_resolved

abbrev verify_deps : VerifyDeps
verify_deps = record {
  crypto = crypto;
  fetch = λ uri cid. returned (event, "c1");
  keys_for_did = none;
  show_error = λ e. e;
}

abbrev verification : Verification
verification = record {
  uri = "at://did:plc:a/x.event/1";
  cid = "c1";
  valid = true;
  signatures = object entry ∷ [];
}

event_verified : verify verify_deps (some "at://did:plc:a/x.event/1") none ≡ goes_on verification
unfolding verify atproto_market.Market.Verify.verification_of atproto_market.Market.Verify.verified
    atproto_market.Market.Verify.vouches atproto_market.Market.Verify.names_key
    atproto_market.Market.Server.xrpc_error atproto_market.Market.Signing.verify_record_signatures
    atproto_market.Market.Signing.entry_counts atproto_market.Market.Signing.is_bound
    atproto_market.Market.Signing.signing_did atproto_market.Market.Attest.attestation_cid
    atproto_market.Market.Attest.entries_of atproto_market.Market.Attest.inline_entries
    atproto_market.Market.Attest.is_inline_entry atproto_market.Market.Attest.normalize_signature
    atproto_market.Market.Attest.prepared_metadata atproto_market.Market.Attest.prepared_record
    atproto_market.Market.Attest.verify_inline_attestation atproto_market.Common.Fields.fields_drop
    atproto_market.Common.Fields.fields_set atproto_market.Common.Json.fields_get
    atproto_market.Common.Json.member atproto_market.Common.includes
    atproto_market.Records.at_uri_authority atproto_market.Common.part
    atproto_market.Common.remove_first atproto_market.Common.split atproto_market.Common.split_from
    atproto_market.Common.strip_prefix
event_verified = refl

verify-IsVouched_example :
    (fs : Fields) × (verify_deps.fetch verification.uri none ≡ returned (fs, verification.cid))
    × All (IsVouched verify_deps fs (at_uri_authority verification.uri)) verification.signatures
    × (verification.valid ≡ any_left verification.signatures)
verify-IsVouched_example =
    verify-IsVouched verify_deps (some "at://did:plc:a/x.event/1") none verification event_verified

-- The object itself stands for its cid.
itself :
    (a b x : Fields)
    → returned a ≡ returned x
    → returned b ≡ returned x
    → (path : List Step) → leaf_at path (some (object a)) ≡ leaf_at path (some (object b))
itself a b x one other path =
    ap (λ fs. leaf_at path (some (object fs))) (returned-eq one ∙ sym (returned-eq other))

abbrev prepared : Fields
prepared = field "$type" (str "com.publicdomainrelay.temp.market.event") (
    field "payload"
      (object (field "uri" (str "at://did:plc:a/x.delete/2") (field "cid" (str "c2") end)))
      (field "$sig"
        (object (
          field "$type" (str "sig")
            (field "key" (str "did:key:k") (field "repository" (str "did:plc:a") end))))
        end))

event_prepared : attestation_cid returned event entry "did:plc:a" ≡ returned prepared
unfolding attestation_cid atproto_market.Market.Attest.prepared_record
    atproto_market.Market.Attest.prepared_metadata fields_set fields_drop fields_get
event_prepared = refl

-- The record before it was signed.
abbrev bare_event : Fields
bare_event = fields_drop event "signatures"

-- The metadata of the entry before its cid and signature were set.
abbrev bare_entry : Fields
bare_entry = fields_drop (fields_drop entry "cid") "signature"

bare_prepared : attestation_cid returned bare_event bare_entry "did:plc:a" ≡ returned prepared
unfolding attestation_cid atproto_market.Market.Attest.prepared_record
    atproto_market.Market.Attest.prepared_metadata fields_set fields_drop fields_get
bare_prepared = refl

attestation_cid-IsSameAttested_example :
    IsSameAttested event entry "did:plc:a" bare_event bare_entry "did:plc:a"
attestation_cid-IsSameAttested_example =
    attestation_cid-IsSameAttested returned itself event entry bare_event bare_entry "did:plc:a"
      "did:plc:a" prepared event_prepared bare_prepared
