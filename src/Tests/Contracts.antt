-- ===== src/Tests/Contracts.antt =====
-- A contract that is requested, released and then reported again, and the events about it.
use atproto_market.Common.{String, List, [], ◌∷◌, Option, none, some, ◌≡◌, ◌↔◌, refl}
use atproto_market.Common.Checked.{accepted}
use atproto_market.Common.Json.{fields_get, Json, str, number, natural, object, end, field}
use atproto_market.Records.{RecordRef}
use atproto_market.ComputeRequest.State.{
  ContractState, Phase, nothing, create_contract_state, released, receipt,
}
use atproto_market.ComputeRequest.State.Phases.{
  Update, reach, fill, run, Extends, IsStamped, run-Extends, created-IsStamped,
}
use atproto_market.ComputeRequest.State.Later.{addressed, unresolvable}
use atproto_market.ComputeRequest.State.Later.Kept.{
  Write, flow, network_awaited, deleted, Keeps, write_all, write_all-Keeps,
}
use atproto_market.ComputeRequest.Events.{
  type_allows, as_record_ref, authority_of, collection_of, Envelope, bound_event_payload,
  termination_of, terminated_nsid,
}
use atproto_market.ComputeRequest.Events.Binding.{
  IsBound, IsTerminationOf, bound_event_payload_iff, termination_of_iff,
}
use atproto_market.ComputeRequest.Latch.{
  FlowDecision, continue, return, apply_all, first_return, new_latch, latched,
  apply_all-first_return,
}
use atproto_market.ComputeRequest.Parse.{
  value, valid, parse_contract_state, value_of, IsContractState, parse_contract_state_iff,
}

abbrev fresh : ContractState
fresh = create_contract_state "vm" "did:plc:a" "did:plc:m" "t0"

abbrev late : List Update
late = reach released nothing "t1" ∷ reach receipt nothing "t2" ∷ fill nothing ∷ []

run-Extends_example : Extends fresh (run fresh late)
run-Extends_example = run-Extends fresh late

-- A released contract whose guest has no address is awaited, and released again.
abbrev behind : List Write
behind =
    flow (reach released nothing "t1")
    ∷ network_awaited (addressed "vm.example") "t2"
    ∷ deleted unresolvable "t3"
    ∷ []

abbrev held : ContractState
held = record fresh {
  receipt = some (record { uri = "at://did:plc:b/r.receipt/1"; cid = "c1" });
  submit_event_ref = some "did:web:b#svc";
}

write_all-Keeps_example : Keeps held (write_all held behind)
write_all-Keeps_example = write_all-Keeps held behind

-- It is at the phase `network` then.
back_at_network : (write_all held behind).phase ≡ Phase.network
unfolding write_all create_contract_state
back_at_network = refl

created-IsStamped_example :
    IsStamped (run (create_contract_state "vm" "did:plc:a" "did:plc:m" "t0") late)
created-IsStamped_example = created-IsStamped "vm" "did:plc:a" "did:plc:m" "t0" late

abbrev the_receipt : RecordRef
the_receipt = record { uri = "at://did:plc:b/r.receipt/1"; cid = "c1" }

abbrev the_payload : RecordRef
the_payload = record {
  uri = "at://did:plc:b/com.publicdomainrelay.temp.compute.events.vm.terminated/2";
  cid = "c2";
}

abbrev ref_json : RecordRef → Json
ref_json r = object (field "uri" (str r.uri) (field "cid" (str r.cid) end))

abbrev ended : Envelope
ended = record {
  uri = "at://did:plc:b/com.publicdomainrelay.temp.market.event/3";
  cid = "c3";
  record_fields =
      field "receipt" (ref_json the_receipt) (field "payload" (ref_json the_payload) end);
  payload = field "reason" (str "exited") (field "observedAt" (str "t3") end);
}

bound_event_payload_iff_example :
    (bound_event_payload ended the_receipt terminated_nsid "vm.terminated" ≡ accepted the_payload)
    ↔ IsBound ended the_receipt terminated_nsid the_payload
bound_event_payload_iff_example =
    bound_event_payload_iff ended the_receipt terminated_nsid "vm.terminated" the_payload

termination_of_iff_example :
    (termination_of ended the_receipt
      ≡ accepted (record {
        reason = "exited";
        exit_code = none;
        observed_at = "t3";
        event = record { uri = ended.uri; cid = ended.cid };
        payload = the_payload;
        request = none;
      }))
    ↔ IsTerminationOf ended the_receipt (record {
      reason = "exited";
      exit_code = none;
      observed_at = "t3";
      event = record { uri = ended.uri; cid = ended.cid };
      payload = the_payload;
      request = none;
    })
termination_of_iff_example = termination_of_iff ended the_receipt (record {
  reason = "exited";
  exit_code = none;
  observed_at = "t3";
  event = record { uri = ended.uri; cid = ended.cid };
  payload = the_payload;
  request = none;
})

-- The concrete event is accepted.
ended_accepted :
    bound_event_payload ended the_receipt terminated_nsid "vm.terminated" ≡ accepted the_payload
unfolding bound_event_payload type_allows as_record_ref authority_of collection_of fields_get
ended_accepted = refl

abbrev decisions : List (Option FlowDecision × String)
decisions = (some continue, "a") ∷ (some return, "b") ∷ (some return, "c") ∷ []

apply_all-first_return_example : apply_all new_latch decisions ≡ latched (first_return decisions)
apply_all-first_return_example = apply_all-first_return decisions

abbrev parse_nothing : String → Option Json
parse_nothing s = none

abbrev stored : Json
stored = object (
    field "version" (number (natural 1)) (
      field "phase" (str "released") (
        field "vmName" (str "vm") (
          field "requesterDid" (str "did:plc:a")
            (field "marketDid" (str "did:plc:m") (field "timestamps" (object end) end))))))

parse_contract_state_iff_example :
    (parse_contract_state parse_nothing (value stored) ≡ valid stored)
    ↔ ((value_of parse_nothing (value stored) ≡ some stored) × IsContractState stored)
parse_contract_state_iff_example = parse_contract_state_iff parse_nothing (value stored) stored
