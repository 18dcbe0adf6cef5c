-- ===== src/ComputeRequest/State.antt =====
-- The state of a contract and its updates (lib/abc/compute-request/mod.ts), with the `advance` of
-- the flow that runs a request (lib/compute-request-xrpc/mod.ts).
pub mod Phases
pub mod Later
use atproto_market.Common.{
  String, ℕ, Bool, true, false, ◌||◌, ◌≡◌, Option, none, some, eqb, ltb, if◌then◌else◌, is_some,
  or_else, is_empty, List, Number,
}
use atproto_market.Records.{RecordRef}

abbrev pub contract_state_version : ℕ
contract_state_version = 1

pub data Phase : Type 0 where
  requested rfp_submitted winner_selected accepted receipt network released : Phase

pub data Outcome : Type 0 where
  no_bids bids_denied policy_rejected returned receipt_invalid network_timeout complete : Outcome

pub record Winner : Type 0 where
  pub did : String
  pub submit_accept : Option String

pub record Release : Type 0 where
  pub event : RecordRef
  pub payload : RecordRef
  pub ok : Bool
  pub status : Option ℕ

pub record Termination : Type 0 where
  pub reason : String
  pub exit_code : Option Number
  pub observed_at : String
  pub event : RecordRef
  pub payload : RecordRef
  pub request : Option RecordRef

pub record HostKey : Type 0 where
  pub type : String
  pub public_key : String
  pub fingerprint : String

pub record HostKeys : Type 0 where
  pub keys : List HostKey
  pub observed_at : String
  pub event : RecordRef
  pub payload : RecordRef

pub record ContractState : Type 0 where
  pub version : ℕ
  pub phase : Phase
  pub vm_name : String
  pub requester_did : String
  pub market_did : String
  pub payload : Option RecordRef
  pub rfp : Option RecordRef
  pub policy : Option RecordRef
  pub bid : Option RecordRef
  pub winner : Option Winner
  pub accept_pending : Option String
  pub accept : Option RecordRef
  pub receipt : Option RecordRef
  pub receipt_ok : Option Bool
  pub submit_event_ref : Option String
  pub vm_address : Option String
  pub bids : Option ℕ
  pub release : Option Release
  pub termination : Option Termination
  pub host_keys : Option HostKeys
  pub outcome : Option Outcome
  pub error : Option String
  pub timestamps : Phase → Option String

-- A patch: `none` for a key that it lacks. A key that is present with the value `undefined` is
-- `some none`, and clears the field.
pub record Patch : Type 0 where
  pub vm_name : Option String
  pub requester_did : Option String
  pub market_did : Option String
  pub payload : Option (Option RecordRef)
  pub rfp : Option (Option RecordRef)
  pub policy : Option (Option RecordRef)
  pub bid : Option (Option RecordRef)
  pub winner : Option (Option Winner)
  pub accept_pending : Option (Option String)
  pub accept : Option (Option RecordRef)
  pub receipt : Option (Option RecordRef)
  pub receipt_ok : Option (Option Bool)
  pub submit_event_ref : Option (Option String)
  pub vm_address : Option (Option String)
  pub bids : Option (Option ℕ)
  pub release : Option (Option Release)
  pub termination : Option (Option Termination)
  pub host_keys : Option (Option HostKeys)
  pub outcome : Option (Option Outcome)
  pub error : Option (Option String)

-- The patch with no key.
abbrev pub nothing : Patch
nothing = record {
  vm_name = none;
  requester_did = none;
  market_did = none;
  payload = none;
  rfp = none;
  policy = none;
  bid = none;
  winner = none;
  accept_pending = none;
  accept = none;
  receipt = none;
  receipt_ok = none;
  submit_event_ref = none;
  vm_address = none;
  bids = none;
  release = none;
  termination = none;
  host_keys = none;
  outcome = none;
  error = none;
}

-- `CONTRACT_PHASES.indexOf(phase)`
abbrev pub phase_index : Phase → ℕ
phase_index requested = 0
phase_index rfp_submitted = 1
phase_index winner_selected = 2
phase_index accepted = 3
phase_index receipt = 4
phase_index network = 5
phase_index released = 6

abbrev pub same_phase : Phase → Phase → Bool
same_phase p q = eqb (phase_index p) (phase_index q)

-- `{ ...timestamps, [phase]: at }`
abbrev pub stamp : (Phase → Option String) → Phase → String → Phase → Option String
stamp t p at q = if same_phase p q then some at else t q

abbrev no_stamps : Phase → Option String
no_stamps p = none

unfoldable pub create_contract_state : String → String → String → String → ContractState
create_contract_state vm_name requester_did market_did at = record {
  version = contract_state_version;
  phase = requested;
  vm_name = vm_name;
  requester_did = requester_did;
  market_did = market_did;
  payload = none;
  rfp = none;
  policy = none;
  bid = none;
  winner = none;
  accept_pending = none;
  accept = none;
  receipt = none;
  receipt_ok = none;
  submit_event_ref = none;
  vm_address = none;
  bids = none;
  release = none;
  termination = none;
  host_keys = none;
  outcome = none;
  error = none;
  timestamps = stamp no_stamps requested at;
}

unfoldable pub patch_contract : ContractState → Patch → ContractState
patch_contract s p = record {
  version = s.version;
  phase = s.phase;
  vm_name = or_else p.vm_name s.vm_name;
  requester_did = or_else p.requester_did s.requester_did;
  market_did = or_else p.market_did s.market_did;
  payload = or_else p.payload s.payload;
  rfp = or_else p.rfp s.rfp;
  policy = or_else p.policy s.policy;
  bid = or_else p.bid s.bid;
  winner = or_else p.winner s.winner;
  accept_pending = or_else p.accept_pending s.accept_pending;
  accept = or_else p.accept s.accept;
  receipt = or_else p.receipt s.receipt;
  receipt_ok = or_else p.receipt_ok s.receipt_ok;
  submit_event_ref = or_else p.submit_event_ref s.submit_event_ref;
  vm_address = or_else p.vm_address s.vm_address;
  bids = or_else p.bids s.bids;
  release = or_else p.release s.release;
  termination = or_else p.termination s.termination;
  host_keys = or_else p.host_keys s.host_keys;
  outcome = or_else p.outcome s.outcome;
  error = or_else p.error s.error;
  timestamps = s.timestamps;
}

unfoldable pub advance_contract : ContractState → Phase → Patch → String → ContractState
unfolding patch_contract
advance_contract s phase p at = record (patch_contract s p) {
  phase = phase;
  timestamps = stamp s.timestamps phase at;
}

unfoldable pub has_contract : ContractState → Bool
has_contract s = is_some s.accept

unfoldable pub is_terminated : ContractState → Bool
is_terminated s = is_some s.termination

pub record ReleaseTarget : Type 0 where
  pub receipt : RecordRef
  pub submit_event_ref : String

-- The tests on falsy values: an absent receipt, an empty uri or cid, an absent or empty reference.
release_target : Option RecordRef → Option String → Option ReleaseTarget
release_target (some r) (some submit) =
    if is_empty r.uri || is_empty r.cid || is_empty submit
    then none
    else some (record { receipt = r; submit_event_ref = submit })
release_target _ _ = none

unfoldable pub release_target_of : ContractState → Option ReleaseTarget
unfolding release_target
release_target_of s = release_target s.receipt s.submit_event_ref

-- The `advance` of a running request: a phase that the state has passed only patches, and the
-- first time stamp of a phase stays.
unfoldable pub advance : ContractState → Phase → Patch → String → ContractState
unfolding advance_contract patch_contract
advance s phase p now =
    if ltb (phase_index phase) (phase_index s.phase)
    then patch_contract s p
    else advance_contract s phase p (or_else (s.timestamps phase) now)
