-- ===== src/ComputeRequest/State/Later.antt =====
-- What happens to the state of a contract behind the flow that requested it: `awaitComputeNetwork`,
-- `awaitComputeTermination`, `awaitComputeHostKeys` and `releaseCompute` of
-- lib/compute-request-xrpc/mod.ts. What the watch on events and the bidder give is an argument.
pub mod Kept
use atproto_market.Common.{
  String, ℕ, Bool, false, not, ◌||◌, Option, none, some, List, [], ◌∷◌, if◌then◌else◌, is_some,
  is_empty, ◌⧺◌,
}
use atproto_market.Records.{RecordRef}
use atproto_market.ComputeRequest.State.{
  ContractState, Patch, Phase, Outcome, Termination, HostKeys, Release, ReleaseTarget, nothing,
  patch_contract, advance_contract, is_terminated, release_target_of,
}

-- A text that is there and not empty.
abbrev is_filled : Option String → Bool
is_filled none = false
is_filled (some s) = not (is_empty s)

-- What the watch gives first: nothing within the time, a termination, or the address of the guest.
pub data Waited : Type 0 where
  timed_out : Waited
  ended : Termination → Waited
  addressed : String → Waited

-- The patches.
abbrev timeout_patch : Patch
timeout_patch = record nothing { outcome = some (some Outcome.network_timeout) }

abbrev end_patch : Termination → Patch
end_patch t = record nothing { termination = some (some t); outcome = some (some Outcome.returned) }

abbrev address_patch : String → Patch
address_patch a = record nothing {
  vm_address = some (some a);
  outcome = some (some Outcome.complete);
}

abbrev termination_patch : Termination → Patch
termination_patch t = record nothing { termination = some (some t) }

abbrev keys_patch : HostKeys → Patch
keys_patch keys = record nothing { host_keys = some (some keys) }

abbrev release_patch : Release → Patch
release_patch release = record nothing { release = some (some release) }

abbrev error_patch : String → Patch
error_patch e = record nothing { error = some (some e) }

behind_wait : ContractState → Waited → String → ContractState
unfolding patch_contract advance_contract
behind_wait s timed_out now = patch_contract s timeout_patch
behind_wait s (ended t) now = patch_contract s (end_patch t)
behind_wait s (addressed a) now = advance_contract s Phase.network (address_patch a) now

resumed : ContractState → Option RecordRef → Waited → String → ContractState
unfolding behind_wait
resumed s none waited now = patch_contract s (error_patch "no receipt to resume from")
resumed s (some r) waited now = behind_wait s waited now

unfoldable pub await_compute_network : ContractState → Waited → String → ContractState
unfolding resumed is_terminated
await_compute_network s waited now =
    if is_filled s.vm_address || is_terminated s then s else resumed s s.receipt waited now

terminated_with : ContractState → Option RecordRef → Option Termination → Option ContractState
unfolding patch_contract
terminated_with s none t = none
terminated_with s (some r) none = none
terminated_with s (some r) (some t) = some (patch_contract s (termination_patch t))

-- The state with the termination that the watch gives; `none` stands for an abort.
unfoldable pub await_compute_termination : ContractState → Option Termination → Option ContractState
unfolding terminated_with is_terminated
await_compute_termination s t = if is_terminated s then some s else terminated_with s s.receipt t

-- The state with the host keys; `none` stands for an abort or no report within the time.
with_host_keys : ContractState → Option HostKeys → ContractState
unfolding patch_contract
with_host_keys s none = s
with_host_keys s (some keys) = patch_contract s (keys_patch keys)

unfoldable pub await_compute_host_keys : ContractState → Option HostKeys → ContractState
unfolding with_host_keys is_terminated
await_compute_host_keys s keys =
    if is_some s.host_keys || not (is_some s.receipt) || is_terminated s
    then s
    else with_host_keys s keys

-- How the request to delete goes: the bidder is not found, it answers, or something throws.
pub data Deletion : Type 0 where
  unresolvable : Deletion
  answered : Release → Deletion
  failed : String → Deletion

behind_deletion : ContractState → ReleaseTarget → Deletion → String → ContractState
unfolding patch_contract advance_contract
behind_deletion s target unresolvable now =
    patch_contract s (error_patch ("vm.delete target unresolvable: " ⧺ target.submit_event_ref))
behind_deletion s target (answered release) now =
    advance_contract s Phase.released (release_patch release) now
behind_deletion s target (failed e) now = patch_contract s (error_patch ("vm.delete failed: " ⧺ e))

unfoldable pub release_compute : ContractState → Deletion → String → ContractState
unfolding behind_deletion is_terminated release_target_of
release_compute s deletion now = if is_terminated s then s else (elim (release_target_of s) [
  | none ↦ s
  | some target ↦ behind_deletion s target deletion now
])
