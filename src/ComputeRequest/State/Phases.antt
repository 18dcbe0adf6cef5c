-- ===== src/ComputeRequest/State/Phases.antt =====
-- What the updates of a contract's state keep: phases only go forward, and a time stamp stays.
use atproto_market.Common.{
  String, ◌≤◌, ◌≡◌, Option, some, arith, List, [], ◌∷◌, is_some, true, refl, or_else, ◌∙◌,
}
use atproto_market.ComputeRequest.State.{
  ContractState, Phase, Patch, requested, phase_index, stamp, create_contract_state, patch_contract,
  advance,
}

-- The events of a running request that write its state: a phase is reached by the `advance` of the
-- flow, or fields are patched. The operations behind the flow are in State/Later.
pub data Update : Type 0 where
  reach : Phase → Patch → String → Update
  fill : Patch → Update

unfoldable pub update : ContractState → Update → ContractState
unfolding advance patch_contract
update s (reach phase p now) = advance s phase p now
update s (fill p) = patch_contract s p

unfoldable pub run : ContractState → List Update → ContractState
run s [] = s
run s (u ∷ us) = run (update s u) us

-- The phase that the state names has a time stamp.
abbrev pub IsStamped : ContractState → Type 0
IsStamped s = is_some (s.timestamps s.phase) ≡ true

-- `s` may become `t`: the phase does not go back, the version stays, and so does every stamp.
pub record Extends (s t : ContractState) : Type 0 where
  pub forward : phase_index s.phase ≤ phase_index t.phase
  pub same_version : t.version ≡ s.version
  pub stamps : (p : Phase) (at : String) → s.timestamps p ≡ some at → t.timestamps p ≡ some at

stamp-IsStamped :
    (t : Phase → Option String) (p : Phase) (at : String) → is_some (stamp t p at p) ≡ true
stamp-IsStamped t p at = ground arith

stamp_first :
    (t : Phase → Option String) (p q : Phase) (now at : String)
    → t q ≡ some at
    → stamp t p (or_else (t p) now) q ≡ some at
stamp_first t requested q now at h = ground arith
stamp_first t p q now at h = ground arith

Extends-refl : (s : ContractState) → Extends s s
Extends-refl s = record { forward = omega arith; same_version = refl; stamps = λ p at h. h }

Extends-trans : {s t u : ContractState} → Extends s t → Extends t u → Extends s u
Extends-trans a b = record {
  forward = omega (arith, a.forward, b.forward);
  same_version = b.same_version ∙ a.same_version;
  stamps = λ p at h. b.stamps p at (a.stamps p at h);
}

pub update-Extends : (s : ContractState) (u : Update) → Extends s (update s u)
unfolding update
update-Extends s (reach p patch now) = record {
  forward = ground arith;
  same_version = ground arith;
  stamps = λ q at h. ground (arith, stamp_first s.timestamps p q now at h);
}
update-Extends s (fill patch) = record {
  forward = omega arith;
  same_version = refl;
  stamps = λ p at h. h;
}

-- Whatever a running request writes by the `advance` of its flow and by patches, in any order: phases
-- only go forward, the version stays, and a time stamp, once set, is not changed.
pub run-Extends : (s : ContractState) (us : List Update) → Extends s (run s us)
unfolding run
run-Extends s [] = Extends-refl s
run-Extends s (u ∷ us) = Extends-trans (update-Extends s u) (run-Extends (update s u) us)

pub update-IsStamped : (s : ContractState) (u : Update) → IsStamped s → IsStamped (update s u)
unfolding update
update-IsStamped s (reach p patch now) h =
    ground (arith, stamp-IsStamped s.timestamps p (or_else (s.timestamps p) now))
update-IsStamped s (fill patch) h = h

run-IsStamped : (s : ContractState) (us : List Update) → IsStamped s → IsStamped (run s us)
unfolding run
run-IsStamped s [] h = h
run-IsStamped s (u ∷ us) h = run-IsStamped (update s u) us (update-IsStamped s u h)

-- From a new contract, whatever the flow writes by its `advance` and by patches, the phase that the
-- state names has a time stamp.
pub created-IsStamped :
    (vm_name requester_did market_did at : String) (us : List Update)
    → IsStamped (run (create_contract_state vm_name requester_did market_did at) us)
unfolding create_contract_state
created-IsStamped v r m at us = run-IsStamped _ us refl
