-- ===== src/ComputeRequest/State/Later/Kept.antt =====
-- What every write to the state of a contract keeps, those behind the flow included.
use atproto_market.Common.{
  String, ◌≤◌, true, not, ◌||◌, ◌≡◌, ◌⊎◌, inl, inr, Option, none, some, arith, List, [], ◌∷◌,
  is_some, refl, ◌∙◌, or_else, Bool-cases, Option-cases, ◌⧺◌,
}
use atproto_market.Records.{RecordRef}
use atproto_market.ComputeRequest.State.{
  ContractState, Phase, Patch, Termination, HostKeys, ReleaseTarget, phase_index, stamp,
  patch_contract, advance_contract, is_terminated, release_target_of,
}
use atproto_market.ComputeRequest.State.Phases.{
  Update, update, IsStamped, Extends, update-Extends, update-IsStamped,
}
use atproto_market.ComputeRequest.State.Later.{
  Waited, timed_out, ended, addressed, Deletion, unresolvable, answered, failed, is_filled,
  behind_wait, resumed, await_compute_network, terminated_with, await_compute_termination,
  with_host_keys, await_compute_host_keys, behind_deletion, release_compute, timeout_patch,
  end_patch, address_patch, termination_patch, keys_patch, release_patch, error_patch,
}

-- A write of the flow, or one of the later operations.
pub data Write : Type 0 where
  flow : Update → Write
  network_awaited : Waited → String → Write
  end_awaited : Option Termination → Write
  keys_awaited : Option HostKeys → Write
  deleted : Deletion → String → Write

-- An operation that gives no state leaves the caller the state it has.
unfoldable pub write : ContractState → Write → ContractState
unfolding update await_compute_network await_compute_termination await_compute_host_keys
    release_compute
write s (flow u) = update s u
write s (network_awaited waited now) = await_compute_network s waited now
write s (end_awaited t) = or_else (await_compute_termination s t) s
write s (keys_awaited keys) = await_compute_host_keys s keys
write s (deleted deletion now) = release_compute s deletion now

unfoldable pub write_all : ContractState → List Write → ContractState
unfolding write
write_all s [] = s
write_all s (w ∷ ws) = write_all (write s w) ws

-- `s` may become `t`: the phase does not go back, or `t` is at `network` or `released`; the version
-- stays, every phase that has a time stamp keeps one, those before `network` the same; and the phase
-- that the state names keeps having one.
pub record Keeps (s t : ContractState) : Type 0 where
  pub forward :
      (phase_index s.phase ≤ phase_index t.phase)
      ⊎ (phase_index Phase.network ≤ phase_index t.phase)
  pub same_version : t.version ≡ s.version
  pub marks : (p : Phase) → is_some (s.timestamps p) ≡ true → is_some (t.timestamps p) ≡ true
  pub stamps :
      (p : Phase) (at : String)
      → phase_index p ≤ phase_index Phase.receipt
      → s.timestamps p ≡ some at
      → t.timestamps p ≡ some at
  pub stamped : IsStamped s → IsStamped t

Keeps-refl : (s : ContractState) → Keeps s s
Keeps-refl s = record {
  forward = inl (omega arith);
  same_version = refl;
  marks = λ p h. h;
  stamps = λ p at e h. h;
  stamped = λ h. h;
}

Keeps-trans : {s t u : ContractState} → Keeps s t → Keeps t u → Keeps s u
Keeps-trans {s} {t} {u} a b = record {
  forward = further s.phase t.phase u.phase a.forward b.forward;
  same_version = b.same_version ∙ a.same_version;
  marks = λ p h. b.marks p (a.marks p h);
  stamps = λ p at e h. b.stamps p at e (a.stamps p at e h);
  stamped = λ h. b.stamped (a.stamped h);
}
  where
    further :
        (p q r : Phase)
        → (phase_index p ≤ phase_index q) ⊎ (phase_index Phase.network ≤ phase_index q)
        → (phase_index q ≤ phase_index r) ⊎ (phase_index Phase.network ≤ phase_index r)
        → (phase_index p ≤ phase_index r) ⊎ (phase_index Phase.network ≤ phase_index r)
    further p q r h (inr k) = inr k
    further p q r (inl h) (inl k) = inl (omega (arith, h, k))
    further p q r (inr h) (inl k) = inr (omega (arith, h, k))

kept_mark : (o : Option String) (at : String) → o ≡ some at → is_some o ≡ true
kept_mark none at h = absurd (ground (arith, h))
kept_mark (some a) at h = refl

Extends-Keeps : (s t : ContractState) → (IsStamped s → IsStamped t) → Extends s t → Keeps s t
Extends-Keeps s t stamped e = record {
  forward = inl e.forward;
  same_version = e.same_version;
  marks = λ p h. marked (s.timestamps p) (t.timestamps p) h (λ at is. e.stamps p at is);
  stamps = λ p at b h. e.stamps p at h;
  stamped = stamped;
}
  where
    marked :
        (o n : Option String)
        → is_some o ≡ true
        → ((at : String) → o ≡ some at → n ≡ some at)
        → is_some n ≡ true
    marked none n h k = absurd (ground (arith, h))
    marked (some at) n h k = kept_mark n at (k at refl)

patch_contract-Keeps : (s : ContractState) (p : Patch) → Keeps s (patch_contract s p)
unfolding patch_contract
patch_contract-Keeps s p = record {
  forward = inl (omega arith);
  same_version = refl;
  marks = λ q h. h;
  stamps = λ q at e h. h;
  stamped = λ h. h;
}

stamp_marked :
    (t : Phase → Option String) (p q : Phase) (at : String)
    → is_some (t q) ≡ true
    → is_some (stamp t p at q) ≡ true
stamp_marked t p q at h = ground (arith, h)

stamp_other :
    (t : Phase → Option String) (p q : Phase) (now : String) (at : String)
    → phase_index Phase.network ≤ phase_index p
    → phase_index q ≤ phase_index Phase.receipt
    → t q ≡ some at
    → stamp t p now q ≡ some at
stamp_other t p q now at late early h = ground (arith, late, early, h)

stamp_own : (t : Phase → Option String) (p : Phase) (at : String) → is_some (stamp t p at p) ≡ true
stamp_own t p at = ground arith

-- A phase from `network` on is entered without asking which phase the state has.
advance_contract-Keeps :
    (s : ContractState) (phase : Phase) (p : Patch) (now : String)
    → phase_index Phase.network ≤ phase_index phase
    → Keeps s (advance_contract s phase p now)
unfolding advance_contract patch_contract
advance_contract-Keeps s phase p now late = record {
  forward = inr late;
  same_version = refl;
  marks = λ q h. stamp_marked s.timestamps phase q now h;
  stamps = λ q at early h. stamp_other s.timestamps phase q now at late early h;
  stamped = λ h. stamp_own s.timestamps phase now;
}

behind_wait-Keeps :
    (s : ContractState) (waited : Waited) (now : String) → Keeps s (behind_wait s waited now)
unfolding behind_wait
behind_wait-Keeps s timed_out now = patch_contract-Keeps s timeout_patch
behind_wait-Keeps s (ended t) now = patch_contract-Keeps s (end_patch t)
behind_wait-Keeps s (addressed a) now =
    advance_contract-Keeps s Phase.network (address_patch a) now (omega arith)

resumed-Keeps :
    (s : ContractState) (o : Option RecordRef) (waited : Waited) (now : String)
    → Keeps s (resumed s o waited now)
unfolding resumed
resumed-Keeps s none waited now = patch_contract-Keeps s (error_patch "no receipt to resume from")
resumed-Keeps s (some r) waited now = behind_wait-Keeps s waited now

await_compute_network-Keeps :
    (s : ContractState) (waited : Waited) (now : String)
    → Keeps s (await_compute_network s waited now)
unfolding await_compute_network
await_compute_network-Keeps s waited now =
    elim (Bool-cases (is_filled s.vm_address || is_terminated s)) [
      | inl over ↦ rw over (Keeps-refl s)
      | inr goes_on ↦ rw goes_on (resumed-Keeps s s.receipt waited now)
    ]

terminated_with-Keeps :
    (s : ContractState) (o : Option RecordRef) (t : Option Termination)
    → Keeps s (or_else (terminated_with s o t) s)
unfolding terminated_with
terminated_with-Keeps s none t = Keeps-refl s
terminated_with-Keeps s (some r) none = Keeps-refl s
terminated_with-Keeps s (some r) (some t) = patch_contract-Keeps s (termination_patch t)

await_compute_termination-Keeps :
    (s : ContractState) (t : Option Termination)
    → Keeps s (or_else (await_compute_termination s t) s)
unfolding await_compute_termination
await_compute_termination-Keeps s t = elim (Bool-cases (is_terminated s)) [
  | inl over ↦ rw over (Keeps-refl s)
  | inr goes_on ↦ rw goes_on (terminated_with-Keeps s s.receipt t)
]

await_compute_host_keys-Keeps :
    (s : ContractState) (keys : Option HostKeys) → Keeps s (await_compute_host_keys s keys)
unfolding await_compute_host_keys with_host_keys
await_compute_host_keys-Keeps s keys =
    elim (Bool-cases (is_some s.host_keys || not (is_some s.receipt) || is_terminated s)) [
      | inl over ↦ rw over (Keeps-refl s)
      | inr goes_on ↦ rw goes_on (reported keys)
    ]
  where
    reported : (k : Option HostKeys) → Keeps s (with_host_keys s k)
    reported none = Keeps-refl s
    reported (some k) = patch_contract-Keeps s (keys_patch k)

behind_deletion-Keeps :
    (s : ContractState) (target : ReleaseTarget) (deletion : Deletion) (now : String)
    → Keeps s (behind_deletion s target deletion now)
unfolding behind_deletion
behind_deletion-Keeps s target unresolvable now =
    patch_contract-Keeps s
      (error_patch ("vm.delete target unresolvable: " ⧺ target.submit_event_ref))
behind_deletion-Keeps s target (answered release) now =
    advance_contract-Keeps s Phase.released (release_patch release) now (omega arith)
behind_deletion-Keeps s target (failed e) now =
    patch_contract-Keeps s (error_patch ("vm.delete failed: " ⧺ e))

release_compute-Keeps :
    (s : ContractState) (deletion : Deletion) (now : String)
    → Keeps s (release_compute s deletion now)
unfolding release_compute
release_compute-Keeps s deletion now = elim (Bool-cases (is_terminated s)) [
  | inl over ↦ rw over (Keeps-refl s)
  | inr goes_on ↦ elim (Option-cases (release_target_of s)) [
    | inl missing ↦ rw (goes_on, missing) (Keeps-refl s)
    | inr (target, there) ↦ rw (goes_on, there) (behind_deletion-Keeps s target deletion now)
  ]
]

write-Keeps : (s : ContractState) (w : Write) → Keeps s (write s w)
unfolding write
write-Keeps s (flow u) = Extends-Keeps s (update s u) (update-IsStamped s u) (update-Extends s u)
write-Keeps s (network_awaited waited now) = await_compute_network-Keeps s waited now
write-Keeps s (end_awaited t) = await_compute_termination-Keeps s t
write-Keeps s (keys_awaited keys) = await_compute_host_keys-Keeps s keys
write-Keeps s (deleted deletion now) = release_compute-Keeps s deletion now

-- Whatever the flow of a request writes, and whatever the later waits for the network, the end and the
-- host keys and the releases write, in any order: the phase goes forward, or it is `network` or
-- `released`; the version stays; every phase with a time stamp keeps one, and those before `network`
-- the same one; and the phase that the state names keeps having one.
pub write_all-Keeps : (s : ContractState) (ws : List Write) → Keeps s (write_all s ws)
unfolding write_all
write_all-Keeps s [] = Keeps-refl s
write_all-Keeps s (w ∷ ws) = Keeps-trans (write-Keeps s w) (write_all-Keeps (write s w) ws)
