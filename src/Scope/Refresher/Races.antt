-- ===== src/Scope/Refresher/Races.antt =====
-- Refreshes that race with uses and invalidations.
use atproto_market.Common.{
  pick, String, ℕ, ◌+◌, ◌≤◌, Bool, true, false, ◌≡◌, ◌⊎◌, refl, arith, Option, none, some, List, [],
  ◌∷◌, ◌++◌, is_some, is_empty, or_else, Option-cases, Bool-cases, inl, inr, includes, ◌==◌, eq_iff,
  eq_refl,
}
use atproto_market.Common.Dict.{Dict, get, keys, set, get-set}
use atproto_market.Scope.State.{Entry, ScopeState, new_state, use_key, current, drop, keys_for_did}
use atproto_market.Scope.State.Index.{
  IsIndexed, current-use_key, current-drop, current-drop_self, generation-drop,
}
use atproto_market.Scope.Refresher.{
  Timer, Job, Verdict, allowed, denied, failed, Refresher, clear_pending, schedule, refresh, fire,
  settle, set_evaluator, note_use, invalidate_key, invalidate_keys, invalidate_did, invalidate,
  close, Event, used, fired, settled, invalidated, attaching, closing, step, run,
}

module _ {ℓ} {T : Type ℓ} (key : String) (g : ℕ) where
  -- The entry of generation `g` is gone, and no later entry of the key takes that number.
  abbrev pub IsGone : ScopeState T → Bool → Type ℓ
  IsGone s closed = (current s key g ≡ none) × ((closed ≡ true) ⊎ (g ≤ s.generation))

  drop-IsGone : (s : ScopeState T) (c : Bool) (k : String) → IsGone s c → IsGone (drop s k) c
  drop-IsGone s c k (lost, old) = ground (arith, current-drop s key g k)

  new_state-IsGone : (ttl : ℕ) → IsGone (new_state ttl) true
  unfolding new_state current get
  new_state-IsGone ttl = (refl, inl refl)

  refresh-IsGone :
      (r : Refresher T) (k : String) (g' now : ℕ)
      → IsGone r.state r.closed
      → IsGone (refresh r k g' now).state (refresh r k g' now).closed
  unfolding refresh
  refresh-IsGone r k g' now h = ground (arith, drop-IsGone r.state r.closed k h)

  settle-IsGone :
      (r : Refresher T) (j : Job) (v : Verdict)
      → IsGone r.state r.closed
      → IsGone (settle r j v).state (settle r j v).closed
  unfolding settle schedule
  settle-IsGone r j allowed h = ground arith
  settle-IsGone r j denied h = ground (arith, drop-IsGone r.state r.closed j.key h)
  settle-IsGone r j failed h = drop-IsGone r.state r.closed j.key h

  note_use-IsGone :
      (r : Refresher T) (k did : String) (payload : T) (now : ℕ)
      → IsGone r.state r.closed
      → IsGone (note_use r k did payload now).state (note_use r k did payload now).closed
  unfolding note_use schedule
  note_use-IsGone r k did payload now h =
      ground (arith, current-use_key r.state key g k did payload now)

  clear_pending-state :
      (r : Refresher T) (k : String)
      → ((clear_pending r k).state ≡ r.state) × ((clear_pending r k).closed ≡ r.closed)
  unfolding clear_pending
  clear_pending-state r k = ground arith

  invalidate_key-IsGone :
      (r : Refresher T) (k : String)
      → IsGone r.state r.closed
      → IsGone (invalidate_key r k).state (invalidate_key r k).closed
  unfolding invalidate_key
  invalidate_key-IsGone r k h =
      ground (arith, clear_pending-state r k, drop-IsGone r.state r.closed k h)

  invalidate_keys-IsGone :
      (r : Refresher T) (ks : List String)
      → IsGone r.state r.closed
      → IsGone (invalidate_keys r ks).state (invalidate_keys r ks).closed
  unfolding invalidate_keys
  invalidate_keys-IsGone r [] h = h
  invalidate_keys-IsGone r (k ∷ ks) h =
      invalidate_keys-IsGone (invalidate_key r k) ks (invalidate_key-IsGone r k h)

  invalidate_did-IsGone :
      (r : Refresher T) (did : Option String)
      → IsGone r.state r.closed
      → IsGone (invalidate_did r did).state (invalidate_did r did).closed
  unfolding invalidate_did
  invalidate_did-IsGone r none h = h
  invalidate_did-IsGone r (some did) h =
      ground (arith, invalidate_keys-IsGone r (keys_for_did r.state did) h)

  invalidate-IsGone :
      (r : Refresher T) (did : String) (rkey : Option String)
      → IsGone r.state r.closed
      → IsGone (invalidate r did rkey).state (invalidate r did rkey).closed
  unfolding invalidate
  invalidate-IsGone r did rkey h =
      invalidate_did-IsGone (invalidate_did r (some did)) rkey
        (invalidate_did-IsGone r (some did) h)

  step-IsGone :
      (r : Refresher T) (e : Event T)
      → IsGone r.state r.closed
      → IsGone (step r e).state (step r e).closed
  unfolding step
  step-IsGone r (used k did payload now) h = note_use-IsGone r k did payload now h
  step-IsGone r (fired i now) h = elim (Option-cases (pick i r.armed)) [
    | inl missing ↦ rw missing h
    | inr (found, there) ↦
        rw there (unfold fire in refresh-IsGone _ found.0.key found.0.generation now h)
  ]
  step-IsGone r (settled i v) h = elim (Option-cases (pick i r.running)) [
    | inl missing ↦ rw missing h
    | inr (found, there) ↦ rw there (settle-IsGone (record r { running = found.1 }) found.0 v h)
  ]
  step-IsGone r (invalidated did rkey) h = invalidate-IsGone r did rkey h
  step-IsGone r attaching h = unfold set_evaluator in h
  step-IsGone r closing h = unfold close in new_state-IsGone r.state.idle_ttl_ms

  run-IsGone :
      (r : Refresher T) (es : List (Event T))
      → IsGone r.state r.closed
      → IsGone (run r es).state (run r es).closed
  unfolding run
  run-IsGone r [] h = h
  run-IsGone r (e ∷ es) h = run-IsGone (step r e) es (step-IsGone r e h)

keys-includes {ℓ} : {V : Type ℓ} (m : Dict V) (k : String) → is_some (get m k) ≡ includes k (keys m)
unfolding get includes
keys-includes [] k = refl
keys-includes ((j, v) ∷ m) k = ground (arith, keys-includes m k)

module _ {ℓ} {T : Type ℓ} (key : String) (g : ℕ) where
  still_old :
      (r : Refresher T) (k : String)
      → (r.closed ≡ true) ⊎ (g ≤ r.state.generation)
      → ((invalidate_key r k).closed ≡ true) ⊎ (g ≤ (invalidate_key r k).state.generation)
  unfolding invalidate_key
  still_old r k old =
      ground (arith, clear_pending-state key g r k, generation-drop (clear_pending r k).state k)

  invalidate_key-lost :
      (r : Refresher T) (k : String) → k ≡ key → current (invalidate_key r k).state key g ≡ none
  unfolding invalidate_key
  invalidate_key-lost r k e = rw e (current-drop_self (clear_pending r key).state key g)

  -- Each key of the list loses its entry.
  invalidate_keys-lost :
      (r : Refresher T) (ks : List String)
      → (r.closed ≡ true) ⊎ (g ≤ r.state.generation)
      → includes key ks ≡ true
      → IsGone key g (invalidate_keys r ks).state (invalidate_keys r ks).closed
  unfolding invalidate_keys includes
  invalidate_keys-lost r [] old h = cc
  invalidate_keys-lost r (k ∷ ks) old h = elim (Bool-cases (k == key)) [
    | inl same ↦
        invalidate_keys-IsGone key g (invalidate_key r k) ks
          (invalidate_key-lost r k ((eq_iff k key).0 same), still_old r k old)
    | inr other ↦ invalidate_keys-lost (invalidate_key r k) ks (still_old r k old) (rw other at h)
  ]

  -- An invalidation of the did that an entry is for takes the entry away.
  invalidate-lost :
      (r : Refresher T) (did : String) (rkey : Option String) (e : Entry T)
      → IsIndexed r.state
      → is_empty did ≡ false
      → get r.state.entries key ≡ some e
      → e.counterparty_did ≡ did
      → g ≤ r.state.generation
      → IsGone key g (invalidate r did rkey).state (invalidate r did rkey).closed
  unfolding invalidate
  invalidate-lost r did rkey e indexed filled there of_did le =
      let listed : includes key (keys_for_did r.state did) ≡ true =
        unfold keys_for_did in
        ground (
          arith,
          indexed did key,
          keys-includes (or_else (get r.state.by_did did) []) key,
          eq_iff e.counterparty_did did,
        ) in
      invalidate_did-IsGone key g (invalidate_did r (some did)) rkey (
        unfold invalidate_did in
        rw filled (invalidate_keys-lost r (keys_for_did r.state did) (inr le) listed))

  -- What an evaluation does that ends when its generation is gone.
  settle_gone :
      (r : Refresher T) (j : Job) (v : Verdict)
      → current r.state j.key j.generation ≡ none
      → ((settle r j v).armed ≡ r.armed)
        × ((settle r j v).pending ≡ r.pending)
        × ((settle r j v).events
            ≡ r.events ++ (record { did = j.counterparty_did; rkey = "" }) ∷ [])
  unfolding settle
  settle_gone r j allowed lost = ground arith
  settle_gone r j denied lost = ground arith
  settle_gone r j failed lost = (refl, refl, refl)

-- An evaluation that was under way when its counterparty was invalidated never renews a verdict:
-- whatever happens before it ends, and whatever it ends with, it sets no timer and has the scope
-- cache forget the counterparty. The index has to list the entries, the did has to be named, and
-- the entry's generation has to be one that was given out.
pub invalidate_wins {ℓ} :
    {T : Type ℓ} (r : Refresher T) (j : Job) (rkey : Option String) (e : Entry T)
    (es : List (Event T)) (v : Verdict)
    → IsIndexed r.state
    → is_empty j.counterparty_did ≡ false
    → get r.state.entries j.key ≡ some e
    → e.counterparty_did ≡ j.counterparty_did
    → j.generation ≤ r.state.generation
    → ((settle (run (invalidate r j.counterparty_did rkey) es) j v).armed
        ≡ (run (invalidate r j.counterparty_did rkey) es).armed)
      × ((settle (run (invalidate r j.counterparty_did rkey) es) j v).pending
          ≡ (run (invalidate r j.counterparty_did rkey) es).pending)
      × ((settle (run (invalidate r j.counterparty_did rkey) es) j v).events
          ≡ (run (invalidate r j.counterparty_did rkey) es).events
            ++ (record { did = j.counterparty_did; rkey = "" }) ∷ [])
invalidate_wins r j rkey e es v indexed filled there of_did le =
    settle_gone j.key j.generation (run (invalidate r j.counterparty_did rkey) es) j v
      (run-IsGone j.key j.generation (invalidate r j.counterparty_did rkey) es (
        invalidate-lost j.key j.generation r j.counterparty_did rkey e indexed filled there of_did
          le)).0

abbrev pub timer_of : ℕ → String → ℕ → Timer
timer_of h key g = record { handle = h; key = key; generation = g }

-- A use of a key while its refresh is under way, where no timer is pending, and that refresh then
-- ending with an allowed verdict, set two timers for the same generation of the key; the code
-- remembers only the second, so neither an invalidation nor `close` clears the first.
pub note_use_then_settle :
    (r : Refresher ℕ) (key did : String) (payload now : ℕ) (e : Entry ℕ)
    → r.closed ≡ false
    → get r.pending key ≡ none
    → get r.state.entries key ≡ some e
    → ((settle
          (note_use r key did payload now)
          (record { key = key; generation = e.generation; counterparty_did = did })
          allowed).armed
        ≡ (r.armed ++ timer_of r.next_handle key e.generation ∷ [])
          ++ timer_of (r.next_handle + 1) key e.generation ∷ [])
      × (get
            (settle
              (note_use r key did payload now)
              (record { key = key; generation = e.generation; counterparty_did = did })
              allowed).pending
            key
          ≡ some (r.next_handle + 1, e.generation))
unfolding note_use settle schedule use_key current
note_use_then_settle r key did payload now e opened free there =
    let entry : Entry ℕ = record e { last_use_ms = now; payload = payload } in
    let later : ℕ × ℕ = (r.next_handle + 1, e.generation) in
    let pending = set r.pending key (r.next_handle, e.generation) in
    rw there (
      rw opened (
        rw free (
          ground (
            arith,
            get-set r.state.entries key key entry,
            get-set pending key key later,
            eq_refl key,
          ))))
