-- ===== src/Scope/Refresher.antt =====
-- `createScopeRefresher` (lib/scope-refresh-timers/mod.ts). The timers and the policy evaluator are
-- the platform's: `armed` holds the timers that are set and have not fired, and `running` the
-- evaluations that wait for the evaluator. `refresh` is cut in two where it awaits it.
pub mod Races
use atproto_market.Common.{
  pick, String, ℕ, zero, suc, ◌+◌, Bool, true, false, not, ◌||◌, Option, none, some, List, [], ◌∷◌,
  ◌++◌, eqb, length, if◌then◌else◌, or_else, is_some, is_empty, keep,
}
use atproto_market.Common.Dict.{Dict, get, set, delete, has}
use atproto_market.Scope.State.{
  Entry, ScopeState, new_state, use_key, current, drop, keys_for_did, idle, size,
}

pub record Timer : Type 0 where
  pub handle : ℕ
  pub key : String
  pub generation : ℕ

-- An evaluation under way: `refresh` behind its `await`.
pub record Job : Type 0 where
  pub key : String
  pub generation : ℕ
  pub counterparty_did : String

-- What the evaluator answers, or that it throws.
pub data Verdict : Type 0 where
  allowed denied failed : Verdict

-- The `scopeCache.applyEvent({ did, rkey })` calls.
pub record CacheEvent : Type 0 where
  pub did : String
  pub rkey : String

pub record Refresher {ℓ} (T : Type ℓ) : Type ℓ where
  pub state : ScopeState T
  pub pending : Dict (ℕ × ℕ)
  pub refreshes : ℕ
  pub closed : Bool
  pub attached : Bool
  pub armed : List Timer
  pub next_handle : ℕ
  pub running : List Job
  pub events : List CacheEvent

abbrev pub not_handle : ℕ → Timer → Bool
not_handle h t = not (eqb t.handle h)

clear_all : List Timer → Dict (ℕ × ℕ) → List Timer
clear_all armed [] = armed
clear_all armed ((key, (h, g)) ∷ pending) = clear_all (keep (not_handle h) armed) pending

module _ {ℓ} {T : Type ℓ} where
  clear_armed : Refresher T → String → Option (ℕ × ℕ) → Refresher T
  clear_armed r key none = r
  clear_armed r key (some (h, g)) = record r {
    pending = delete r.pending key;
    armed = keep (not_handle h) r.armed;
  }

  unfoldable pub clear_pending : Refresher T → String → Refresher T
  unfolding clear_armed
  clear_pending r key = clear_armed r key (get r.pending key)

  -- `setTimer` gives a new handle.
  unfoldable pub schedule : Refresher T → String → ℕ → Refresher T
  schedule r key g = record r {
    pending = set r.pending key (r.next_handle, g);
    armed = r.armed ++ (record { handle = r.next_handle; key = key; generation = g }) ∷ [];
    next_handle = r.next_handle + 1;
  }

  -- `refresh` up to its `await`, on the entry that it found.
  start : Refresher T → String → ℕ → ℕ → Option (Entry T) → Refresher T
  start r key g now none = r
  start r key g now (some e) =
      if idle r.state e now || not r.attached
      then record r { state = drop r.state key }
      else record r {
        running =
            r.running
            ++ (record { key = key; generation = g; counterparty_did = e.counterparty_did }) ∷ [];
      }

  unfoldable pub refresh : Refresher T → String → ℕ → ℕ → Refresher T
  unfolding start
  refresh r key g now =
      let fired : Refresher T = record r { pending = delete r.pending key } in
      if r.closed then fired else start fired key g now (current r.state key g)

  -- A timer that is set fires.
  unfoldable pub fire : Refresher T → Timer → ℕ → Refresher T
  unfolding refresh
  fire r t now =
      refresh (record r { armed = keep (not_handle t.handle) r.armed }) t.key t.generation now

  abbrev pub forget_verdicts : Refresher T → String → Refresher T
  forget_verdicts r did = record r { events = r.events ++ (record { did = did; rkey = "" }) ∷ [] }

  -- `refresh` behind its `await`.
  unfoldable pub settle : Refresher T → Job → Verdict → Refresher T
  settle r j failed = forget_verdicts (record r { state = drop r.state j.key }) j.counterparty_did
  settle r j allowed =
      let done : Refresher T = record r { refreshes = r.refreshes + 1 } in
      if is_some (current r.state j.key j.generation)
      then schedule done j.key j.generation
      else forget_verdicts done j.counterparty_did
  settle r j denied =
      let done : Refresher T = record r { refreshes = r.refreshes + 1 } in
      if is_some (current r.state j.key j.generation)
      then record done { state = drop r.state j.key }
      else forget_verdicts done j.counterparty_did

  unfoldable pub set_evaluator : Refresher T → Refresher T
  set_evaluator r = record r { attached = true }

  -- `key` is the `scopeCacheKey` of the input, which that library computes.
  unfoldable pub note_use : Refresher T → String → String → T → ℕ → Refresher T
  note_use r key did payload now =
      let (state, entry) = use_key r.state key did payload now in
      let used : Refresher T = record r { state = state } in
      if r.closed then r else if has r.pending key then used else schedule used key entry.generation

  invalidate_key : Refresher T → String → Refresher T
  invalidate_key r key =
      let cleared = clear_pending r key in record cleared { state = drop cleared.state key }

  invalidate_keys : Refresher T → List String → Refresher T
  unfolding invalidate_key
  invalidate_keys r [] = r
  invalidate_keys r (key ∷ keys) = invalidate_keys (invalidate_key r key) keys

  invalidate_did : Refresher T → Option String → Refresher T
  invalidate_did r none = r
  invalidate_did r (some did) =
      if is_empty did then r else invalidate_keys r (keys_for_did r.state did)

  unfoldable pub invalidate : Refresher T → String → Option String → Refresher T
  unfolding invalidate_keys invalidate_did
  invalidate r did rkey =
      let dropped = invalidate_did (invalidate_did r (some did)) rkey in
      record dropped {
        events = dropped.events ++ (record { did = did; rkey = or_else rkey "" }) ∷ [];
      }

  unfoldable pub close : Refresher T → Refresher T
  unfolding clear_all
  close r = record r {
    closed = true;
    armed = clear_all r.armed r.pending;
    pending = [];
    state = new_state r.state.idle_ttl_ms;
  }

  unfoldable pub stats : Refresher T → ℕ × ℕ × ℕ × Bool
  stats r = (size r.state, length r.pending, r.refreshes, r.attached)

-- What may happen next: a use, the `i`-th armed timer firing, the `i`-th evaluation ending, an
-- invalidation, an evaluator being set, the end.
pub data Event {ℓ} (T : Type ℓ) : Type ℓ where
  used : String → String → T → ℕ → Event T
  fired : ℕ → ℕ → Event T
  settled : ℕ → Verdict → Event T
  invalidated : String → Option String → Event T
  attaching : Event T
  closing : Event T

module _ {ℓ} {T : Type ℓ} where
  fire_picked : Refresher T → ℕ → Option (Timer × List Timer) → Refresher T
  fire_picked r now none = r
  fire_picked r now (some (t, others)) = fire r t now

  settle_picked : Refresher T → Verdict → Option (Job × List Job) → Refresher T
  settle_picked r v none = r
  settle_picked r v (some (j, others)) = settle (record r { running = others }) j v

  unfoldable pub step : Refresher T → Event T → Refresher T
  unfolding fire_picked settle_picked
  step r (used key did payload now) = note_use r key did payload now
  step r (fired i now) = fire_picked r now (pick i r.armed)
  step r (settled i v) = settle_picked r v (pick i r.running)
  step r (invalidated did rkey) = invalidate r did rkey
  step r attaching = set_evaluator r
  step r closing = close r

  unfoldable pub run : Refresher T → List (Event T) → Refresher T
  run r [] = r
  run r (e ∷ es) = run (step r e) es
