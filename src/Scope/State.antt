-- ===== src/Scope/State.antt =====
-- `ScopeRefreshState` (lib/abc/scope-refresh/mod.ts).
pub mod Index
use atproto_market.Common.{
  String, ℕ, suc, ◌+◌, Bool, Option, none, some, List, [], eqb, ltb, length, if◌then◌else◌, or_else,
}
use atproto_market.Common.Dict.{Dict, get, set, delete, keys}

-- The window's `refreshIntervalMs` is read by the timers alone.
pub record Entry {ℓ} (T : Type ℓ) : Type ℓ where
  pub key : String
  pub counterparty_did : String
  pub generation : ℕ
  pub last_use_ms : ℕ
  pub payload : T

pub record ScopeState {ℓ} (T : Type ℓ) : Type ℓ where
  pub entries : Dict (Entry T)
  pub by_did : Dict (Dict (Unit {0}))
  pub generation : ℕ
  pub idle_ttl_ms : ℕ

-- The key leaves the set of its did, and an empty set leaves the index.
unlist :
    Dict (Dict (Unit {0})) → String → String → Option (Dict (Unit {0})) → Dict (Dict (Unit {0}))
unlist by_did did key none = by_did
unlist by_did did key (some listed) =
    let left = delete listed key in
    if eqb (length left) 0 then delete by_did did else set by_did did left

module _ {ℓ} {T : Type ℓ} where
  unfoldable pub new_state : ℕ → ScopeState T
  new_state ttl = record { entries = []; by_did = []; generation = 0; idle_ttl_ms = ttl }

  use_entry : ScopeState T → String → String → T → ℕ → Option (Entry T) → ScopeState T × Entry T
  use_entry s key did payload now (some existing) =
      let entry : Entry T = record existing { last_use_ms = now; payload = payload } in
      (record s { entries = set s.entries key entry }, entry)
  use_entry s key did payload now none =
      let entry : Entry T = record {
        key = key;
        counterparty_did = did;
        generation = s.generation + 1;
        last_use_ms = now;
        payload = payload;
      } in
      let listed : Dict (Unit {0}) = or_else (get s.by_did did) [] in
      (
        record s {
          entries = set s.entries key entry;
          by_did = set s.by_did did (set listed key tt);
          generation = s.generation + 1;
        },
        entry,
      )

  unfoldable pub use_key : ScopeState T → String → String → T → ℕ → ScopeState T × Entry T
  unfolding use_entry
  use_key s key did payload now = use_entry s key did payload now (get s.entries key)

  of_generation : ℕ → Option (Entry T) → Option (Entry T)
  of_generation g none = none
  of_generation g (some e) = if eqb e.generation g then some e else none

  unfoldable pub current : ScopeState T → String → ℕ → Option (Entry T)
  unfolding of_generation
  current s key g = of_generation g (get s.entries key)

  drop_entry : ScopeState T → String → Option (Entry T) → ScopeState T
  drop_entry s key none = s
  drop_entry s key (some e) = record s {
    entries = delete s.entries key;
    by_did = unlist s.by_did e.counterparty_did key (get s.by_did e.counterparty_did);
  }

  unfoldable pub drop : ScopeState T → String → ScopeState T
  unfolding drop_entry unlist
  drop s key = drop_entry s key (get s.entries key)

  unfoldable pub keys_for_did : ScopeState T → String → List String
  keys_for_did s did = keys (or_else (get s.by_did did) [])

  -- `nowMs - entry.lastUseMs > idleTtlMs`, where the difference may be negative.
  unfoldable pub idle : ScopeState T → Entry T → ℕ → Bool
  idle s e now = ltb (e.last_use_ms + s.idle_ttl_ms) now

  unfoldable pub size : ScopeState T → ℕ
  size s = length s.entries
