-- ===== src/Tests/Scopes.antt =====
-- A key that is used, refreshed, used again and invalidated.
use atproto_market.Common.{ℕ, true, false, List, [], ◌∷◌, ◌++◌, none, some, ◌≡◌, refl, ◌≤◌, arith}
use atproto_market.Common.Dict.{get, set}
use atproto_market.Scope.State.{Entry, ScopeState, new_state, use_key, drop}
use atproto_market.Scope.State.Index.{IsIndexed, use_key-IsIndexed, drop-IsIndexed}
use atproto_market.Scope.Refresher.{
  Refresher, Job, allowed, Event, used, fired, note_use, settle, invalidate, run,
}
use atproto_market.Scope.Refresher.Races.{invalidate_wins, note_use_then_settle, timer_of}

abbrev empty_state : ScopeState ℕ
empty_state = new_state 60

empty-IsIndexed : IsIndexed empty_state
unfolding new_state get
empty-IsIndexed did key = refl

abbrev used_state : ScopeState ℕ
used_state = (use_key empty_state "k" "d" 7 1).0

use_key-IsIndexed_example : IsIndexed used_state
use_key-IsIndexed_example = use_key-IsIndexed empty_state "k" "d" 7 1 empty-IsIndexed

drop-IsIndexed_example : IsIndexed (drop used_state "k")
drop-IsIndexed_example =
    drop-IsIndexed used_state "k" (use_key-IsIndexed empty_state "k" "d" 7 1 empty-IsIndexed)

abbrev the_entry : Entry ℕ
the_entry = record {
  key = "k";
  counterparty_did = "d";
  generation = 1;
  last_use_ms = 1;
  payload = 7;
}

-- The key's first refresh is under way: its timer has fired.
abbrev refreshing : Refresher ℕ
refreshing = record {
  state = used_state;
  pending = [];
  refreshes = 0;
  closed = false;
  attached = true;
  armed = [];
  next_handle = 1;
  running = (record { key = "k"; generation = 1; counterparty_did = "d" }) ∷ [];
  events = [];
}

abbrev the_job : Job
the_job = record { key = "k"; generation = 1; counterparty_did = "d" }

entry_there : get used_state.entries "k" ≡ some the_entry
unfolding use_key get set new_state
entry_there = refl

generation_given : 1 ≤ used_state.generation
unfolding use_key get new_state
generation_given = omega arith

abbrev later : List (Event ℕ)
later = used "k" "d" 8 2 ∷ fired 0 9 ∷ []

invalidate_wins_example :
    ((settle (run (invalidate refreshing "d" none) later) the_job allowed).armed
      ≡ (run (invalidate refreshing "d" none) later).armed)
    × ((settle (run (invalidate refreshing "d" none) later) the_job allowed).pending
        ≡ (run (invalidate refreshing "d" none) later).pending)
    × ((settle (run (invalidate refreshing "d" none) later) the_job allowed).events
        ≡ (run (invalidate refreshing "d" none) later).events
          ++ (record { did = "d"; rkey = "" }) ∷ [])
invalidate_wins_example =
    invalidate_wins refreshing the_job none the_entry later allowed
      (use_key-IsIndexed empty_state "k" "d" 7 1 empty-IsIndexed) refl entry_there refl
      generation_given

pending_none : get refreshing.pending "k" ≡ none
unfolding get
pending_none = refl

note_use_then_settle_example :
    ((settle (note_use refreshing "k" "d" 8 2) the_job allowed).armed
      ≡ ([] ++ timer_of 1 "k" 1 ∷ []) ++ timer_of 2 "k" 1 ∷ [])
    × (get (settle (note_use refreshing "k" "d" 8 2) the_job allowed).pending "k" ≡ some (2, 1))
note_use_then_settle_example =
    note_use_then_settle refreshing "k" "d" 8 2 the_entry refl pending_none entry_there
