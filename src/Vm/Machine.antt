-- ===== src/Vm/Machine.antt =====
-- Deletions on request and guests that end by themselves, in any interleaving: what is under way in
-- the callbacks of one bidder, and the events that may come next.
pub mod Once
use atproto_market.Common.{
  String, ℕ, Bool, true, false, Option, none, some, List, [], ◌∷◌, ◌++◌, if◌then◌else◌, pick,
}
use atproto_market.Common.Json.{Number}
use atproto_market.Common.Dict.{Dict, get}
use atproto_market.Receipts.{ActiveContract}
use atproto_market.Vm.Reason.{GuestGone}
use atproto_market.Vm.State.{Bidder}
use atproto_market.Vm.Delete.{
  Request, Job, Started, replied, joined, started, begin_delete, complete_delete, release_delete,
}
use atproto_market.Vm.Guests.{release_gone}

-- A deletion under way: `done` once its guest was destroyed and its contract was recorded.
pub record Flight : Type 0 where
  pub job : Job
  pub done : Bool

-- The loop of a guest that is gone has an entry of the contracts in its hands, and awaits.
pub record Visiting : Type 0 where
  pub key : String
  pub contract : ActiveContract
  pub gone : GuestGone

pub record World : Type 0 where
  pub bidder : Bidder
  pub flights : List Flight
  pub visits : List Visiting

-- A request to delete; the `i`-th deletion behind the provider's `destroy`; its `finally`; a guest's
-- loop takes up the entry of a key; the `i`-th entry that was taken up, behind its await.
pub data Event : Type 0 where
  requested : Request → Event
  completed : ℕ → Bool → String → Event
  released : ℕ → Event
  noticed : String → GuestGone → Event
  visited : ℕ → String → Event

unfoldable pub take_off : World → Bidder × Started → World
take_off w (b, started job) = record w {
  bidder = b;
  flights = w.flights ++ (record { job = job; done = false }) ∷ [];
}
take_off w (b, _) = record w { bidder = b }

unfoldable pub complete : World → Bool → String → Option (Flight × List Flight) → World
complete w ok now none = w
complete w ok now (some (f, others)) = if f.done then w else record w {
  bidder = complete_delete w.bidder f.job ok now;
  flights = others ++ (record f { done = true }) ∷ [];
}

unfoldable pub release : World → Option (Flight × List Flight) → World
release w none = w
release w (some (f, others)) =
    if f.done then record w { bidder = release_delete w.bidder f.job; flights = others } else w

unfoldable pub notice : World → String → GuestGone → Option ActiveContract → World
notice w key gone none = w
notice w key gone (some c) = record w {
  visits = w.visits ++ (record { key = key; contract = c; gone = gone }) ∷ [];
}

unfoldable pub visit :
    (Number → String) → World → String → Option (Visiting × List Visiting) → World
visit show w now none = w
visit show w now (some (v, others)) = record w {
  bidder = (release_gone show w.bidder v.key v.contract v.gone now).0;
  visits = others;
}

unfoldable pub step : (Number → String) → World → Event → World
unfolding take_off complete release notice visit
step show w (requested r) = take_off w (begin_delete w.bidder r)
step show w (completed i ok now) = complete w ok now (pick i w.flights)
step show w (released i) = release w (pick i w.flights)
step show w (noticed key gone) = notice w key gone (get w.bidder.active key)
step show w (visited i now) = visit show w now (pick i w.visits)

unfoldable pub run : (Number → String) → World → List Event → World
unfolding step
run show w [] = w
run show w (e ∷ es) = run show (step show w e) es
