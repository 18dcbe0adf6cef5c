-- ===== src/Vm/Machine/Once/Runs.antt =====
-- Every run of the machine keeps the invariant.
use atproto_market.Common.{
  String, true, false, ◌≡◌, refl, arith, Option, none, some, List, [], ◌∷◌, pick, Bool-cases, inl,
  inr,
}
use atproto_market.Common.Pick.{IsPicked, pick-IsPicked, pick-IsApart}
use atproto_market.Common.Json.{Number}
use atproto_market.Common.Dict.{get, has}
use atproto_market.Vm.State.{filled}
use atproto_market.Vm.Delete.{begin_delete}
use atproto_market.Vm.Delete.Replies.{begin_delete-IsBegun}
use atproto_market.Vm.Guests.{release_gone, end_guest, in_flight, same_id}
use atproto_market.Vm.Machine.{
  Visiting, World, Event, requested, completed, released, noticed, visited, visit, step, run,
}
use atproto_market.Vm.Machine.Once.{uri_of, IsFlying, IsSeen, IsOnce, unmarked_out}
use atproto_market.Vm.Machine.Once.Steps.{
  take_off-IsOnce, complete-IsOnce, release-IsOnce, notice-IsOnce, ended-IsOnce, end_guest_lem,
}

free-IsOnce :
    (w : World) (v : Visiting) (now : String)
    → IsSeen w.bidder.active v
    → has w.bidder.active v.key ≡ true
    → in_flight w.bidder (filled v.contract.receipt_uri) ≡ false
    → IsOnce w
    → IsOnce (record w {
      bidder = end_guest w.bidder v.key v.contract v.gone v.contract.provider_id now;
    })
unfolding in_flight
free-IsOnce w v now seen there free h =
    let held : get w.bidder.active v.key ≡ some v.contract = elim seen [
      | inl is ↦ is
      | inr not_there ↦ absurd (ground (arith, there, not_there))
    ] in
    let (u, named, full) = h.live.named v.key v.contract held in
    let unmarked : has w.bidder.terminating u ≡ false = rw (named, full) at free in
    ended-IsOnce w (end_guest w.bidder v.key v.contract v.gone v.contract.provider_id now) v.key u
      v.contract (end_guest_lem w.bidder v.key u now v.contract v.gone v.contract.provider_id named)
      held named (unmarked_out w.bidder.active w.bidder.terminating u w.flights unmarked h.flying) h

release_gone-IsOnce :
    (show : Number → String) (w : World) (v : Visiting) (now : String)
    → IsSeen w.bidder.active v
    → IsOnce w
    → IsOnce (record w { bidder = (release_gone show w.bidder v.key v.contract v.gone now).0 })
unfolding release_gone
release_gone-IsOnce show w v now seen h =
    elim (Bool-cases (same_id show v.contract.provider_id v.gone.id)) [
      | inr other ↦ rw other h
      | inl mine ↦ elim (Bool-cases (has w.bidder.active v.key)) [
        | inr missing ↦ rw (mine, missing) h
        | inl there ↦ elim (Bool-cases (in_flight w.bidder (filled v.contract.receipt_uri))) [
          | inl busy ↦ rw (mine, there, busy) h
          | inr free ↦ rw (mine, there, free) (free-IsOnce w v now seen there free h)
        ]
      ]
    ]

visit-IsOnce :
    (show : Number → String) (w : World) (now : String) (o : Option (Visiting × List Visiting))
    → IsPicked (IsSeen w.bidder.active) o
    → IsOnce w
    → IsOnce (visit show w now o)
unfolding visit
visit-IsOnce show w now none p h = h
visit-IsOnce show w now (some (v, others)) (seen, rest) h =
    release_gone-IsOnce show (record w { visits = others }) v now seen
      (record { live = h.live; flying = h.flying; apart = h.apart; seen = rest })

step-IsOnce : (show : Number → String) (w : World) (e : Event) → IsOnce w → IsOnce (step show w e)
unfolding step
step-IsOnce show w (requested r) h =
    take_off-IsOnce w r.issuer_did (begin_delete w.bidder r).0 (begin_delete w.bidder r).1
      (begin_delete-IsBegun w.bidder r) h
step-IsOnce show w (completed i ok now) h =
    complete-IsOnce w ok now (pick i w.flights)
      (pick-IsPicked (IsFlying w.bidder.active w.bidder.terminating) i w.flights h.flying)
      (pick-IsApart uri_of i w.flights h.apart) h
step-IsOnce show w (released i) h =
    release-IsOnce w (pick i w.flights)
      (pick-IsPicked (IsFlying w.bidder.active w.bidder.terminating) i w.flights h.flying)
      (pick-IsApart uri_of i w.flights h.apart) h
step-IsOnce show w (noticed key gone) h = notice-IsOnce w key gone (get w.bidder.active key) refl h
step-IsOnce show w (visited i now) h =
    visit-IsOnce show w now (pick i w.visits)
      (pick-IsPicked (IsSeen w.bidder.active) i w.visits h.seen) h

-- However requests to delete, the destruction of guests and guests that end by themselves
-- interleave: the end of no receipt is recorded twice, and no receipt whose end was recorded is
-- still that of a contract. At first every contract has a receipt of its own, whose end was not
-- recorded, and nothing is under way.
pub run-IsOnce :
    (show : Number → String) (w : World) (es : List Event) → IsOnce w → IsOnce (run show w es)
unfolding run
run-IsOnce show w [] h = h
run-IsOnce show w (e ∷ es) h = run-IsOnce show (step show w e) es (step-IsOnce show w e h)
