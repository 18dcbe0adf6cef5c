-- ===== src/Bids/Collector.antt =====
-- `BidCollector` (lib/abc/requester/mod.ts). The policy check `allow` is asynchronous: `checking`
-- holds the bids whose check is under way, and `settle` is the end of one of them.
use atproto_market.Common.{
  pick, String, ℕ, zero, suc, Bool, true, false, not, ◌||◌, ◌≡◌, ◌⊎◌, refl, arith, Option, none,
  some, List, [], ◌∷◌, ◌++◌, if◌then◌else◌, ◌==◌, eq_iff, includes, is_some, Bool-cases,
  Option-cases, inl, inr, All, All-append, map,
}
use atproto_market.Bids.{CollectedBid, bid_payload_nsid}
pub mod Valid

-- `winner_throws` says of a bid whether `onEarlyWinner`, called for it, throws; it does for none where
-- the option is missing.
pub record Options : Type 0 where
  pub free_bid_nsid : String
  pub first_free : Bool
  pub winner_throws : CollectedBid → Bool

pub record Collector : Type 0 where
  pub opts : Options
  pub seen : List String
  pub bids : List CollectedBid
  pub settled : Bool
  pub early_winner : Option CollectedBid
  pub checking : List CollectedBid

unfoldable pub new_collector : Options → Collector
new_collector opts = record {
  opts = opts;
  seen = [];
  bids = [];
  settled = false;
  early_winner = none;
  checking = [];
}

unfoldable pub is_free : Collector → CollectedBid → Bool
is_free c bid = bid_payload_nsid bid == c.opts.free_bid_nsid

unfoldable pub add : Collector → CollectedBid → Collector
unfolding includes is_free
add c bid =
    let kept : Collector = record c { seen = c.seen ++ bid.uri ∷ []; bids = c.bids ++ bid ∷ [] } in
    if includes bid.uri c.seen
    then c
    else if not c.opts.first_free || c.settled || not (is_free c bid)
    then kept
    else record kept { checking = c.checking ++ bid ∷ [] }

unfoldable pub add_all : Collector → List CollectedBid → Collector
unfolding add
add_all c [] = c
add_all c (bid ∷ bids) = add_all (add c bid) bids

-- The check of a bid ends: `ok` is its result, false too where it throws. Where `onEarlyWinner` throws
-- the collector is settled already, and the promise of the early winner is not resolved.
unfoldable pub settle_picked :
    Collector → Bool → Option (CollectedBid × List CollectedBid) → Collector
settle_picked c ok none = c
settle_picked c ok (some (bid, others)) =
    if not ok || c.settled
    then record c { checking = others }
    else if c.opts.winner_throws bid
    then record c { checking = others; settled = true }
    else record c { checking = others; settled = true; early_winner = some bid }

unfoldable pub settle : Collector → ℕ → Bool → Collector
unfolding settle_picked
settle c i ok = settle_picked c ok (pick i c.checking)

pub data Event : Type 0 where
  arrived : CollectedBid → Event
  checked : ℕ → Bool → Event

unfoldable pub step : Collector → Event → Collector
unfolding add settle
step c (arrived bid) = add c bid
step c (checked i ok) = settle c i ok

unfoldable pub run : Collector → List Event → Collector
unfolding step
run c [] = c
run c (e ∷ es) = run (step c e) es
