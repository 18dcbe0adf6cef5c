-- ===== src/Tests/Bidding.antt =====
-- Bids with and without a cost, over costs that are numbers, infinite, or no number at all.
use atproto_market.Common.{
  String, ℕ, Bool, true, false, List, [], ◌∷◌, none, some, ◌≡◌, ◌==◌, refl, ltb, arith, All,
}
use atproto_market.Common.Json.{Json, str, number, natural, object, end, field, fields_get, member}
use atproto_market.Bids.{CollectedBid, bid_payload_nsid}
use atproto_market.Bids.Winner.{
  Floats, bid_cost, select_winner, IsPriced, IsFirstCheapest, select_winner-IsFirstCheapest,
  select_winner_nan,
}
use atproto_market.Bids.Collector.{
  Options, Collector, Event, arrived, checked, new_collector, run, step, add, settle, is_free,
}
use atproto_market.Bids.Collector.Valid.{IsValid, run-IsValid}

data Cost : Type 0 where
  finite : ℕ → Cost
  infinite not_a_number : Cost

cheaper : Cost → Cost → Bool
cheaper not_a_number b = false
cheaper a not_a_number = false
cheaper (finite a) (finite b) = ltb a b
cheaper (finite a) infinite = true
cheaper infinite b = false

no_number : Cost → Bool
no_number not_a_number = true
no_number c = false

number_of : Json → Cost
number_of (number (natural n)) = finite n
number_of j = not_a_number

cheaper_nan : (a b : Cost) → no_number b ≡ true → cheaper a b ≡ false
unfolding cheaper no_number
cheaper_nan a b h = ground arith

cheaper_trans : (a b c : Cost) → cheaper a b ≡ true → cheaper b c ≡ true → cheaper a c ≡ true
unfolding cheaper
cheaper_trans a b c h k = ground arith

cheaper_cotrans :
    (a b c : Cost)
    → no_number b ≡ false
    → cheaper a b ≡ false
    → cheaper b c ≡ false
    → cheaper a c ≡ false
unfolding cheaper no_number
cheaper_cotrans a b c n h k = ground arith

abbrev costs : Floats
costs = record {
  Float = Cost;
  to_number = number_of;
  infinity = infinite;
  less = cheaper;
  is_nan = no_number;
  less-nan = cheaper_nan;
  less-trans = cheaper_trans;
  less-cotrans = cheaper_cotrans;
}

abbrev bid_of : String → Json → CollectedBid
bid_of uri cost = record {
  did = "did:plc:b";
  uri = uri;
  cid = "c";
  record_fields = field "payload" (object (field "$type" (str "free") (field "cost" cost end))) end;
}

abbrev dear : CollectedBid
dear = bid_of "at://did:plc:b/bid/1" (number (natural 5))

abbrev cheap : CollectedBid
cheap = bid_of "at://did:plc:b/bid/2" (number (natural 3))

abbrev priceless : CollectedBid
priceless = bid_of "at://did:plc:b/bid/3" (str "three")

priced : All (IsPriced costs) (dear ∷ cheap ∷ [])
unfolding bid_cost no_number number_of fields_get member
priced = (refl, (refl, tt))

select_winner-IsFirstCheapest_example :
    (w : CollectedBid) × (select_winner costs (dear ∷ cheap ∷ []) ≡ some w)
    × IsFirstCheapest costs w (dear ∷ cheap ∷ [])
select_winner-IsFirstCheapest_example = select_winner-IsFirstCheapest costs dear (cheap ∷ []) priced

priceless_nan : no_number (bid_cost costs priceless) ≡ true
unfolding bid_cost no_number number_of fields_get member
priceless_nan = refl

select_winner_nan_example : select_winner costs (priceless ∷ cheap ∷ []) ≡ some priceless
select_winner_nan_example = select_winner_nan costs priceless (cheap ∷ []) priceless_nan

abbrev first_free : Options
first_free = record {
  free_bid_nsid = "free";
  first_free = true;
  winner_throws = λ bid. bid.uri == "at://did:plc:b/bid/3";
}

abbrev arrivals : List Event
arrivals = arrived dear ∷ arrived cheap ∷ arrived dear ∷ checked 1 true ∷ checked 0 true ∷ []

run-IsValid_example : IsValid (run (new_collector first_free) arrivals)
run-IsValid_example = run-IsValid first_free arrivals

abbrev won : Collector
won = run (new_collector first_free) (arrived dear ∷ checked 0 true ∷ [])

won_settled : won.settled ≡ true
unfolding run step add settle new_collector is_free bid_payload_nsid
won_settled = refl

-- A collector is settled and has no early winner, since `onEarlyWinner` throws.
abbrev thrown_for : Collector
thrown_for = run (new_collector first_free) (arrived priceless ∷ checked 0 true ∷ [])

thrown_settled : (thrown_for.settled ≡ true) × (thrown_for.early_winner ≡ none)
unfolding run step add settle new_collector is_free bid_payload_nsid
thrown_settled = (refl, refl)
