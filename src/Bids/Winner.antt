-- ===== src/Bids/Winner.antt =====
-- The cost of a bid and the choice of the winner (lib/abc/requester/mod.ts).
use atproto_market.Common.{
  Bool, true, false, ◌≡◌, refl, ap, arith, Option, none, some, List, [], ◌∷◌, ◌++◌, if◌then◌else◌,
  All, Bool-cases, inl, inr,
}
use atproto_market.Common.Json.{Json, null, fields_get, member}
use atproto_market.Bids.{CollectedBid}

-- The floating-point numbers of the platform: `Number(v)`, `Infinity`, `<`, and what IEEE 754 says
-- of `<` on the values that are not NaN.
pub record Floats : Type 1 where
  pub Float : Type 0
  pub to_number : Json → Float
  pub infinity : Float
  pub less : Float → Float → Bool
  pub is_nan : Float → Bool
  pub less-nan : (a b : Float) → is_nan b ≡ true → less a b ≡ false
  pub less-trans : (a b c : Float) → less a b ≡ true → less b c ≡ true → less a c ≡ true
  pub less-cotrans :
      (a b c : Float) → is_nan b ≡ false → less a b ≡ false → less b c ≡ false → less a c ≡ false

module _ (fl : Floats) where
  open fl use {Float, to_number, infinity, less, is_nan, less-nan, less-trans, less-cotrans}

  cost_of : Option Json → Float
  cost_of none = infinity
  cost_of (some null) = infinity
  cost_of (some v) = to_number v

  -- `payload?.cost`, with a payload that is missing read as one without a cost.
  cost_field : Option Json → Option Json
  cost_field none = none
  cost_field (some p) = member p "cost"

  unfoldable pub bid_cost : CollectedBid → Float
  unfolding cost_of cost_field
  bid_cost bid = cost_of (cost_field (fields_get bid.record_fields "payload"))

  unfoldable pub best_of : CollectedBid → List CollectedBid → CollectedBid
  best_of best [] = best
  best_of best (b ∷ bs) = best_of (if less (bid_cost b) (bid_cost best) then b else best) bs

  unfoldable pub select_winner : List CollectedBid → Option CollectedBid
  unfolding best_of
  select_winner [] = none
  select_winner (b ∷ bs) = some (best_of b (b ∷ bs))

  abbrev pub Cheaper : CollectedBid → CollectedBid → Type 0
  Cheaper a b = less (bid_cost a) (bid_cost b) ≡ true

  abbrev pub NotCheaper : CollectedBid → CollectedBid → Type 0
  NotCheaper a b = less (bid_cost a) (bid_cost b) ≡ false

  abbrev pub IsPriced : CollectedBid → Type 0
  IsPriced b = is_nan (bid_cost b) ≡ false

  -- `w` stands in the list, is cheaper than each bid before it, and none behind it is cheaper.
  pub record IsFirstCheapest (w : CollectedBid) (bs : List CollectedBid) : Type 0 where
    pub before : List CollectedBid
    pub after : List CollectedBid
    pub place : bs ≡ before ++ w ∷ after
    pub beats : All (λ b. Cheaper w b) before
    pub unbeaten : All (λ b. NotCheaper b w) after

  -- One more bid behind the first that is not cheaper than it.
  insert_worse :
      (best b w : CollectedBid) (bs before after : List CollectedBid)
      → IsPriced b
      → NotCheaper b best
      → best ∷ bs ≡ before ++ w ∷ after
      → All (λ c. Cheaper w c) before
      → All (λ c. NotCheaper c w) after
      → IsFirstCheapest w (best ∷ b ∷ bs)
  insert_worse best b w bs [] after priced worse place beats unbeaten =
      let e : best ≡ w = cc in
      let tail : bs ≡ after = cc in
      record {
        before = [];
        after = b ∷ after;
        place = cc;
        beats = tt;
        unbeaten = (rw e at worse, unbeaten);
      }
  insert_worse best b w bs (c ∷ before) after priced worse place beats unbeaten =
      let e : c ≡ best = cc in
      let tail : bs ≡ before ++ w ∷ after = cc in
      let cheaper : Cheaper w best = rw e at (beats.0) in
      record {
        before = best ∷ b ∷ before;
        after = after;
        place = cc;
        beats = (
          cheaper,
          (
            elim (Bool-cases (less (bid_cost w) (bid_cost b))) [
              | inl less_b ↦ less_b
              | inr not_b ↦ cc (
                less-cotrans (bid_cost w) (bid_cost b) (bid_cost best) priced not_b worse,
                cheaper,
              )
            ],
            beats.1,
          ),
        );
        unbeaten = unbeaten;
      }

  insert_better :
      (best b w : CollectedBid) (bs before after : List CollectedBid)
      → Cheaper b best
      → b ∷ bs ≡ before ++ w ∷ after
      → All (λ c. Cheaper w c) before
      → All (λ c. NotCheaper c w) after
      → IsFirstCheapest w (best ∷ b ∷ bs)
  insert_better best b w bs [] after better place beats unbeaten =
      let e : b ≡ w = cc in
      record {
        before = best ∷ [];
        after = after;
        place = cc;
        beats = (rw e at better, tt);
        unbeaten = unbeaten;
      }
  insert_better best b w bs (c ∷ before) after better place beats unbeaten =
      let e : c ≡ b = cc in
      let cheaper : Cheaper w b = rw e at (beats.0) in
      record {
        before = best ∷ b ∷ before;
        after = after;
        place = cc;
        beats = (
          less-trans (bid_cost w) (bid_cost b) (bid_cost best) cheaper better,
          (cheaper, beats.1),
        );
        unbeaten = unbeaten;
      }

  best_of-IsFirstCheapest :
      (best : CollectedBid) (bs : List CollectedBid)
      → All IsPriced (best ∷ bs)
      → IsFirstCheapest (best_of best bs) (best ∷ bs)
  unfolding best_of
  best_of-IsFirstCheapest best [] priced = record {
    before = [];
    after = [];
    place = refl;
    beats = tt;
    unbeaten = tt;
  }
  best_of-IsFirstCheapest best (b ∷ bs) priced =
      elim (Bool-cases (less (bid_cost b) (bid_cost best))) [
        | inl better ↦
            let c = best_of-IsFirstCheapest b bs priced.1 in
            rw better (insert_better best b _ bs c.before c.after better c.place c.beats c.unbeaten)
        | inr worse ↦
            let c = best_of-IsFirstCheapest best bs (priced.0, priced.1.1) in
            rw worse (
              insert_worse best b _ bs c.before c.after priced.1.0 worse c.place c.beats c.unbeaten)
      ]

  best_of_self : (b : CollectedBid) (bs : List CollectedBid) → best_of b (b ∷ bs) ≡ best_of b bs
  unfolding best_of
  best_of_self b bs = ground arith

  -- Among bids whose costs are numbers there is a winner, and it is the first of the cheapest: it
  -- is cheaper than every bid before it, and no bid behind it is cheaper.
  pub select_winner-IsFirstCheapest :
      (b : CollectedBid) (bs : List CollectedBid)
      → All IsPriced (b ∷ bs)
      → (w : CollectedBid) × (select_winner (b ∷ bs) ≡ some w) × IsFirstCheapest w (b ∷ bs)
  unfolding select_winner
  select_winner-IsFirstCheapest b bs priced =
      (best_of b bs, ap some (best_of_self b bs), best_of-IsFirstCheapest b bs priced)

  best_of_nan :
      (b : CollectedBid) (bs : List CollectedBid) → is_nan (bid_cost b) ≡ true → best_of b bs ≡ b
  unfolding best_of
  best_of_nan b [] nan = refl
  best_of_nan b (c ∷ bs) nan = rw (less-nan (bid_cost c) (bid_cost b) nan) (best_of_nan b bs nan)

  -- A bid whose cost is not a number wins if it stands first, whatever the others cost.
  pub select_winner_nan :
      (b : CollectedBid) (bs : List CollectedBid)
      → is_nan (bid_cost b) ≡ true
      → select_winner (b ∷ bs) ≡ some b
  unfolding select_winner
  select_winner_nan b bs nan = ap some (best_of_nan b (b ∷ bs) nan)
