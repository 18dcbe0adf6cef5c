-- ===== src/Bids/Collector/Valid.antt =====
-- What the collector keeps, whatever the order in which bids arrive and checks end.
use atproto_market.Common.{
  pick, String, Bool, true, false, not, ◌||◌, ◌≡◌, ◌⊎◌, refl, arith, Option, none, some, List, [],
  ◌∷◌, ◌++◌, ◌∙◌, eq_iff, includes, Bool-cases, Option-cases, inl, inr, All, All-append,
}
use atproto_market.Common.Distinct.{Distinct, append-Distinct}
use atproto_market.Common.Pick.{IsPicked, pick-IsPicked}
use atproto_market.Bids.{CollectedBid}
use atproto_market.Bids.Collector.{
  Collector, Options, new_collector, is_free, add, settle, settle_picked, step, run, Event, arrived,
  checked,
}

-- The uris of the bids, in order.
abbrev pub uris : List CollectedBid → List String
uris [] = []
uris (b ∷ bs) = b.uri ∷ uris bs

-- A bid that the collector holds and that is free, where free bids are looked for.
abbrev pub IsCandidate : Collector → CollectedBid → Type 0
IsCandidate c b =
    (includes b.uri (uris c.bids) ≡ true) × (is_free c b ≡ true) × (c.opts.first_free ≡ true)

-- `onEarlyWinner` threw for the bid.
abbrev pub IsThrownFor : Collector → CollectedBid → Type 0
IsThrownFor c b = IsCandidate c b × (c.opts.winner_throws b ≡ true)

abbrev pub WinnerIs : Collector → Option CollectedBid → Type 0
WinnerIs c none =
    (c.settled ≡ false) ⊎ ((c.settled ≡ true) × ((b : CollectedBid) × IsThrownFor c b))
WinnerIs c (some b) = (c.settled ≡ true) × IsCandidate c b × (c.opts.winner_throws b ≡ false)

pub record IsValid (c : Collector) : Type 0 where
  pub seen_all : c.seen ≡ uris c.bids
  pub distinct : Distinct (uris c.bids)
  pub candidates : All (IsCandidate c) c.checking
  pub winner : WinnerIs c c.early_winner

-- A candidate stays one when more bids arrive.
includes-uris :
    (b : CollectedBid) (u : String) (bids : List CollectedBid)
    → includes u (uris bids) ≡ true
    → includes u (uris (bids ++ b ∷ [])) ≡ true
unfolding includes
includes-uris b u [] h = ground arith
includes-uris b u (x ∷ xs) h = ground (arith, includes-uris b u xs)

includes-uris_self :
    (b : CollectedBid) (bids : List CollectedBid) → includes b.uri (uris (bids ++ b ∷ [])) ≡ true
unfolding includes
includes-uris_self b [] = ground (arith, eq_iff b.uri b.uri)
includes-uris_self b (x ∷ xs) = ground (arith, includes-uris_self b xs)

uris-append :
    (b : CollectedBid) (bids : List CollectedBid) → uris (bids ++ b ∷ []) ≡ uris bids ++ b.uri ∷ []
uris-append b [] = refl
uris-append b (x ∷ xs) = rw (uris-append b xs)

-- The invariant after a bid is kept.
module _ (c : Collector) (bid : CollectedBid) (v : IsValid c)
    (fresh : includes bid.uri c.seen ≡ false) where
  abbrev kept : Collector
  kept = record c { seen = c.seen ++ bid.uri ∷ []; bids = c.bids ++ bid ∷ [] }

  IsCandidate-kept : (b : CollectedBid) → IsCandidate c b → IsCandidate kept b
  unfolding is_free
  IsCandidate-kept b (h, f, g) = (includes-uris bid b.uri c.bids h, f, g)

  candidates-kept : (bs : List CollectedBid) → All (IsCandidate c) bs → All (IsCandidate kept) bs
  candidates-kept [] h = tt
  candidates-kept (b ∷ bs) (h, hs) = (IsCandidate-kept b h, candidates-kept bs hs)

  winner-kept : (w : Option CollectedBid) → WinnerIs c w → WinnerIs kept w
  winner-kept none (inl h) = inl h
  winner-kept none (inr (s, (b, (k, t)))) = inr (s, (b, (IsCandidate-kept b k, t)))
  winner-kept (some b) (s, k, t) = (s, IsCandidate-kept b k, t)

  IsValid-kept : IsValid kept
  IsValid-kept = record {
    seen_all = rw (uris-append bid c.bids, v.seen_all);
    distinct =
        rw (uris-append bid c.bids)
          (append-Distinct bid.uri (uris c.bids) v.distinct (rw (← v.seen_all) fresh));
    candidates = candidates-kept c.checking v.candidates;
    winner = winner-kept c.early_winner v.winner;
  }

  -- The check of a free bid starts only while nothing has won.
  IsValid-checking :
      c.opts.first_free ≡ true
      → is_free c bid ≡ true
      → IsValid (record kept { checking = c.checking ++ bid ∷ [] })
  unfolding is_free
  IsValid-checking first free = record {
    seen_all = IsValid-kept.seen_all;
    distinct = IsValid-kept.distinct;
    candidates =
        All-append (IsCandidate kept) c.checking (bid ∷ []) IsValid-kept.candidates
          ((includes-uris_self bid c.bids, free, first), tt);
    winner = IsValid-kept.winner;
  }

add-IsValid : (c : Collector) (bid : CollectedBid) → IsValid c → IsValid (add c bid)
unfolding add
add-IsValid c bid v = elim (Bool-cases (includes bid.uri c.seen)) [
  | inl there ↦ rw there v
  | inr fresh ↦ elim (Bool-cases (not c.opts.first_free || c.settled || not (is_free c bid))) [
    | inl off ↦ rw (fresh, off) (IsValid-kept c bid v fresh)
    | inr on ↦
        rw (fresh, on) (IsValid-checking c bid v fresh (ground (arith, on)) (ground (arith, on)))
  ]
]

-- The members whose checks go on, and the winner, under another list of checks.
module _ (c : Collector) (others : List CollectedBid) (w : Option CollectedBid) (s : Bool) where
  abbrev after : Collector
  after = record c { checking = others; settled = s; early_winner = w }

  candidates-after : (bs : List CollectedBid) → All (IsCandidate c) bs → All (IsCandidate after) bs
  unfolding is_free
  candidates-after [] h = tt
  candidates-after (b ∷ bs) (h, hs) = (h, candidates-after bs hs)

  IsValid-after : IsValid c → All (IsCandidate c) others → WinnerIs after w → IsValid after
  IsValid-after v h k = record {
    seen_all = v.seen_all;
    distinct = v.distinct;
    candidates = candidates-after others h;
    winner = k;
  }

WinnerIs-after :
    (c : Collector) (others : List CollectedBid) (w : Option CollectedBid)
    → WinnerIs c w
    → WinnerIs (after c others w c.settled) w
unfolding is_free
WinnerIs-after c others none h = h
WinnerIs-after c others (some b) h = h

wins-after :
    (c : Collector) (others : List CollectedBid) (b : CollectedBid)
    → IsCandidate c b
    → c.opts.winner_throws b ≡ false
    → WinnerIs (after c others (some b) true) (some b)
unfolding is_free
wins-after c others b h t = (refl, h, t)

-- A collector that is not settled has no early winner.
none_yet : (c : Collector) (w : Option CollectedBid) → c.settled ≡ false → WinnerIs c w → w ≡ none
none_yet c none off h = refl
none_yet c (some b) off h = absurd (ground (arith, off, h.0))

throws-after :
    (c : Collector) (others : List CollectedBid) (b : CollectedBid) (w : Option CollectedBid)
    → w ≡ none
    → IsCandidate c b
    → c.opts.winner_throws b ≡ true
    → WinnerIs (after c others w true) w
unfolding is_free
throws-after c others b none is h t = inr (refl, (b, (h, t)))
throws-after c others b (some w) is h t = absurd (ground (arith, is))

settle_picked-IsValid :
    (c : Collector) (ok : Bool) (o : Option (CollectedBid × List CollectedBid))
    → IsValid c
    → IsPicked (IsCandidate c) o
    → IsValid (settle_picked c ok o)
unfolding settle_picked
settle_picked-IsValid c ok none v h = v
settle_picked-IsValid c ok (some (bid, others)) v (h, hs) =
    elim (Bool-cases (not ok || c.settled)) [
      | inl off ↦ rw off (
          IsValid-after c others c.early_winner c.settled v hs
            (WinnerIs-after c others c.early_winner v.winner))
      | inr on ↦ elim (Bool-cases (c.opts.winner_throws bid)) [
        | inl throws ↦
            let off : c.settled ≡ false = ground (arith, on) in
            rw (on, throws)
              (IsValid-after c others c.early_winner true v hs (
                throws-after c others bid c.early_winner (none_yet c c.early_winner off v.winner) h
                  throws))
        | inr quiet ↦
            rw (on, quiet)
              (IsValid-after c others (some bid) true v hs (wins-after c others bid h quiet))
      ]
    ]

step-IsValid : (c : Collector) (e : Event) → IsValid c → IsValid (step c e)
unfolding step settle
step-IsValid c (arrived bid) v = add-IsValid c bid v
step-IsValid c (checked i ok) v =
    settle_picked-IsValid c ok (pick i c.checking) v
      (pick-IsPicked (IsCandidate c) i c.checking v.candidates)

run_from-IsValid : (c : Collector) (es : List Event) → IsValid c → IsValid (run c es)
unfolding run
run_from-IsValid c [] v = v
run_from-IsValid c (e ∷ es) v = run_from-IsValid (step c e) es (step-IsValid c e v)

-- From an empty collector, whatever the order in which bids arrive and policy checks end: no uri is
-- kept twice, the seen uris are those of the kept bids, every bid under check, and the early winner
-- where there is one, is a kept free bid of a collector that looks for the first free bid. With an
-- early winner the collector is settled; it is settled without one only where `onEarlyWinner` throws
-- for such a bid.
pub run-IsValid : (opts : Options) (es : List Event) → IsValid (run (new_collector opts) es)
unfolding new_collector
run-IsValid opts es =
    run_from-IsValid (new_collector opts) es
      (record { seen_all = refl; distinct = tt; candidates = tt; winner = inl refl })

step_settled :
    (c : Collector) (e : Event)
    → c.settled ≡ true
    → ((step c e).settled ≡ true) × ((step c e).early_winner ≡ c.early_winner)
unfolding step settle settle_picked add
step_settled c (arrived bid) h = elim (Bool-cases (includes bid.uri c.seen)) [
  | inl a ↦ ground (arith, a)
  | inr b ↦ ground (arith, b)
]
step_settled c (checked i ok) h = elim (Option-cases (pick i c.checking)) [
  | inl missing ↦ rw missing ground arith
  | inr (x, there) ↦ rw there ground arith
]

-- A collector that is settled keeps its early winner, whatever happens later.
pub run_settled :
    (c : Collector) (es : List Event) → c.settled ≡ true → (run c es).early_winner ≡ c.early_winner
unfolding run
run_settled c [] h = refl
run_settled c (e ∷ es) h = run_settled (step c e) es (step_settled c e h).0 ∙ (step_settled c e h).1
