-- ===== src/Vm/HostKeys/Published.antt =====
-- Keys are published at most once for a receipt.
use atproto_market.Common.{
  String, Bool, true, false, ◌≡◌, refl, ap, arith, Option, none, some, List, [], ◌∷◌, ◌==◌, eq_iff,
  eq_refl, All, pick, Bool-cases, inl, inr, includes, is_some, any_of, map,
}
use atproto_market.Common.Checked.{Checked, accepted, refused}
use atproto_market.Common.Distinct.{Distinct}
use atproto_market.Common.Pick.{IsPicked, pick-IsPicked, IsApart, pick-IsApart}
use atproto_market.Common.Dict.{Dict, get, set, delete, has, get-set, get-delete}
use atproto_market.Common.Json.{Number}
use atproto_market.Records.{RecordRef}
use atproto_market.Receipts.{ActiveContract}
use atproto_market.ComputeRequest.State.{HostKey}
use atproto_market.Market.HostKeys.{KeyPlatform, check_host_keys, same_host_keys}
use atproto_market.Vm.State.{Bidder, filled}
use atproto_market.Vm.HostKeys.{
  Report, KeysJob, Reported, answered, publishing, contract_of_guest, note_keys, report_for,
  report_found, report_checked, begin_report, end_report, KeysWorld, KeysEvent, arrives, ends,
  take_up, put_down, keys_step, keys_run, receipt_ref,
}

abbrev pub receipt_of : KeysJob → String
receipt_of job = job.receipt.uri

-- A publication that begins notes the keys of a receipt for which none were noted.
abbrev IsNoted : Bidder → Bidder × Reported → Type 0
IsNoted b (b', publishing job) =
    (has b.reported (receipt_of job) ≡ false)
    × (b' ≡ record b { reported = set b.reported (receipt_of job) job.keys })
IsNoted b (b', answered reply) = b' ≡ b

note_keys-IsNoted :
    (b : Bidder) (job : KeysJob) (o : Option (List HostKey))
    → get b.reported (receipt_of job) ≡ o
    → IsNoted b (note_keys b job o)
unfolding note_keys
note_keys-IsNoted b job none there = (ap is_some there, refl)
note_keys-IsNoted b job (some earlier) there = elim (Bool-cases (same_host_keys earlier job.keys)) [
  | inl same ↦ rw same refl
  | inr other ↦ rw other refl
]

report_for-IsNoted :
    (b : Bidder) (r : Report) (keys : List HostKey) (key : String) (c : ActiveContract)
    (o : Option RecordRef)
    → IsNoted b (report_for b r keys key c o)
unfolding report_for
report_for-IsNoted b r keys key c none = refl
report_for-IsNoted b r keys key c (some receipt) =
    note_keys-IsNoted b _ (get b.reported receipt.uri) refl

report_found-IsNoted :
    (b : Bidder) (r : Report) (keys : List HostKey) (o : Option (String × ActiveContract))
    → IsNoted b (report_found b r keys o)
unfolding report_found
report_found-IsNoted b r keys none = refl
report_found-IsNoted b r keys (some (key, c)) =
    report_for-IsNoted b r keys key c (receipt_ref (filled c.receipt_uri) (filled c.receipt_cid))

report_checked-IsNoted :
    (show : Number → String) (b : Bidder) (r : Report) (m : Checked (List HostKey))
    → IsNoted b (report_checked show b r m)
unfolding report_checked
report_checked-IsNoted show b r (refused reason) = refl
report_checked-IsNoted show b r (accepted keys) =
    elim (Bool-cases (any_of (λ k. k.type == "ssh-ed25519") keys)) [
      | inl there ↦ rw there (report_found-IsNoted b r keys (contract_of_guest show b.active r.id))
      | inr missing ↦ rw missing refl
    ]

-- A receipt whose keys are noted and were not published.
abbrev pub IsPending : Bidder → List String → KeysJob → Type 0
IsPending b published job =
    (has b.reported (receipt_of job) ≡ true) × (includes (receipt_of job) published ≡ false)

abbrev pub IsKept : Bidder → String → Type 0
IsKept b u = has b.reported u ≡ true

-- Every receipt whose keys were or are being published has its keys noted, and none stands twice.
pub record AreApart (w : KeysWorld) : Type 0 where
  pub pending : All (IsPending w.bidder w.published) w.jobs
  pub jobs : Distinct (map receipt_of w.jobs)
  pub kept : All (IsKept w.bidder) w.published
  pub published : Distinct w.published

has-set :
    (m : Dict (List HostKey)) (k u : String) (v : List HostKey)
    → has m u ≡ true
    → has (set m k v) u ≡ true
has-set m k u v h = ground (arith, h, get-set m k u v)

has-delete :
    (m : Dict (List HostKey)) (k u : String)
    → has m u ≡ true
    → (k == u) ≡ false
    → has (delete m k) u ≡ true
has-delete m k u h other = ground (arith, h, other, get-delete m k u)

begun-IsPending :
    (b : Bidder) (job : KeysJob) (published : List String) (jobs : List KeysJob)
    → All (IsPending b published) jobs
    → All
        (IsPending (record b { reported = set b.reported (receipt_of job) job.keys }) published)
        jobs
begun-IsPending b job published [] h = tt
begun-IsPending b job published (j ∷ js) ((noted, out), rest) = (
  (has-set b.reported (receipt_of job) (receipt_of j) job.keys noted, out),
  begun-IsPending b job published js rest,
)

begun-IsKept :
    (b : Bidder) (job : KeysJob) (us : List String)
    → All (IsKept b) us
    → All (IsKept (record b { reported = set b.reported (receipt_of job) job.keys })) us
begun-IsKept b job [] h = tt
begun-IsKept b job (u ∷ us) (k, ks) =
    (has-set b.reported (receipt_of job) u job.keys k, begun-IsKept b job us ks)

-- What is not noted is neither pending nor kept.
unnoted_jobs :
    (b : Bidder) (published : List String) (u : String) (jobs : List KeysJob)
    → has b.reported u ≡ false
    → All (IsPending b published) jobs
    → includes u (map receipt_of jobs) ≡ false
unfolding includes
unnoted_jobs b published u [] new h = refl
unnoted_jobs b published u (j ∷ js) new ((noted, out), rest) =
    elim (Bool-cases (receipt_of j == u)) [
      | inl same ↦ absurd (ground (arith, new, rw ((eq_iff (receipt_of j) u).0 same) at noted))
      | inr other ↦ rw other (unnoted_jobs b published u js new rest)
    ]

unnoted_kept :
    (b : Bidder) (u : String) (us : List String)
    → has b.reported u ≡ false
    → All (IsKept b) us
    → includes u us ≡ false
unfolding includes
unnoted_kept b u [] new h = refl
unnoted_kept b u (w ∷ us) new (k, ks) = elim (Bool-cases (w == u)) [
  | inl same ↦ absurd (ground (arith, new, rw ((eq_iff w u).0 same) at k))
  | inr other ↦ rw other (unnoted_kept b u us new ks)
]

take_up-AreApart :
    (w : KeysWorld) (r : Bidder × Reported)
    → IsNoted w.bidder r
    → AreApart w
    → AreApart (take_up w r)
unfolding take_up
take_up-AreApart w (b, answered reply) same h =
    rw same (record { pending = h.pending; jobs = h.jobs; kept = h.kept; published = h.published })
take_up-AreApart w (b, publishing job) (new, is) h = rw is (record {
  pending = (
    (
      ground (
        arith,
        get-set w.bidder.reported (receipt_of job) (receipt_of job) job.keys,
        eq_refl (receipt_of job),
      ),
      unnoted_kept w.bidder (receipt_of job) w.published new h.kept,
    ),
    begun-IsPending w.bidder job w.published w.jobs h.pending,
  );
  jobs = (unnoted_jobs w.bidder w.published (receipt_of job) w.jobs new h.pending, h.jobs);
  kept = begun-IsKept w.bidder job w.published h.kept;
  published = h.published;
})

-- The others are still pending when one was published, or was forgotten.
others-IsPending :
    (b : Bidder) (published : List String) (u : String) (jobs : List KeysJob)
    → includes u (map receipt_of jobs) ≡ false
    → All (IsPending b published) jobs
    → All (IsPending b (u ∷ published)) jobs
      × All (IsPending (record b { reported = delete b.reported u }) published) jobs
unfolding includes
others-IsPending b published u [] apart h = (tt, tt)
others-IsPending b published u (j ∷ js) apart ((noted, out), rest) =
    let other : (receipt_of j == u) ≡ false = ground (arith, apart) in
    let flipped : (u == receipt_of j) ≡ false =
      ground (arith, other, eq_iff u (receipt_of j), eq_iff (receipt_of j) u) in
    let (more, less) = others-IsPending b published u js (ground (arith, apart)) rest in
    (
      ((noted, ground (arith, flipped, out)), more),
      ((has-delete b.reported u (receipt_of j) noted flipped, out), less),
    )

forgotten-IsKept :
    (b : Bidder) (u : String) (us : List String)
    → includes u us ≡ false
    → All (IsKept b) us
    → All (IsKept (record b { reported = delete b.reported u })) us
unfolding includes
forgotten-IsKept b u [] out h = tt
forgotten-IsKept b u (w ∷ us) out (k, ks) =
    let other : (u == w) ≡ false = ground (arith, out, eq_iff u w, eq_iff w u) in
    (has-delete b.reported u w k other, forgotten-IsKept b u us (ground (arith, out)) ks)

put_down-AreApart :
    (w : KeysWorld) (ok : Bool) (o : Option (KeysJob × List KeysJob))
    → IsPicked (IsPending w.bidder w.published) o
    → IsApart receipt_of o
    → AreApart w
    → AreApart (put_down w ok o)
unfolding put_down end_report
put_down-AreApart w ok none p a h = h
put_down-AreApart w true (some (job, others)) ((noted, out), rest) (apart, jobs) h = record {
  pending = (others-IsPending w.bidder w.published (receipt_of job) others apart rest).0;
  jobs = jobs;
  kept = (noted, h.kept);
  published = (out, h.published);
}
put_down-AreApart w false (some (job, others)) ((noted, out), rest) (apart, jobs) h = record {
  pending = (others-IsPending w.bidder w.published (receipt_of job) others apart rest).1;
  jobs = jobs;
  kept = forgotten-IsKept w.bidder (receipt_of job) w.published out h.kept;
  published = h.published;
}

module _ (p : KeyPlatform) (show : Number → String) where
  keys_step-AreApart :
      (w : KeysWorld) (e : KeysEvent) → AreApart w → AreApart (keys_step p show w e)
  unfolding keys_step begin_report
  keys_step-AreApart w (arrives r) h =
      take_up-AreApart w (begin_report p show w.bidder r)
        (report_checked-IsNoted show w.bidder r (check_host_keys p r.keys)) h
  keys_step-AreApart w (ends i ok) h =
      put_down-AreApart w ok (pick i w.jobs)
        (pick-IsPicked (IsPending w.bidder w.published) i w.jobs h.pending)
        (pick-IsApart receipt_of i w.jobs h.jobs) h

  -- However reports of host keys and the ends of their publications interleave: the keys of no receipt
  -- are being published twice at a time, none are published again once a publication has been
  -- successful, and those that were have their keys noted. At first this holds, for example of a
  -- bidder without publications.
  pub keys_run-AreApart :
      (w : KeysWorld) (es : List KeysEvent) → AreApart w → AreApart (keys_run p show w es)
  unfolding keys_run
  keys_run-AreApart w [] h = h
  keys_run-AreApart w (e ∷ es) h =
      keys_run-AreApart (keys_step p show w e) es (keys_step-AreApart w e h)
