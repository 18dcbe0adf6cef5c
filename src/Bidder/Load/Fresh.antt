-- ===== src/Bidder/Load/Fresh.antt =====
-- What a start leaves the machine of deletions and ends with.
use atproto_market.Common.Sort.{sort_by}
use atproto_market.Common.{
  String, Bool, true, false, ◌≡◌, refl, sym, ap, ◌∙◌, arith, some, List, [], ◌∷◌, ◌==◌, eq_iff, All,
  Bool-cases, Option-cases, inl, inr, is_empty, includes,
}
use atproto_market.Common.Attempt.{returned, >>=-eq-returned, returned-eq}
use atproto_market.Common.Dict.{Dict, get, get-set, get-nil}
use atproto_market.Common.Json.{Json, as_text, member}
use atproto_market.Common.Distinct.{Distinct}
use atproto_market.Receipts.{
  StoredContract, ContractEvent, TerminatedReceipts, Tombstone, ActiveContract, is_known,
  active_contract_of,
}
use atproto_market.Store.Parse.{
  Platform, file_name_of, needed, optional, provider_id_of, parse_envelope, contract_of, check_name,
  parse_contract,
}
use atproto_market.Store.Files.{StoredContracts, previous_of}
use atproto_market.Store.Trust.{IsHeld}
use atproto_market.Bidder.Load.{
  Loaded, nothing_loaded, load_all_tombstones, load_tombstone, load_contract, load_all_contracts,
  load_stored,
}
use atproto_market.Vm.Machine.{World}
use atproto_market.Vm.Machine.Once.{IsOnce, AreLive, ended}

-- Each contract that is there is one that its file holds, and whose receipt is not known to be
-- terminated.
abbrev IsLoaded : Platform → Dict String → TerminatedReceipts → Dict ActiveContract → Type 0
IsLoaded p files terminated active =
    (k : String) (v : ActiveContract)
    → get active k ≡ some v
    → (c : StoredContract) × (v ≡ active_contract_of c)
      × (c.key ≡ k)
      × IsHeld p files c
      × (is_known terminated c.receipt_uri ≡ false)

needed-full : (v : Json) (k s : String) → needed v k ≡ returned s → is_empty s ≡ false
unfolding needed
needed-full v k s h = elim (Option-cases (as_text (member v k))) [
  | inl missing ↦ absurd (ground (arith, h, missing))
  | inr (t, there) ↦ elim (Bool-cases (is_empty t)) [
    | inl hollow ↦ absurd (ground (arith, h, there, hollow))
    | inr full ↦ ground (arith, h, there, full)
  ]
]

not_gone :
    (terminated : TerminatedReceipts) (gone : List String) (v u : String)
    → v ≡ u
    → is_known terminated v ≡ false
    → ((w : String) → includes w gone ≡ true → is_known terminated w ≡ true)
    → includes u gone ≡ false
not_gone terminated gone v u same unknown buried = elim (Bool-cases (includes u gone)) [
  | inl there ↦ absurd (ground (arith, rw same at unknown, buried u there))
  | inr out ↦ out
]

module _ (p : Platform) (files : Dict String) where
  contract_of-full :
      (v : Json) (c : StoredContract) → contract_of v ≡ returned c → is_empty c.receipt_uri ≡ false
  unfolding contract_of
  contract_of-full v c h =
      let (key, k, h1) = >>=-eq-returned (needed v "key") _ h in
      let (uri, u, h2) = >>=-eq-returned (needed v "receiptUri") _ h1 in
      let (cid, c1, h3) = >>=-eq-returned (needed v "receiptCid") _ h2 in
      let (author, a, h4) = >>=-eq-returned (needed v "acceptAuthor") _ h3 in
      let (at, t, h5) = >>=-eq-returned (needed v "acceptedAt") _ h4 in
      let (au, o1, h6) = >>=-eq-returned (optional v "acceptUri") _ h5 in
      let (ac, o2, h7) = >>=-eq-returned (optional v "acceptCid") _ h6 in
      let (pr, o3, h8) = >>=-eq-returned (optional v "provider") _ h7 in
      let (su, o4, h9) = >>=-eq-returned (optional v "submitEventUrl") _ h8 in
      let (id, o5, h10) = >>=-eq-returned (provider_id_of (member v "providerId")) _ h9 in
      let is : uri ≡ c.receipt_uri = ap (λ z. z.receipt_uri) (returned-eq h10) in
      rw is at (needed-full v "receiptUri" uri u)

  -- A contract that a file holds has a receipt whose uri is not empty.
  held-full : (c : StoredContract) → IsHeld p files c → is_empty c.receipt_uri ≡ false
  unfolding previous_of parse_contract check_name
  held-full c h = elim (Option-cases (get files (file_name_of p c.receipt_uri))) [
    | inl missing ↦ absurd (ground (arith, h, missing))
    | inr (raw, there) ↦
        let (d, read, last) =
          >>=-eq-returned (parse_contract p raw (file_name_of p c.receipt_uri)) _ (rw there at h) in
        let (v, e, h1) = >>=-eq-returned (parse_envelope p raw "contract") _ read in
        let (d', k, h2) = >>=-eq-returned (contract_of v) _ h1 in
        elim (Bool-cases (file_name_of p d'.receipt_uri == file_name_of p c.receipt_uri)) [
          | inr other ↦ absurd (ground (arith, h2, other))
          | inl own ↦
              let same : d' ≡ c = ground (arith, h2, own, last) in
              rw same at (contract_of-full v d' k)
        ]
  ]

  -- Two contracts that the files hold with the same receipt are one.
  held-alone :
      (c d : StoredContract)
      → IsHeld p files c
      → IsHeld p files d
      → c.receipt_uri ≡ d.receipt_uri
      → c ≡ d
  held-alone c d h k same =
      let both =
        sym h
        ∙ ap (λ u. previous_of p (file_name_of p u) (get files (file_name_of p u))) same
        ∙ k in
      cc (returned-eq both)

  load_contract-IsLoaded :
      (l : Loaded) (c : StoredContract)
      → IsHeld p files c
      → IsLoaded p files l.terminated l.active
      → IsLoaded p files (load_contract l c).terminated (load_contract l c).active
  unfolding load_contract
  load_contract-IsLoaded l c held h = elim (Bool-cases (is_known l.terminated c.receipt_uri)) [
    | inl known ↦ rw known h
    | inr unknown ↦ rw unknown (λ k v there. elim (Bool-cases (c.key == k)) [
      | inl same ↦ (
        c,
        ground (arith, there, same, get-set l.active c.key k (active_contract_of c)),
        (eq_iff c.key k).0 same,
        held,
        unknown,
      )
      | inr other ↦
          h k v (ground (arith, there, other, get-set l.active c.key k (active_contract_of c)))
    ])
  ]

  load_all_contracts-IsLoaded :
      (l : Loaded) (cs : List StoredContract)
      → All (IsHeld p files) cs
      → IsLoaded p files l.terminated l.active
      → IsLoaded p files (load_all_contracts l cs).terminated (load_all_contracts l cs).active
  unfolding load_all_contracts
  load_all_contracts-IsLoaded l [] a h = h
  load_all_contracts-IsLoaded l (c ∷ cs) a h =
      load_all_contracts-IsLoaded (load_contract l c) cs a.1 (load_contract-IsLoaded l c a.0 h)

  loaded-AreLive :
      (terminated : TerminatedReceipts) (active : Dict ActiveContract) (gone : List String)
      → Distinct gone
      → ((u : String) → includes u gone ≡ true → is_known terminated u ≡ true)
      → IsLoaded p files terminated active
      → AreLive active gone
  unfolding active_contract_of
  loaded-AreLive terminated active gone once buried h = record {
    named = λ k v there.
        let (c, is, key, held, unknown) = h k v there in
        (c.receipt_uri, ap (λ z. z.receipt_uri) is, held-full c held);
    alone = λ k k' u v v' there there' e e'.
        let (c, is, key, held, unknown) = h k v there in
        let (d, is', key', held', unknown') = h k' v' there' in
        let one : c.receipt_uri ≡ u = cc (sym (ap (λ z. z.receipt_uri) is) ∙ e) in
        let two : d.receipt_uri ≡ u = cc (sym (ap (λ z. z.receipt_uri) is') ∙ e') in
        sym key ∙ ap (λ z. z.key) (held-alone c d held held' (one ∙ sym two)) ∙ key';
    fresh = λ k u v there e.
        let (c, is, key, held, unknown) = h k v there in
        let one : c.receipt_uri ≡ u = cc (sym (ap (λ z. z.receipt_uri) is) ∙ e) in
        not_gone terminated gone c.receipt_uri u one unknown buried;
    once = once;
  }

load_all_tombstones-active :
    (l : Loaded) (ts : List Tombstone) → (load_all_tombstones l ts).active ≡ l.active
unfolding load_all_tombstones load_tombstone
load_all_tombstones-active l [] = refl
load_all_tombstones-active l (t ∷ ts) = load_all_tombstones-active (load_tombstone l t) ts

-- The world of a bidder that has started: nothing is under way. `past` are the changes of contracts
-- that were recorded before.
abbrev pub started_world : List ContractEvent → Loaded → World
started_world past l = record {
  bidder = record {
    active = l.active;
    tombstones = l.terminated;
    terminating = [];
    reported = [];
    registered = [];
    accepts = l.accepts;
    changes = past;
    tombstones_saved = [];
    terminations = [];
    destroyed = [];
  };
  flights = [];
  visits = [];
}

-- A bidder starts from contracts that are each the one in the file of its receipt, and from
-- tombstones; no end was recorded twice before, and every receipt whose end was recorded is one that
-- is remembered as terminated once the tombstones are loaded. Then the contracts that it begins with
-- have each a receipt of its own, whose end was not recorded, and nothing is under way.
pub load_stored-IsOnce :
    (p : Platform) (order : String → String → Bool) (files : Dict String) (r : StoredContracts)
    (past : List ContractEvent)
    → All (IsHeld p files) r.contracts
    → Distinct (ended past)
    → ((u : String)
        → includes u (ended past) ≡ true
        → is_known (load_stored order r).terminated u ≡ true)
    → IsOnce (started_world past (load_stored order r))
unfolding load_stored
load_stored-IsOnce p order files r past held once remembered =
    let buried =
      load_all_tombstones nothing_loaded (sort_by (λ a b. order a.at b.at) [] r.tombstones) in
    let empty : buried.active ≡ [] =
      load_all_tombstones-active nothing_loaded
        (sort_by (λ a b. order a.at b.at) [] r.tombstones) in
    let start = load_all_contracts buried r.contracts in
    record {
      live = loaded-AreLive p files start.terminated start.active (ended past) once remembered (
          load_all_contracts-IsLoaded p files buried r.contracts held
            (λ k v there. absurd (ground (arith, there, empty, get-nil {V = ActiveContract} k))));
      flying = tt;
      apart = tt;
      seen = tt;
    }
