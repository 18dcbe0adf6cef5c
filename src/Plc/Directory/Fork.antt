-- ===== src/Plc/Directory/Fork.antt =====
-- An operation that forks the current chain of a did: the chain up to its predecessor stays, with
-- the operation behind it.
use atproto_market.Common.{
  String, ℕ, suc, true, false, not, ◌≡◌, refl, sym, ap, ◌∙◌, arith, some, List, [], ◌∷◌, ◌++◌,
  if◌then◌else◌, eqb, length, drop, map, keep, keep-append, length-append, includes, Bool-cases,
  Option-cases, inl, inr, ◌==◌, eq_iff, eq_refl, or_else,
}
use atproto_market.Common.Distinct.{Distinct}
use atproto_market.Common.Dict.{get, get-set}
use atproto_market.Common.Json.{Json, str, member}
use atproto_market.Plc.Operation.{Platform, LogEntry, is_type, is_prev}
use atproto_market.Plc.Store.{
  Store, is_current, get_current_ops, insert_op, nullify, nullify_log, nullify_ops,
}
use atproto_market.Plc.Directory.{
  has_prev, find_index, behind_index, to_nullify, commit, commit_encoded, new_entry,
}

-- The cids of the entries.
abbrev pub cids_of : List LogEntry → List String
cids_of es = map (λ e. e.cid) es

keep-nullify :
    (cids : List String) (es : List LogEntry)
    → keep is_current (nullify cids es) ≡ keep (λ e. not (includes e.cid cids)) (keep is_current es)
unfolding nullify
keep-nullify cids [] = refl
keep-nullify cids (e ∷ es) = ground (arith, keep-nullify cids es)

keep_listed :
    (cids : List String) (es : List LogEntry)
    → ((c : String) → includes c (cids_of es) ≡ true → includes c cids ≡ true)
    → keep (λ e. not (includes e.cid cids)) es ≡ []
unfolding includes
keep_listed cids [] h = refl
keep_listed cids (e ∷ es) h =
    let first = h e.cid (ground (arith, eq_refl e.cid)) in
    let rest = keep_listed cids es (λ c k. h c (ground (arith, k))) in ground (arith, first, rest)

-- What stands behind is listed.
includes_behind :
    (c : String) (before behind : List LogEntry)
    → includes c (cids_of behind) ≡ true
    → includes c (cids_of (before ++ behind)) ≡ true
unfolding includes
includes_behind c [] behind h = h
includes_behind c (e ∷ before) behind h = ground (arith, includes_behind c before behind h)

keep_before :
    (before behind : List LogEntry)
    → Distinct (cids_of (before ++ behind))
    → keep (λ e. not (includes e.cid (cids_of behind))) (before ++ behind) ≡ before
keep_before [] behind h = keep_listed (cids_of behind) behind (λ c k. k)
keep_before (e ∷ before) behind h = elim (Bool-cases (includes e.cid (cids_of behind))) [
  | inl there ↦ absurd (ground (arith, includes_behind e.cid before behind there, h.0))
  | inr out ↦ ground (arith, out, keep_before before behind h.1)
]

find_index-append :
    (op_prev : String) (before behind : List LogEntry) (e : LogEntry)
    → Distinct (cids_of (before ++ e ∷ behind))
    → e.cid ≡ op_prev
    → find_index (some (str op_prev)) (before ++ e ∷ behind) ≡ some (length before)
unfolding find_index is_prev
find_index-append c [] behind e h same = ground (arith, eq_iff e.cid c, same)
find_index-append c (b ∷ before) behind e h same =
    let listed : includes c (cids_of (before ++ e ∷ behind)) ≡ true =
      includes_behind c before (e ∷ behind)
        (unfold includes in ground (arith, eq_iff e.cid c, same)) in
    elim (Bool-cases (b.cid == c)) [
      | inl hit ↦ absurd (
          ground (
            arith,
            h.0,
            ap (λ u. includes u (cids_of (before ++ e ∷ behind))) ((eq_iff b.cid c).0 hit),
            listed,
          ))
      | inr other ↦ ground (arith, other, find_index-append c before behind e h.1 same)
    ]

drop-append :
    (before behind : List LogEntry) (e : LogEntry)
    → drop (suc (length before)) (before ++ e ∷ behind) ≡ behind
drop-append [] behind e = refl
drop-append (b ∷ before) behind e = drop-append before behind e

behind_index-append :
    (before behind : List LogEntry) (e : LogEntry)
    → behind_index (before ++ e ∷ behind) (some (length before)) ≡ cids_of behind
unfolding behind_index
behind_index-append before [] e = ground (arith, length-append before (e ∷ []))
behind_index-append before (b ∷ bs) e =
    ground (arith, length-append before (e ∷ b ∷ bs), ap cids_of (drop-append before (b ∷ bs) e))

has_entry :
    (before behind : List LogEntry) (e : LogEntry) → eqb (length (before ++ e ∷ behind)) 0 ≡ false
has_entry before behind e = ground (arith, length-append before (e ∷ behind))

keep-append_last :
    (entry : LogEntry) (es : List LogEntry)
    → is_current entry ≡ true
    → keep is_current (es ++ entry ∷ []) ≡ keep is_current es ++ entry ∷ []
keep-append_last entry es h = keep-append is_current es (entry ∷ []) ∙ (rw h refl)

module _ (before behind : List LogEntry) (e : LogEntry) (op : Json) where
  -- A fork behind `e` replaces the operations behind `e`.
  to_nullify_behind :
      Distinct (cids_of (before ++ e ∷ behind))
      → is_type op "plc_operation" ≡ true
      → member op "prev" ≡ some (str e.cid)
      → to_nullify op (before ++ e ∷ behind) ≡ cids_of behind
  unfolding to_nullify has_prev
  to_nullify_behind distinct kind named =
      rw
        (
          kind,
          named,
          find_index-append e.cid before behind e distinct refl,
          has_entry before behind e,
        )
        (behind_index-append before behind e)

append_middle :
    (before behind : List LogEntry) (e : LogEntry)
    → (before ++ e ∷ []) ++ behind ≡ before ++ e ∷ behind
append_middle [] behind e = refl
append_middle (b ∷ before) behind e = ap (λ es. b ∷ es) (append_middle before behind e)

nullify_kept :
    (es before behind : List LogEntry) (e : LogEntry)
    → keep is_current es ≡ before ++ e ∷ behind
    → Distinct (cids_of (before ++ e ∷ behind))
    → keep is_current (nullify (cids_of behind) es) ≡ before ++ e ∷ []
nullify_kept es before behind e there distinct =
    keep-nullify (cids_of behind) es
    ∙ ap (keep (λ x. not (includes x.cid (cids_of behind))))
        (there ∙ sym (append_middle before behind e))
    ∙ keep_before (before ++ e ∷ []) behind (rw (append_middle before behind e) distinct)

nullify_ops_current :
    (s : Store) (did : String) (before behind : List LogEntry) (e : LogEntry)
    → get_current_ops s did ≡ before ++ e ∷ behind
    → Distinct (cids_of (before ++ e ∷ behind))
    → get_current_ops (nullify_ops s did (cids_of behind)) did ≡ before ++ e ∷ []
unfolding get_current_ops nullify_ops nullify_log
nullify_ops_current s did before behind e there distinct = elim (Option-cases (get s did)) [
  | inl missing ↦ absurd (ground (arith, missing, there, has_entry before behind e))
  | inr (ops, found) ↦
      let cids = cids_of behind in
      let kept = nullify_kept ops before behind e (rw found at there) distinct in
      rw (found, get-set s did did (nullify cids ops), eq_refl did) kept
]

-- The store that a creation inserts into.
forked_current :
    (s : Store) (did : String) (before behind : List LogEntry) (e : LogEntry)
    → get_current_ops s did ≡ before ++ e ∷ behind
    → Distinct (cids_of (before ++ e ∷ behind))
    → get_current_ops
        (if eqb (length (cids_of behind)) 0 then s else nullify_ops s did (cids_of behind))
        did
      ≡ before ++ e ∷ []
forked_current s did before [] e there distinct = there
forked_current s did before (b ∷ bs) e there distinct =
    let more : eqb (length (cids_of (b ∷ bs))) 0 ≡ false = ground arith in
    rw more (nullify_ops_current s did before (b ∷ bs) e there distinct)

pub insert_op_current :
    (s : Store) (entry : LogEntry)
    → is_current entry ≡ true
    → get_current_ops (insert_op s entry) entry.did ≡ get_current_ops s entry.did ++ entry ∷ []
unfolding get_current_ops insert_op
insert_op_current s entry h =
    rw
      (
        get-set s entry.did entry.did (or_else (get s entry.did) [] ++ entry ∷ []),
        eq_refl entry.did,
      )
      (keep-append_last entry (or_else (get s entry.did) []) h)

module _ (pf : Platform) (s : Store) (did now : String) (op : Json) (before behind : List LogEntry)
    (e : LogEntry) (bytes : List ℕ) where
  -- A plc_operation that names an operation of the current chain as its predecessor leaves the chain
  -- up to that predecessor, with the new operation behind it: what stood behind the predecessor is
  -- nullified. The cids of the current chain are distinct, the operation can be encoded, and nothing
  -- was written to the log of the did between the check's reading of the current chain and the commit.
  pub commit_fork :
      get_current_ops s did ≡ before ++ e ∷ behind
      → Distinct (cids_of (before ++ e ∷ behind))
      → is_type op "plc_operation" ≡ true
      → member op "prev" ≡ some (str e.cid)
      → pf.cbor_encode op ≡ some bytes
      → get_current_ops
          (commit pf s did (record { operation = op; current_ops = get_current_ops s did }) now).0
          did
        ≡ before ++ e ∷ new_entry pf did op bytes now ∷ []
  unfolding commit commit_encoded
  commit_fork there distinct kind named encoded =
      let entry = new_entry pf did op bytes now in
      let cids : to_nullify op (get_current_ops s did) ≡ cids_of behind =
        ap (to_nullify op) there ∙ to_nullify_behind before behind e op distinct kind named in
      let forked : Store =
        if eqb (length (cids_of behind)) 0 then s else nullify_ops s did (cids_of behind) in
      rw (encoded, cids)
        (insert_op_current forked entry refl
          ∙ ap (λ es. es ++ entry ∷ []) (forked_current s did before behind e there distinct)
          ∙ append_middle before (entry ∷ []) e)
