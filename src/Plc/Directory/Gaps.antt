-- ===== src/Plc/Directory/Gaps.antt =====
-- Two creations, each with the other between its check and its commit.
use atproto_market.Common.{
  String, ℕ, ◌≡◌, refl, ap, ◌∙◌, arith, Option, none, some, List, [], ◌∷◌, ◌++◌, inr,
}
use atproto_market.Common.Attempt.{returned}
use atproto_market.Common.Dict.{get}
use atproto_market.Common.Json.{Json, null, member}
use atproto_market.Plc.Operation.{
  Platform, Verifier, validate_operation_structure, validate_prev_chain,
}
use atproto_market.Plc.Store.{Store, get_audit_log, get_current_ops, insert_op}
use atproto_market.Plc.Directory.{
  Pending, has_prev, to_nullify, check_verifier, check_chain, check_body, outcome_of, check, commit,
  commit_encoded, new_entry,
}
use atproto_market.Plc.Directory.Fork.{insert_op_current}

module _ (pf : Platform) (s : Store) (did : String) (op : Json) (verifier : Option Verifier) where
  abbrev pub goes_on : Pending
  goes_on = record { operation = op; current_ops = get_current_ops s did }

-- An operation without a predecessor passes on an empty log.
genesis_goes_on :
    (pf : Platform) (s : Store) (did : String) (o : Json) (verifier : Option Verifier)
    → get s did ≡ none
    → validate_operation_structure pf.show o ≡ none
    → member o "prev" ≡ some null
    → check pf s did (some o) verifier ≡ returned (inr (goes_on pf s did o verifier))
unfolding check check_body check_chain check_verifier has_prev outcome_of validate_prev_chain
    get_audit_log
genesis_goes_on pf s did o none fresh shaped named = rw (shaped, named, fresh) (ground arith)
genesis_goes_on pf s did o (some verify) fresh shaped named =
    rw (shaped, named, fresh) (ground arith)

commit_genesis :
    (pf : Platform) (s : Store) (did now : String) (p : Pending) (bytes : List ℕ)
    → member p.operation "prev" ≡ some null
    → pf.cbor_encode p.operation ≡ some bytes
    → (commit pf s did p now).0 ≡ insert_op s (new_entry pf did p.operation bytes now)
unfolding commit commit_encoded to_nullify has_prev
commit_genesis pf s did now p bytes named encoded = rw (encoded, named) (ground arith)

module _ (pf : Platform) (s : Store) (did now later : String) (op op' : Json)
    (verifier : Option Verifier) (bytes bytes' : List ℕ) where
  -- Two operations without a predecessor that are both checked before either is written are both
  -- written: the log of a new did then has two current genesis operations.
  pub genesis_twice :
      get s did ≡ none
      → validate_operation_structure pf.show op ≡ none
      → validate_operation_structure pf.show op' ≡ none
      → member op "prev" ≡ some null
      → member op' "prev" ≡ some null
      → pf.cbor_encode op ≡ some bytes
      → pf.cbor_encode op' ≡ some bytes'
      → (check pf s did (some op) verifier ≡ returned (inr (goes_on pf s did op verifier)))
        × (check pf s did (some op') verifier ≡ returned (inr (goes_on pf s did op' verifier)))
        × (get_current_ops
              (commit pf
                (commit pf s did (goes_on pf s did op verifier) now).0
                did
                (goes_on pf s did op' verifier)
                later).0
              did
            ≡ new_entry pf did op bytes now ∷ new_entry pf did op' bytes' later ∷ [])
  genesis_twice fresh shaped shaped' named named' encoded encoded' =
      let first = commit_genesis pf s did now (goes_on pf s did op verifier) bytes named encoded in
      let s1 = (commit pf s did (goes_on pf s did op verifier) now).0 in
      let second =
        commit_genesis pf s1 did later (goes_on pf s did op' verifier) bytes' named' encoded' in
      let entry = new_entry pf did op bytes now in
      let entry' = new_entry pf did op' bytes' later in
      let empty : get_current_ops s did ≡ [] = unfold get_current_ops in rw fresh refl in
      let one : get_current_ops s1 did ≡ entry ∷ [] =
        ap (λ (t : Store). get_current_ops t did) first
        ∙ insert_op_current s entry refl
        ∙ ap (λ es. es ++ entry ∷ []) empty in
      (
        genesis_goes_on pf s did op verifier fresh shaped named,
        genesis_goes_on pf s did op' verifier fresh shaped' named',
        ap (λ (t : Store). get_current_ops t did) second
            ∙ insert_op_current s1 entry' refl
            ∙ ap (λ es. es ++ entry' ∷ []) one,
      )
