-- ===== src/Plc/Directory/Authority.antt =====
-- Who may extend the log of a did.
use atproto_market.Common.{
  String, true, false, ◌||◌, ◌≡◌, refl, ap, ◌∙◌, arith, Option, none, some, List, [], ◌∷◌, eqb,
  length, last?, keep, Option-cases, inl, inr, ◌⊎◌, or_else,
}
use atproto_market.Common.Attempt.{returned, >>=-eq-returned}
use atproto_market.Common.Dict.{get}
use atproto_market.Common.Json.{Json, member}
use atproto_market.Plc.Operation.{
  Platform, Verifier, LogEntry, is_type, validate_operation_structure, validate_prev_chain,
  verify_operation_signature,
}
use atproto_market.Plc.Store.{Store, is_current, get_audit_log, get_current_ops}
use atproto_market.Plc.Directory.{
  Response, rotation_keys, Pending, has_prev, any_key, check_keys, check_signature, check_verifier,
  check_chain, check, check_body, outcome_of, finish, commit, handle_create_op,
}

abbrev pub Any {ℓ} : {A : Type ℓ} → (A → Type 0) → List A → Type 0
Any P [] = ⊥
Any P (x ∷ xs) = P x ⊎ Any P xs

module _ (pf : Platform) (op : Json) (verify : Verifier) where
  -- The key's signature of the operation verifies.
  abbrev pub Signs : Json → Type 0
  Signs k = verify_operation_signature pf op k verify ≡ returned true

  any_key_lem : (ks : List Json) → any_key pf op ks verify ≡ returned true → Any Signs ks
  unfolding any_key
  any_key_lem [] h = absurd (ground (arith, h))
  any_key_lem (k ∷ ks) h = ground (arith, any_key_lem ks)

  -- One of the rotation keys of the operation signs.
  abbrev pub IsSignedBy : Json → Type 0
  IsSignedBy prev_op = (ks : List Json) × (rotation_keys prev_op ≡ returned ks) × Any Signs ks

  check_keys-IsSignedBy :
      (prev_op : Json) → check_keys pf op prev_op verify ≡ returned none → IsSignedBy prev_op
  unfolding check_keys
  check_keys-IsSignedBy prev_op h =
      let (ks, keys, rest) = >>=-eq-returned (rotation_keys prev_op) _ h in
      let (ok, found, good) = >>=-eq-returned (any_key pf op ks verify) _ rest in
      (ks, keys, any_key_lem ks (ground (arith, found, good)))

  check_signature-IsSignedBy :
      (last : LogEntry)
      → is_type last.operation "plc_operation" ≡ true
      → check_signature pf op (some last) verify ≡ returned none
      → IsSignedBy last.operation
  unfolding check_signature
  check_signature-IsSignedBy last plc h = check_keys-IsSignedBy last.operation (rw plc at h)

-- A log with a current operation is not empty.
length-keep-some :
    (es : List LogEntry) (last : LogEntry)
    → last? (keep is_current es) ≡ some last
    → eqb (length es) 0 ≡ false
length-keep-some [] last h = cc
length-keep-some (e ∷ es) last h = ground arith

-- An operation without a predecessor is refused on such a log.
validate_prev_chain_null :
    (show : Option Json → String) (prev : Option Json) (es : List LogEntry)
    → eqb (length es) 0 ≡ false
    → validate_prev_chain show prev es ≡ none
    → has_prev prev ≡ true
unfolding validate_prev_chain has_prev
validate_prev_chain_null show none es n h = refl
validate_prev_chain_null show (some v) es n h = ground arith

module _ (pf : Platform) (op : Json) (verify : Verifier) (existing current : List LogEntry)
    (last : LogEntry) where
  check_chain-IsSignedBy :
      eqb (length existing) 0 ≡ false
      → last? current ≡ some last
      → (is_type op "plc_operation" || is_type op "plc_tombstone") ≡ true
      → is_type last.operation "plc_operation" ≡ true
      → check_chain pf op existing current (some verify) ≡ returned none
      → IsSignedBy pf op verify last.operation
  unfolding check_chain check_verifier
  check_chain-IsSignedBy full there kind plc h =
      elim (Option-cases (validate_prev_chain pf.show (member op "prev") existing)) [
        | inr (wrong, bad) ↦ absurd (ground arith)
        | inl fine ↦
            let prev = validate_prev_chain_null pf.show (member op "prev") existing full fine in
            check_signature-IsSignedBy pf op verify last plc (ground arith)
      ]

-- A refusal of the guards is a reply with the status 400.
Refuses : Option Response → Type 0
Refuses none = Unit
Refuses (some r) = r.status ≡ 400

module _ (pf : Platform) (op : Json) where
  check_keys-Refuses :
      (prev_op : Json) (verify : Verifier) (o : Option Response)
      → check_keys pf op prev_op verify ≡ returned o
      → Refuses o
  unfolding check_keys Refuses
  check_keys-Refuses prev_op verify none h = tt
  check_keys-Refuses prev_op verify (some r) h =
      let (ks, keys, rest) = >>=-eq-returned (rotation_keys prev_op) _ h in
      let (ok, found, good) = >>=-eq-returned (any_key pf op ks verify) _ rest in
      ground (arith, good)

  check_chain-Refuses :
      (existing current : List LogEntry) (verifier : Option Verifier) (o : Option Response)
      → check_chain pf op existing current verifier ≡ returned o
      → Refuses o
  unfolding check_chain check_verifier check_signature Refuses
  check_chain-Refuses existing current verifier none h = tt
  check_chain-Refuses existing current none (some r) h = ground (arith, h)
  check_chain-Refuses existing current (some verify) (some r) h =
      elim (Option-cases (last? current)) [
        | inl missing ↦ ground (arith, h, missing)
        | inr (last, there) ↦
            ground (arith, h, there, check_keys-Refuses last.operation verify (some r))
      ]

  check_body-inr :
      (s : Store) (did : String) (verifier : Option Verifier) (e : Option String) (p : Pending)
      → check_body pf s did op verifier e ≡ returned (inr p)
      → (e ≡ none)
        × (check_chain pf op (get_audit_log s did) (get_current_ops s did) verifier ≡ returned none)
        × (p.operation ≡ op)
        × (p.current_ops ≡ get_current_ops s did)
  unfolding check_body outcome_of
  check_body-inr s did verifier (some wrong) p h = absurd (ground (arith, h))
  check_body-inr s did verifier none p h =
      let (refusal, found, next) =
        >>=-eq-returned (check_chain pf op (get_audit_log s did) (get_current_ops s did) verifier) _
          h in
      elim (Option-cases refusal) [
        | inl nothing ↦ (
          refl,
          (found ∙ ap returned nothing),
          ground (arith, next, nothing),
          ground (arith, next, nothing),
        )
        | inr (r, refused) ↦ absurd (ground (arith, next, refused))
      ]

  check_body-inl :
      (s : Store) (did : String) (verifier : Option Verifier) (e : Option String) (r : Response)
      → check_body pf s did op verifier e ≡ returned (inl r)
      → r.status ≡ 400
  unfolding check_body outcome_of Refuses
  check_body-inl s did verifier (some wrong) r h = ground (arith, h)
  check_body-inl s did verifier none r h =
      let (refusal, found, next) =
        >>=-eq-returned (check_chain pf op (get_audit_log s did) (get_current_ops s did) verifier) _
          h in
      elim (Option-cases refusal) [
        | inl nothing ↦ absurd (ground (arith, next, nothing))
        | inr (q, refused) ↦
            let bad : q.status ≡ 400 =
              check_chain-Refuses (get_audit_log s did) (get_current_ops s did) verifier (some q)
                (found ∙ ap returned refused) in
            ground (arith, next, refused, bad)
      ]

module _ (pf : Platform) (op : Json) (s s' : Store) (did now : String) (r : Response) where
  -- A creation that replied with 200 had passed every check.
  passed :
      (verifier : Option Verifier)
      → handle_create_op pf s did (some op) verifier now ≡ returned (s', r)
      → r.status ≡ 200
      → (p : Pending) × (check_body pf s did op verifier (validate_operation_structure pf.show op)
          ≡ returned (inr p))
        × (commit pf s did p now ≡ (s', r))
  unfolding handle_create_op check finish
  passed verifier h good =
      let body = check_body pf s did op verifier (validate_operation_structure pf.show op) in
      let (outcome, found, next) = >>=-eq-returned body _ h in passed_outcome outcome found next
    where
      passed_outcome :
          (outcome : Response ⊎ Pending)
          → check_body pf s did op verifier (validate_operation_structure pf.show op)
            ≡ returned outcome
          → returned (finish pf s did now outcome) ≡ returned (s', r)
          → (p : Pending) × (check_body pf s did op verifier
                (validate_operation_structure pf.show op)
              ≡ returned (inr p))
            × (commit pf s did p now ≡ (s', r))
      passed_outcome (inl reply) found next =
          let bad =
            check_body-inl pf op s did verifier (validate_operation_structure pf.show op) reply
              found in
          absurd (ground (arith, next, bad, good))
      passed_outcome (inr p) found next = (p, found, cc (next))

  -- Where the directory verifies signatures and the last current operation of a did is a
  -- plc_operation, an operation or a tombstone that is accepted (status 200) was signed by one of the
  -- rotation keys of that last operation.
  pub create_op-IsSignedBy :
      (verify : Verifier) (last : LogEntry)
      → last? (get_current_ops s did) ≡ some last
      → is_type last.operation "plc_operation" ≡ true
      → (is_type op "plc_operation" || is_type op "plc_tombstone") ≡ true
      → handle_create_op pf s did (some op) (some verify) now ≡ returned (s', r)
      → r.status ≡ 200
      → IsSignedBy pf op verify last.operation
  unfolding get_audit_log get_current_ops
  create_op-IsSignedBy verify last there plc kind h good =
      let (p, found, done) = passed (some verify) h good in
      let (shaped, chained, same, current) =
        check_body-inr pf op s did (some verify) (validate_operation_structure pf.show op) p
          found in
      check_chain-IsSignedBy pf op verify (get_audit_log s did) (get_current_ops s did) last
        (length-keep-some (or_else (get s did) []) last there) there kind plc chained
