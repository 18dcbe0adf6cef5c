-- ===== src/Plc/Directory.antt =====
-- The handlers of the directory (lib/hono-factory-did-plc-directory/handlers.ts). The creation of an
-- operation awaits between reading the log and writing it: `check` is what comes before the
-- computation of the cid and `commit` what comes behind it.
pub mod Authority
pub mod Effect
pub mod Fork
pub mod Gaps
use atproto_market.Common.{
  String, ℕ, suc, ◌+◌, Bool, true, false, not, ◌&&◌, ◌||◌, Option, none, some, List, [], ◌∷◌, ◌++◌,
  ◌==◌, ◌⧺◌, map, if◌then◌else◌, eqb, ltb, length, drop, last?, is_some, ◌⊎◌, inl, inr,
}
use atproto_market.Common.Attempt.{Attempt, returned, thrown, ◌>>=◌}
use atproto_market.Common.Json.{Json, null, array, items, member}
use atproto_market.Plc.Operation.{
  Platform, Verifier, LogEntry, is_type, is_prev, validate_operation_structure, validate_prev_chain,
  verify_operation_signature, compute_operation_cid,
}
use atproto_market.Plc.Store.{Store, get_audit_log, get_current_ops, insert_op, nullify_ops}

pub data Body : Type 0 where
  message : String → Body
  operations : List Json → Body
  entries : List LogEntry → Body
  created : LogEntry → Body

pub record Response : Type 0 where
  pub status : ℕ
  pub body : Body

abbrev pub error_reply : ℕ → String → Response
error_reply status text = record { status = status; body = message text }

abbrev pub ok_reply : Body → Response
ok_reply body = record { status = 200; body = body }

unfoldable pub handle_get_log : Store → String → Response
handle_get_log s did =
    let ops = get_current_ops s did in
    if eqb (length ops) 0
    then error_reply 404 ("DID not registered: " ⧺ did)
    else ok_reply (operations (map (λ e. e.operation) ops))

unfoldable pub handle_get_audit_log : Store → String → Response
handle_get_audit_log s did =
    let ops = get_audit_log s did in
    if eqb (length ops) 0
    then error_reply 404 ("DID not registered: " ⧺ did)
    else ok_reply (entries ops)

-- `prevOp.rotationKeys`, over which a value that is no array is not iterated.
unfoldable pub rotation_keys : Json → Attempt (List Json)
rotation_keys op = elim (member op "rotationKeys") [
  | some (array vs) ↦ returned (items vs)
  | _ ↦ thrown "rotationKeys is not iterable"
]

-- `op.prev !== null`
unfoldable pub has_prev : Option Json → Bool
has_prev (some null) = false
has_prev _ = true

-- The index of the entry that `prev` names.
unfoldable pub find_index : Option Json → List LogEntry → Option ℕ
find_index prev [] = none
find_index prev (e ∷ es) =
    let later = find_index prev es in
    if is_prev prev e then some 0 else elim later [ none ↦ none | some i ↦ some (suc i) ]

unfoldable pub behind_index : List LogEntry → Option ℕ → List String
behind_index current none = []
behind_index current (some i) =
    if ltb (i + 1) (length current) then map (λ e. e.cid) (drop (suc i) current) else []

-- The cids of the current operations that a fork behind `prev` replaces.
unfoldable pub to_nullify : Json → List LogEntry → List String
unfolding has_prev find_index behind_index
to_nullify op current =
    if is_type op "plc_operation" && has_prev (member op "prev") && not (eqb (length current) 0)
    then behind_index current (find_index (member op "prev") current)
    else []

-- What a creation carries over its awaits.
pub record Pending : Type 0 where
  pub operation : Json
  pub current_ops : List LogEntry

module _ (pf : Platform) where
  -- The first key that verifies ends the loop.
  unfoldable pub any_key : Json → List Json → Verifier → Attempt Bool
  any_key op [] verify = returned false
  any_key op (k ∷ ks) verify =
      let rest = any_key op ks verify in
      (verify_operation_signature pf op k verify) >>= λ ok. if ok then returned true else rest

  unfoldable pub check_keys : Json → Json → Verifier → Attempt (Option Response)
  check_keys op prev_op verify = do
    keys ← rotation_keys prev_op
    ok ← any_key op keys verify
    returned (if ok then none else some (error_reply 400 "Invalid Signature"))

  -- The check against the last current operation, with what it finds wrong.
  unfoldable pub check_signature : Json → Option LogEntry → Verifier → Attempt (Option Response)
  unfolding check_keys
  check_signature op none verify = returned none
  check_signature op (some last) verify =
      if is_type last.operation "plc_operation"
      then check_keys op last.operation verify
      else returned none

  unfoldable pub check_verifier : Json → List LogEntry → Option Verifier → Attempt (Option Response)
  unfolding check_signature has_prev
  check_verifier op current none = returned none
  check_verifier op current (some verify) =
      if has_prev (member op "prev")
      then check_signature op (last? current) verify
      else returned none

  -- The guards behind the structure check.
  unfoldable pub check_chain :
      Json → List LogEntry → List LogEntry → Option Verifier → Attempt (Option Response)
  unfolding check_verifier
  check_chain op existing current verifier =
      if is_type op "plc_operation" || is_type op "plc_tombstone"
      then elim (validate_prev_chain pf.show (member op "prev") existing) [
        | some wrong ↦ returned (some (error_reply 400 wrong))
        | none ↦ check_verifier op current verifier
      ]
      else returned none

  unfoldable pub outcome_of : Json → List LogEntry → Option Response → Response ⊎ Pending
  outcome_of op current (some reply) = inl reply
  outcome_of op current none = inr (record { operation = op; current_ops = current })

  -- What the structure check has found.
  unfoldable pub check_body :
      Store → String → Json → Option Verifier → Option String → Attempt (Response ⊎ Pending)
  unfolding outcome_of check_chain
  check_body s did body verifier (some wrong) = returned (inl (error_reply 400 wrong))
  check_body s did body verifier none =
      let current = get_current_ops s did in
      (check_chain body (get_audit_log s did) current verifier) >>= λ refusal.
      returned (outcome_of body current refusal)

  -- A body that is no JSON is `none`. The reply that refuses, or what goes on.
  unfoldable pub check :
      Store → String → Option Json → Option Verifier → Attempt (Response ⊎ Pending)
  unfolding check_body
  check s did none verifier = returned (inl (error_reply 400 "Invalid JSON body"))
  check s did (some body) verifier =
      check_body s did body verifier (validate_operation_structure pf.show body)

  abbrev pub new_entry : String → Json → List ℕ → String → LogEntry
  new_entry did op bytes now = record {
    did = did;
    operation = op;
    cid = compute_operation_cid pf bytes;
    nullified = false;
    created_at = now;
  }

  unfoldable pub commit_encoded :
      Store → String → Pending → String → Option (List ℕ) → Store × Response
  commit_encoded s did p now none = (s, error_reply 400 "Failed to compute operation CID")
  commit_encoded s did p now (some bytes) =
      let entry = new_entry did p.operation bytes now in
      let cids = to_nullify p.operation p.current_ops in
      let forked = if eqb (length cids) 0 then s else nullify_ops s did cids in
      (insert_op forked entry, ok_reply (created entry))

  unfoldable pub commit : Store → String → Pending → String → Store × Response
  unfolding commit_encoded
  commit s did p now = commit_encoded s did p now (pf.cbor_encode p.operation)

  unfoldable pub finish : Store → String → String → Response ⊎ Pending → Store × Response
  unfolding commit
  finish s did now (inl reply) = (s, reply)
  finish s did now (inr p) = commit s did p now

  -- A creation that no other request comes between.
  unfoldable pub handle_create_op :
      Store → String → Option Json → Option Verifier → String → Attempt (Store × Response)
  unfolding finish
  handle_create_op s did body verifier now =
      (check s did body verifier) >>= λ outcome. returned (finish s did now outcome)
