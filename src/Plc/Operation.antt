-- ===== src/Plc/Operation.antt =====
-- Operations and their checks (lib/hono-factory-did-plc-directory/validation.ts). The handler casts
-- the request's body, so that an operation is the JSON value that was sent.
use atproto_market.Common.{
  String, ℕ, Bool, true, false, not, ◌&&◌, Option, none, some, List, [], ◌∷◌, ◌==◌, ◌⧺◌,
  if◌then◌else◌, is_some, eqb, length, codes, any_of,
}
use atproto_market.Common.Attempt.{Attempt, returned, thrown, ◌>>=◌}
use atproto_market.Common.Json.{
  Json, Fields, null, array, object, end, field, member, is_object, as_text,
}

-- The platform and the libraries that the directory calls: `String(v)` as templates write it,
-- `atob` (on code points), the CBOR encoder, SHA-256 and the base32 encoder. `none` where a call
-- throws.
pub record Platform : Type 0 where
  pub show : Option Json → String
  pub atob : List ℕ → Option (List ℕ)
  pub cbor_encode : Json → Option (List ℕ)
  pub sha256 : List ℕ → List ℕ
  pub base32 : List ℕ → String

-- `verifySig(did, data, sig)`
abbrev pub Verifier : Type 0
Verifier = Json → List ℕ → List ℕ → Attempt Bool

pub record LogEntry : Type 0 where
  pub did : String
  pub operation : Json
  pub cid : String
  pub nullified : Bool
  pub created_at : String

-- `op.type === type`
unfoldable pub is_type : Json → String → Bool
unfolding member
is_type op type = elim (as_text (member op "type")) [ none ↦ false | some t ↦ t == type ]

-- `v !== undefined && !Array.isArray(v)`, and the same for `typeof v !== "object"`, which `null` passes.
not_array : Option Json → Bool
not_array (some (array vs)) = false
not_array _ = true

not_object_type : Option Json → Bool
not_object_type (some null) = false
not_object_type (some v) = not (is_object v)
not_object_type none = true

not_text : Option Json → Bool
not_text v = not (is_some (as_text v))

is_null : Option Json → Bool
is_null (some null) = true
is_null _ = false

operation_error : Json → Option String
unfolding not_array not_object_type not_text is_null member
operation_error o =
    if not_array (member o "rotationKeys")
    then some "rotationKeys must be an array"
    else if is_some (member o "verificationMethods")
        && not_object_type (member o "verificationMethods")
    then some "verificationMethods must be an object"
    else if is_some (member o "alsoKnownAs") && not_array (member o "alsoKnownAs")
    then some "alsoKnownAs must be an array"
    else if is_some (member o "services") && not_object_type (member o "services")
    then some "services must be an object"
    else if not_text (member o "sig")
    then some "sig must be a string"
    else if not (is_null (member o "prev"))
        && is_some (member o "prev")
        && not_text (member o "prev")
    then some "prev must be null or a CID string"
    else none

tombstone_error : Json → Option String
unfolding not_text member
tombstone_error o =
    if not_text (member o "prev")
    then some "prev must be a CID string"
    else if not_text (member o "sig")
    then some "sig must be a string"
    else none

create_error : Json → Option String
unfolding not_text member
create_error o =
    if not_text (member o "signingKey")
    then some "signingKey must be a string"
    else if not_text (member o "recoveryKey")
    then some "recoveryKey must be a string"
    else if not_text (member o "handle")
    then some "handle must be a string"
    else if not_text (member o "service")
    then some "service must be a string"
    else if not_text (member o "sig")
    then some "sig must be a string"
    else none

-- The error of an operation's shape, `none` for one that passes.
unfoldable pub validate_operation_structure : (Option Json → String) → Json → Option String
unfolding operation_error tombstone_error create_error is_type member
validate_operation_structure show o =
    if not (is_object o)
    then some "Operation must be an object"
    else if is_type o "plc_operation"
    then operation_error o
    else if is_type o "plc_tombstone"
    then tombstone_error o
    else if is_type o "create"
    then create_error o
    else some ("Unknown operation type: " ⧺ show (member o "type"))

-- `{ sig, ...unsigned }`: the fields without the signature.
without_sig : Fields → Fields
without_sig end = end
without_sig (field k v fs) = if k == "sig" then without_sig fs else field k v (without_sig fs)

unsigned : Json → Json
unfolding without_sig
unsigned (object fs) = object (without_sig fs)
unsigned v = v

unurl : ℕ → ℕ
unurl c = if eqb c b'-' then b'+' else if eqb c b'_' then b'/' else c

-- The text is filled up with `=` to a multiple of four.
fill_up : List ℕ → List ℕ
unfolding unurl
fill_up [] = []
fill_up (a ∷ []) = unurl a ∷ b'=' ∷ b'=' ∷ b'=' ∷ []
fill_up (a ∷ b ∷ []) = unurl a ∷ unurl b ∷ b'=' ∷ b'=' ∷ []
fill_up (a ∷ b ∷ c ∷ []) = unurl a ∷ unurl b ∷ unurl c ∷ b'=' ∷ []
fill_up (a ∷ b ∷ c ∷ d ∷ cs) = unurl a ∷ unurl b ∷ unurl c ∷ unurl d ∷ fill_up cs

or_throw {ℓ} : {A : Type ℓ} → Option A → String → Attempt A
or_throw none e = thrown e
or_throw (some a) e = returned a

-- A signature that is no text: the structure check has refused it.
text_or_throw : Option String → Attempt String
text_or_throw none = thrown "sig is not a string"
text_or_throw (some s) = returned s

module _ (pf : Platform) where
  unfoldable pub from_base64url : String → Option (List ℕ)
  unfolding fill_up
  from_base64url s = pf.atob (fill_up (codes s))

  unfoldable pub compute_operation_cid : List ℕ → String
  compute_operation_cid bytes = "b" ⧺ pf.base32 (1 ∷ 113 ∷ 18 ∷ 32 ∷ pf.sha256 bytes)

  unfoldable pub verify_operation_signature : Json → Json → Verifier → Attempt Bool
  unfolding unsigned or_throw text_or_throw from_base64url member
  verify_operation_signature op signer verify = do
    bytes ← or_throw (pf.cbor_encode (unsigned op)) "CBOR"
    sig ← text_or_throw (as_text (member op "sig"))
    sig_bytes ← or_throw (from_base64url sig) "InvalidCharacterError"
    verify signer bytes sig_bytes

-- `e.cid === prev`
unfoldable pub is_prev : Option Json → LogEntry → Bool
is_prev prev e = elim (as_text prev) [ none ↦ false | some cid ↦ e.cid == cid ]

unfoldable pub validate_prev_chain :
    (Option Json → String) → Option Json → List LogEntry → Option String
unfolding is_prev
validate_prev_chain show (some null) ops =
    if eqb (length ops) 0 then none else some "Genesis operation requires empty log"
validate_prev_chain show prev ops =
    if any_of (λ e. is_prev prev e && not e.nullified) ops
    then none
    else some ("prev CID not found in current chain: " ⧺ show prev)
