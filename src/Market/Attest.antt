-- ===== src/Market/Attest.antt =====
-- Attestations of records (lib/market-atproto/attest.ts), and what an attestation signs
-- (`createAttestationCid` of lib/atproto-attestation-port/compat.ts). The encoding, the digest, the
-- elliptic curves and the resolution of keys are parameters.
pub mod Binding
pub mod Verified
use atproto_market.Common.{
  String, ℕ, zero, suc, Bool, true, false, not, ◌&&◌, Option, none, some, List, [], ◌∷◌,
  if◌then◌else◌, ◌==◌, ◌⧺◌, is_empty, is_some, codes, length,
}
use atproto_market.Common.Attempt.{Attempt, returned, thrown, ◌>>=◌}
use atproto_market.Common.Json.{
  Json, Fields, Items, null, str, array, object, items, fields_get, as_text, member,
}
use atproto_market.Common.Fields.{fields_set, fields_drop}

-- The platform: `atob`; the bytes of the cid of an object and their text; and the check of a
-- signature of bytes with the key of that name, which is resolved first.
pub record Crypto : Type 0 where
  pub atob : String → Attempt (List ℕ)
  pub cid_bytes : Fields → Attempt (List ℕ)
  pub cid_text : List ℕ → String
  pub verify_bytes : String → List ℕ → List ℕ → Attempt Bool

-- A text that is there and not empty.
abbrev has_type : Fields → Bool
has_type fs = elim (as_text (fields_get fs "$type")) [ none ↦ false | some t ↦ not (is_empty t) ]

-- The metadata under `$sig`: without cid and signature, with the repository.
unfoldable pub prepared_metadata : Fields → String → Fields
prepared_metadata metadata repository =
    fields_set (fields_drop (fields_drop metadata "cid") "signature") "repository" (str repository)

-- What the cid is of: the record without its signatures, with the metadata.
unfoldable pub prepared_record : Fields → Fields → String → Fields
unfolding prepared_metadata
prepared_record fs metadata repository =
    fields_set (fields_drop fs "signatures") "$sig" (object (prepared_metadata metadata repository))

-- `cid_of` gives the cid of an object.
unfoldable pub attestation_cid :
    {C : Type 0} → (Fields → Attempt C) → Fields → Fields → String → Attempt C
unfolding prepared_record
attestation_cid cid_of fs metadata repository =
    if not (has_type fs)
    then thrown "record is missing $type"
    else if not (has_type metadata)
    then thrown "attestation metadata is missing $type"
    else cid_of (prepared_record fs metadata repository)

-- The padding of a text of this length to a multiple of four.
padding : ℕ → String
padding zero = ""
padding (suc zero) = "==="
padding (suc (suc zero)) = "=="
padding (suc (suc (suc zero))) = "="
padding (suc (suc (suc (suc n)))) = padding n

base64_to_bytes : Crypto → String → Attempt (List ℕ)
unfolding padding
base64_to_bytes c b64 = c.atob (b64 ⧺ padding (length (codes b64)))

-- A signature as `{ $bytes }` or as a text in base64; `none` for any other value. Records are JSON here,
-- in which the `Uint8Array` that the source takes too does not occur.
unfoldable pub normalize_signature : Crypto → Option Json → Attempt (Option (List ℕ))
unfolding base64_to_bytes
normalize_signature c (some (str s)) = do bytes ← base64_to_bytes c s; returned (some bytes)
normalize_signature c (some (object fs)) = elim (as_text (fields_get fs "$bytes")) [
  | none ↦ returned none
  | some s ↦ base64_to_bytes c s >>= λ bytes. returned (some bytes)
]
normalize_signature c _ = returned none

-- `v != null`
abbrev pub is_given : Option Json → Bool
is_given none = false
is_given (some null) = false
is_given (some v) = true

unfoldable pub is_inline_entry : Fields → Bool
is_inline_entry fs =
    is_some (as_text (fields_get fs "key"))
    && is_given (fields_get fs "signature")
    && not (is_some (fields_get fs "uri"))

-- An array has no property `key`.
inline_of : List Json → List Fields
unfolding is_inline_entry
inline_of [] = []
inline_of (object fs ∷ vs) =
    let rest = inline_of vs in if is_inline_entry fs then fs ∷ rest else rest
inline_of (_ ∷ vs) = inline_of vs

unfoldable pub entries_of : Option Json → List Json
entries_of (some (array vs)) = items vs
entries_of _ = []

-- The inline entries of a record's signatures.
unfoldable pub inline_entries : Fields → List Fields
unfolding inline_of entries_of
inline_entries fs = inline_of (entries_of (fields_get fs "signatures"))

-- `try { ... } catch { return false }`
abbrev pub or_false : Attempt Bool → Bool
or_false (returned b) = b
or_false (thrown e) = false

-- The cid that an entry declares, if it declares one.
declares : Option String → String → Bool
declares none cid = true
declares (some declared) cid = declared == cid

check_signed : Crypto → Fields → Fields → String → String → List ℕ → Attempt Bool
unfolding declares
check_signed c fs entry repository key sig = do
  cid ← attestation_cid c.cid_bytes fs entry repository
  if declares (as_text (fields_get entry "cid")) (c.cid_text cid)
      then c.verify_bytes key cid sig
      else returned false

check_entry : Crypto → Fields → Fields → String → Option String → Option (List ℕ) → Attempt Bool
unfolding check_signed
check_entry c fs entry repository (some key) (some sig) = check_signed c fs entry repository key sig
check_entry c fs entry repository _ _ = returned false

unfoldable pub verify_inline_attestation : Crypto → Fields → Fields → String → Bool
unfolding check_entry
verify_inline_attestation c fs entry repository = or_false (
    normalize_signature c (fields_get entry "signature")
    >>= check_entry c fs entry repository (as_text (fields_get entry "key")))

check_proof : Crypto → Fields → String → Fields → String → Attempt Bool
check_proof c subject repository proof declared = do
  cid ←
      attestation_cid c.cid_bytes subject
        (fields_drop (fields_drop (fields_drop proof "cid") "signature") "signatures") repository
  returned (c.cid_text cid == declared)

unfoldable pub verify_remote_proof : Crypto → Fields → String → Fields → Bool
unfolding check_proof
verify_remote_proof c subject repository proof = elim (as_text (fields_get proof "cid")) [
  | none ↦ false
  | some declared ↦ or_false (check_proof c subject repository proof declared)
]
