-- ===== src/Market/Verify.antt =====
-- The handler of network.attested.verify (`createVerifyHandler` of lib/market-atproto/server.ts).
-- `fetch` is `fetchRecord`: the record at a uri, of the version of a cid if one is given, and its cid.
pub mod Vouched
use atproto_market.Common.{
  String, ℕ, Bool, true, false, not, ◌&&◌, Option, none, some, List, [], ◌∷◌, if◌then◌else◌, ◌⧺◌,
  is_empty, is_some, includes, or_else,
}
use atproto_market.Common.Attempt.{Attempt, returned, thrown, ◌>>=◌}
use atproto_market.Common.Json.{Json, Fields, object, fields_get, as_text}
use atproto_market.Records.{at_uri_authority}
use atproto_market.Market.Attest.{
  Crypto, is_given, entries_of, or_false, verify_inline_attestation, verify_remote_proof,
}
use atproto_market.Market.Signing.{signing_did}
use atproto_market.Market.Server.{Response, Outcome, goes_on, responds, xrpc_error}

pub record VerifyDeps : Type 0 where
  pub crypto : Crypto
  pub fetch : String → Option String → Attempt (Fields × String)
  pub keys_for_did : Option (Json → Attempt (List String))
  pub show_error : String → String

pub record Verification : Type 0 where
  pub uri : String
  pub cid : String
  pub valid : Bool
  pub signatures : List Json

-- Here an inline entry names its cid.
unfoldable pub names_key : Fields → Bool
names_key fs =
    is_some (as_text (fields_get fs "key"))
    && is_some (as_text (fields_get fs "cid"))
    && is_given (fields_get fs "signature")

is_strong_ref : Fields → Bool
is_strong_ref fs =
    is_some (as_text (fields_get fs "uri"))
    && is_some (as_text (fields_get fs "cid"))
    && not (is_some (as_text (fields_get fs "key")))

is_allowed : Option (Json → Attempt (List String)) → Json → String → Attempt Bool
is_allowed none did key = returned true
is_allowed (some keys) did key = keys did >>= λ ks. returned (includes key ks)

inline_vouches : VerifyDeps → Fields → String → Fields → Attempt Bool
unfolding is_allowed
inline_vouches d fs repository entry =
    if verify_inline_attestation d.crypto fs entry repository
    then is_allowed d.keys_for_did (signing_did entry repository)
        (or_else (as_text (fields_get entry "key")) "")
    else returned false

proof_vouches : VerifyDeps → Fields → String → Fields → Attempt Bool
proof_vouches d fs repository entry =
    d.fetch (or_else (as_text (fields_get entry "uri")) "") (as_text (fields_get entry "cid"))
    >>= λ proof. returned (verify_remote_proof d.crypto fs repository proof.0)

-- Whether an entry is verified; one whose check throws is not.
unfoldable pub vouches : VerifyDeps → Fields → String → Json → Bool
unfolding names_key is_strong_ref inline_vouches proof_vouches
vouches d fs repository (object entry) =
    if names_key entry
    then or_false (inline_vouches d fs repository entry)
    else if is_strong_ref entry
    then or_false (proof_vouches d fs repository entry)
    else false
vouches d fs repository _ = false

-- The entries that are verified.
unfoldable pub verified : VerifyDeps → Fields → String → List Json → List Json
unfolding vouches
verified d fs repository [] = []
verified d fs repository (v ∷ vs) =
    let rest = verified d fs repository vs in if vouches d fs repository v then v ∷ rest else rest

abbrev pub any_left : List Json → Bool
any_left [] = false
any_left (v ∷ vs) = true

unfoldable pub verification_of : VerifyDeps → String → Fields → String → Verification
unfolding verified entries_of
verification_of d uri fs cid =
    let signatures =
      verified d fs (at_uri_authority uri) (entries_of (fields_get fs "signatures")) in
    record { uri = uri; cid = cid; valid = any_left signatures; signatures = signatures }

verify_fetched : VerifyDeps → String → Attempt (Fields × String) → Outcome Verification
verify_fetched d uri (returned (fs, cid)) = goes_on (verification_of d uri fs cid)
verify_fetched d uri (thrown e) =
    responds (xrpc_error "RecordNotFound" ("could not resolve " ⧺ uri ⧺ ": " ⧺ d.show_error e) 400)

-- The parameters of the query: an empty uri is missing.
unfoldable pub verify : VerifyDeps → Option String → Option String → Outcome Verification
unfolding verify_fetched
verify d none cid = responds (xrpc_error "InvalidRequest" "missing uri" 400)
verify d (some uri) cid =
    if is_empty uri
    then responds (xrpc_error "InvalidRequest" "missing uri" 400)
    else verify_fetched d uri (d.fetch uri cid)
