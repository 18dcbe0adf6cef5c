-- ===== src/Market/Signing.antt =====
-- Which signature of a record counts (lib/market-atproto/signing.ts).
pub mod Author
use atproto_market.Common.{
  String, ℕ, Bool, true, false, not, ◌&&◌, ◌||◌, Option, none, some, List, [], ◌∷◌, if◌then◌else◌,
  or_else, includes,
}
use atproto_market.Common.Json.{Json, Fields, null, str, fields_get, as_text}
use atproto_market.Market.Attest.{Crypto, inline_entries, verify_inline_attestation}

-- What binds keys to dids: the keys of the document of the did that is asked for, none where there is
-- no such did, and the records that bind a key to a did.
pub record Bindings : Type 0 where
  pub keys_for_did : Json → List String
  pub bound_by_record : String → String → Bool

did_or : String → Option Json → Json
did_or repository none = str repository
did_or repository (some null) = str repository
did_or repository (some v) = v

-- `entry.issuer ?? repositoryDid`
unfoldable pub signing_did : Fields → String → Json
unfolding did_or
signing_did entry repository = did_or repository (fields_get entry "issuer")

unfoldable pub is_bound : Option Bindings → Fields → String → String → Bool
unfolding signing_did
is_bound none entry repository key = true
is_bound (some b) entry repository key =
    includes key (b.keys_for_did (signing_did entry repository)) || b.bound_by_record repository key

unfoldable pub entry_counts : Crypto → Option Bindings → Fields → String → Fields → Bool
unfolding is_bound
entry_counts c bindings fs repository entry =
    verify_inline_attestation c fs entry repository
    && is_bound bindings entry repository (or_else (as_text (fields_get entry "key")) "")

first_counts : Crypto → Option Bindings → Fields → String → List Fields → Bool
unfolding entry_counts
first_counts c bindings fs repository [] = false
first_counts c bindings fs repository (e ∷ es) =
    let later = first_counts c bindings fs repository es in
    if entry_counts c bindings fs repository e then true else later

unfoldable pub verify_record_signatures : Crypto → Option Bindings → Fields → String → Bool
unfolding first_counts
verify_record_signatures c bindings fs repository =
    first_counts c bindings fs repository (inline_entries fs)
