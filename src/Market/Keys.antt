-- ===== src/Market/Keys.antt =====
-- The keys of the documents of dids (`createDidKeyResolver` of lib/market-atproto/attest.ts) and the
-- records that bind a key to a did (lib/market-atproto/badge-blue-keys.ts), each with its cache. A
-- lookup that finds nothing in the cache awaits the network: it begins with one function and ends with
-- another, which takes what the network gives.
pub mod Forgotten
use atproto_market.Common.{
  String, ℕ, Bool, true, false, not, ◌&&◌, Option, none, some, List, [], ◌∷◌, ◌⧺◌, if◌then◌else◌,
  ◌==◌, is_empty,
}
use atproto_market.Common.Attempt.{Attempt, returned, thrown}
use atproto_market.Common.Memo.{Memo, ask, answer}
use atproto_market.Common.Json.{Json, Fields, str, fields_get, member, as_text}

-- The keys of the verification methods, by their `publicKeyMultibase` where that is a text.
unfoldable pub keys_of_methods : List (Option Json) → List String
keys_of_methods [] = []
keys_of_methods (some (str k) ∷ ms) = ("did:key:" ⧺ k) ∷ keys_of_methods ms
keys_of_methods (_ ∷ ms) = keys_of_methods ms

-- A document that could not be fetched has no keys.
unfoldable pub document_keys : Attempt (List (Option Json)) → List String
unfolding keys_of_methods
document_keys (returned ms) = keys_of_methods ms
document_keys (thrown e) = []

abbrev pub same_did : String → String
same_did did = did

-- A lookup of the keys of a did: it ends at once with the keys of the cache, or fetches the document.
unfoldable pub keys_for_did :
    Memo String (List String) → String → Memo String (List String) × Option (List String)
unfolding ask
keys_for_did memo did = ask same_did memo did

-- The lookup numbered `i` of those under way ends; `fetched` is what fetching the document gave.
unfoldable pub keys_fetched :
    Memo String (List String) → ℕ → Attempt (List (Option Json)) → Memo String (List String)
unfolding document_keys answer
keys_fetched memo i fetched = answer same_did memo i (λ did. document_keys fetched)

-- What the platform gives for a key and a did: the name of the record; the did's document, if there is
-- one, with its PDS; and the record, `none` where the response is not ok.
pub record BadgeAnswers : Type 0 where
  pub rkey : Attempt String
  pub pds : Attempt (Option String)
  pub record_of : String → String → Attempt (Option Json)

-- `data.value?.keyId === key && data.value?.challenge === did`
binds : Option Json → String → String → Bool
binds none did key = false
binds (some value) did key =
    is_text (as_text (member value "keyId")) key && is_text (as_text (member value "challenge")) did
  where
    is_text : Option String → String → Bool
    is_text none s = false
    is_text (some t) s = t == s

is_binding : Attempt (Option Json) → String → String → Bool
unfolding binds member
is_binding (thrown e) did key = false
is_binding (returned none) did key = false
is_binding (returned (some v)) did key = binds (member v "value") did key

bound_at : BadgeAnswers → String → String → String → Attempt (Option String) → Bool
unfolding is_binding
bound_at a did key rkey (returned (some pds)) =
    not (is_empty pds) && is_binding (a.record_of pds rkey) did key
bound_at a did key rkey _ = false

unfoldable pub key_bound_by_badge_blue_key : BadgeAnswers → String → String → Bool
unfolding bound_at
key_bound_by_badge_blue_key a did key = elim a.rkey [
  | returned rkey ↦ bound_at a did key rkey a.pds
  | thrown e ↦ false
]

abbrev pub cache_key : (String × String) → String
cache_key (did, key) = did ⧺ "#" ⧺ key

-- A lookup of a did and a key: it ends at once with the answer of the cache, or asks the platform.
unfoldable pub key_bound :
    Memo (String × String) Bool → (String × String) → Memo (String × String) Bool × Option Bool
unfolding ask
key_bound memo q = ask cache_key memo q

-- The lookup numbered `i` of those under way ends with what the platform gave.
unfoldable pub key_answered :
    Memo (String × String) Bool → ℕ → BadgeAnswers → Memo (String × String) Bool
unfolding key_bound_by_badge_blue_key answer
key_answered memo i a = answer cache_key memo i (λ q. key_bound_by_badge_blue_key a q.0 q.1)
