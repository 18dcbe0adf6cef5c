-- ===== src/Bidder/Operator.antt =====
-- The operator of a bidder, by the records in a repository (lib/market-bidder/mod.ts,
-- `resolveOperatorDid`), and the merging of callback tables.
pub mod Claimed
use atproto_market.Common.{
  String, Bool, true, false, not, ◌&&◌, ◌||◌, Option, none, some, List, [], ◌∷◌, if◌then◌else◌,
  ◌==◌, is_some, or_else, starts_with,
}
use atproto_market.Common.Attempt.{Attempt, returned, thrown}
use atproto_market.Common.Json.{Json, Fields, str, fields_get, as_text}
use atproto_market.Common.Dict.{Dict, get, set}

unfoldable pub says : Fields → String → String → Bool
says v k s = elim (as_text (fields_get v k)) [ none ↦ false | some t ↦ t == s ]

unfoldable pub is_associate : Fields → Bool
unfolding says
is_associate v = says v "service" "bidder_associate" || says v "service" "requester_associate"

-- A text that starts with `did:`.
unfoldable pub did_in : Fields → String → Option String
did_in v k = elim (as_text (fields_get v k)) [
  | none ↦ none
  | some t ↦ if starts_with "did:" t then some t else none
]

-- The did that `other` names in the first association whose `own` is the did asked for.
unfoldable pub named_in : String → String → String → List Fields → Option String
unfolding is_associate did_in says
named_in own other did [] = none
named_in own other did (v ∷ vs) =
    let later = named_in own other did vs in
    if is_associate v && says v own did && is_some (did_in v other) then did_in v other else later

-- `listed` are the values of the records in the repository of the did asked for: first those that
-- name it as the key, then those that name it as the challenge.
unfoldable pub resolve_operator_did : String → Attempt (List Fields) → Option String
unfolding named_in
resolve_operator_did did (thrown e) = none
resolve_operator_did did (returned vs) = elim (named_in "keyId" "challenge" did vs) [
  | some operator ↦ some operator
  | none ↦ named_in "challenge" "keyId" did vs
]

module _ {T : Type 0} where
  spread : Dict T → Dict T → Dict T
  spread m [] = m
  spread m ((k, v) ∷ es) = spread (set m k v) es

  merge_bucket : Dict (Dict T) → (String × Dict T) → Dict (Dict T)
  unfolding spread
  merge_bucket m (k, bucket) = set m k (spread (or_else (get m k) []) bucket)

  -- `deepMergeCallbacks`: the tables of the second are laid over those of the first.
  unfoldable pub deep_merge_callbacks : Dict (Dict T) → Dict (Dict T) → Dict (Dict T)
  unfolding merge_bucket
  deep_merge_callbacks a [] = a
  deep_merge_callbacks a (e ∷ es) = deep_merge_callbacks (merge_bucket a e) es
