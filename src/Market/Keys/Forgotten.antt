-- ===== src/Market/Keys/Forgotten.antt =====
-- What a failed lookup leaves in the caches.
use atproto_market.Common.{
  String, ℕ, false, ◌≡◌, refl, Option, some, List, [], ◌∷◌, ◌==◌, pick, All,
}
use atproto_market.Common.Attempt.{Attempt, thrown}
use atproto_market.Common.Json.{Json}
use atproto_market.Common.Memo.{Memo, Lookup, asks, answers, look_up, look_up_all, ask_again}
use atproto_market.Market.Keys.{same_did, document_keys, keys_for_did, keys_fetched}

-- A lookup of a did's keys begins, or the fetch of one ends.
pub data Event : Type 0 where
  began : String → Event
  fetched : ℕ → Attempt (List (Option Json)) → Event

unfoldable pub step : Memo String (List String) → Event → Memo String (List String)
unfolding keys_for_did keys_fetched
step memo (began did) = (keys_for_did memo did).0
step memo (fetched i document) = keys_fetched memo i document

unfoldable pub run : Memo String (List String) → List Event → Memo String (List String)
unfolding step
run memo [] = memo
run memo (e ∷ es) = run (step memo e) es

lookup_of : Event → Lookup String (List String)
lookup_of (began did) = asks did
lookup_of (fetched i document) = answers i (λ did. document_keys document)

lookups_of : List Event → List (Lookup String (List String))
unfolding lookup_of
lookups_of [] = []
lookups_of (e ∷ es) = lookup_of e ∷ lookups_of es

run-look_up_all :
    (memo : Memo String (List String)) (es : List Event)
    → run memo es ≡ look_up_all same_did memo (lookups_of es)
unfolding run lookups_of look_up_all look_up
run-look_up_all memo [] = refl
run-look_up_all memo (began did ∷ es) = run-look_up_all (keys_for_did memo did).0 es
run-look_up_all memo (fetched i document ∷ es) = run-look_up_all (keys_fetched memo i document) es

no_keys : (e : String) → document_keys (thrown e) ≡ []
unfolding document_keys
no_keys e = refl

-- Once the fetch of a did's document has failed while no other lookup of that did is under way, every
-- later lookup of the did ends at once with no keys and fetches nothing, whatever lookups begin and
-- end in between.
pub failed_fetch_stays :
    (memo : Memo String (List String)) (i : ℕ) (did e : String) (others : List String)
    (es : List Event)
    → pick i memo.asked ≡ some (did, others)
    → All (λ d. (d == did) ≡ false) others
    → keys_for_did (run (keys_fetched memo i (thrown e)) es) did
      ≡ (run (keys_fetched memo i (thrown e)) es, some [])
unfolding keys_for_did keys_fetched
failed_fetch_stays memo i did e others es there none_else =
    rw (run-look_up_all (keys_fetched memo i (thrown e)) es) (
      ask_again same_did did [] memo i (λ d. document_keys (thrown e)) did others (lookups_of es)
        there refl (no_keys e) none_else)
