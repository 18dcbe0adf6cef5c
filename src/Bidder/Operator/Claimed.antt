-- ===== src/Bidder/Operator/Claimed.antt =====
-- Whose word the operator of a did is.
use atproto_market.Common.{String, true, ◌≡◌, arith, some, List, ◌∷◌, eq_refl, starts_with}
use atproto_market.Common.Attempt.{returned}
use atproto_market.Common.Json.{Fields, str, fields_get}
use atproto_market.Bidder.Operator.{says, is_associate, did_in, named_in, resolve_operator_did}

says_lem : (v : Fields) (k s : String) → fields_get v k ≡ some (str s) → says v k s ≡ true
unfolding says
says_lem v k s there = ground (arith, there, eq_refl s)

did_in_lem :
    (v : Fields) (k s : String)
    → fields_get v k ≡ some (str s)
    → starts_with "did:" s ≡ true
    → did_in v k ≡ some s
unfolding did_in
did_in_lem v k s there is_did = ground (arith, there, is_did)

named_in_lem :
    (own other did operator : String) (v : Fields) (vs : List Fields)
    → says v "service" "bidder_associate" ≡ true
    → says v own did ≡ true
    → did_in v other ≡ some operator
    → named_in own other did (v ∷ vs) ≡ some operator
unfolding named_in is_associate
named_in_lem own other did operator v vs associate owned named =
    ground (arith, associate, owned, named)

-- The first record in a did's own repository that says so makes any did its operator, whatever the
-- operator's repository holds.
pub operator_claimed :
    (did operator : String) (v : Fields) (vs : List Fields)
    → fields_get v "service" ≡ some (str "bidder_associate")
    → fields_get v "keyId" ≡ some (str did)
    → fields_get v "challenge" ≡ some (str operator)
    → starts_with "did:" operator ≡ true
    → resolve_operator_did did (returned (v ∷ vs)) ≡ some operator
unfolding resolve_operator_did
operator_claimed did operator v vs service key challenge is_did =
    let first =
      named_in_lem "keyId" "challenge" did operator v vs
        (says_lem v "service" "bidder_associate" service) (says_lem v "keyId" did key)
        (did_in_lem v "challenge" operator challenge is_did) in
    ground (arith, first)
