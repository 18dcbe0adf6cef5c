-- ===== src/Market/Server/Routing.antt =====
-- The routing of a record to a callback by service id and by the collection of its payload
-- (lib/market-atproto/server.ts). Only the own properties of the tables are looked at.
use atproto_market.Common.{
  String, Option, none, some, List, [], ◌∷◌, if◌then◌else◌, is_empty, or_else,
}
use atproto_market.Common.Dict.{Dict, get}

-- The service id of the token, or the only one that is configured.
unfoldable pub bucket_of : Option String → List String → Option String
bucket_of (some id) ids = some id
bucket_of none (id ∷ []) = some id
bucket_of none _ = none

module _ {C : Type 0} where
  in_bucket : Option (Dict C) → String → Option C
  in_bucket none nsid = none
  in_bucket (some bucket) nsid = get bucket nsid

  -- The callback of a service id; an empty one has none, and a uri without a collection is looked up as
  -- `undefined`.
  unfoldable pub route : Dict (Dict C) → Option String → Option String → Option C
  unfolding in_bucket
  route callbacks none nsid = none
  route callbacks (some id) nsid =
      if is_empty id then none else in_bucket (get callbacks id) (or_else nsid "undefined")
