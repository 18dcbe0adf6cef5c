-- ===== src/Market/Auth.antt =====
-- The check of the service-auth token of a request (lib/market-atproto/auth.ts).
pub mod Audience
use atproto_market.Common.{
  zero, String, ℕ, Bool, true, false, not, ◌&&◌, ◌||◌, Option, none, some, List, [], ◌∷◌, ◌++◌, ◌⧺◌,
  if◌then◌else◌, eqb, every, codes, is_empty, or_else, is_some, split, part, starts_with,
  strip_prefix,
}
use atproto_market.Common.Attempt.{Attempt, returned, thrown, ◌>>=◌}
use atproto_market.Common.Dict.{Dict, get, set, keys}
use atproto_market.Common.Json.{Json, Fields, null, boolean, number, str, natural, fields_get}

pub record ServiceAuth : Type 0 where
  pub issuer_did : String
  pub audience : String
  pub service_id : Option String

-- The characters that `.` matches: no line terminator.
on_one_line : ℕ → Bool
on_one_line c = not (eqb c 10 || eqb c 13 || eqb c 8232 || eqb c 8233)

bearer_token : Option String → Attempt String
unfolding on_one_line
bearer_token none = thrown "missing or malformed Authorization Bearer header"
bearer_token (some token) =
    if not (is_empty token) && every on_one_line (codes token)
    then returned token
    else thrown "missing or malformed Authorization Bearer header"

-- /^Bearer (.+)$/ on the trimmed header; `trim` is the platform's.
unfoldable pub extract_bearer : (String → String) → Option String → Attempt String
unfolding bearer_token strip_prefix
extract_bearer trim header = bearer_token (strip_prefix "Bearer " (trim (or_else header "")))

unfoldable pub service_did_for_host : String → String
service_did_for_host hostname = "did:web:" ⧺ hostname

-- The loop over the service ids of one did.
unfoldable pub accept_ids : String → List String → Dict (Option String) → Dict (Option String)
accept_ids did [] m = m
accept_ids did (id ∷ ids) m = accept_ids did ids (set m (did ⧺ "#" ⧺ id) (some id))

-- The loop over the dids.
unfoldable pub accept_dids : List String → List String → Dict (Option String) → Dict (Option String)
unfolding accept_ids
accept_dids [] ids m = m
accept_dids (did ∷ dids) ids m = accept_dids dids ids (accept_ids did ids (set m did none))

-- The acceptable audiences, each with its service id.
unfoldable pub acceptable : List String → List String → Dict (Option String)
unfolding accept_dids
acceptable dids ids = accept_dids dids ids []

-- `xs.join(" or ")`
join_or : List String → String
join_or [] = ""
join_or (x ∷ []) = x
join_or (x ∷ y ∷ ys) = x ⧺ " or " ⧺ join_or (y ∷ ys)

-- An audience with its service id.
unfoldable pub audience_of :
    (Json → String) → Dict (Option String) → Option Json → Attempt (String × Option String)
unfolding join_or
audience_of show m (some (str aud)) = elim (get m aud) [
  | some id ↦ returned (aud, id)
  | none ↦ thrown ("unexpected audience " ⧺ aud ⧺ "; expected " ⧺ join_or (keys m))
]
audience_of show m none = thrown ("unexpected audience (none); expected " ⧺ join_or (keys m))
audience_of show m (some null) = thrown ("unexpected audience (none); expected " ⧺ join_or (keys m))
audience_of show m (some v) =
    thrown ("unexpected audience " ⧺ show v ⧺ "; expected " ⧺ join_or (keys m))

-- The issuer: a falsy one is missing, and another value that is no text has no `startsWith`.
unfoldable pub issuer_of : Option Json → Attempt String
issuer_of (some (str iss)) =
    if not (is_empty iss) && starts_with "did:" iss
    then returned iss
    else thrown "service auth token missing DID issuer"
issuer_of none = thrown "service auth token missing DID issuer"
issuer_of (some null) = thrown "service auth token missing DID issuer"
issuer_of (some (boolean false)) = thrown "service auth token missing DID issuer"
issuer_of (some (number (natural zero))) = thrown "service auth token missing DID issuer"
issuer_of (some v) = thrown "iss.startsWith is not a function"

pub record AuthOptions : Type 0 where
  pub auth_header : Option String
  pub hostname : String
  pub lxm : String
  pub service_ids : List String
  pub extra_audience_dids : Option (List String)

-- `verify_jwt token lxm` is the library's `verifyJwt` with the resolver of signing keys: the payload
-- of a token whose signature, method and expiry it has checked.
module _ (trim : String → String) (show : Json → String)
    (verify_jwt : String → String → Attempt Fields) where
  unfoldable pub verify_market_service_auth : AuthOptions → Attempt ServiceAuth
  unfolding split part
  verify_market_service_auth opts = do
    token ← extract_bearer trim opts.auth_header
    payload ← verify_jwt token opts.lxm
    found ←
        audience_of show
          (acceptable (service_did_for_host opts.hostname ∷ or_else opts.extra_audience_dids [])
            opts.service_ids)
          (fields_get payload "aud")
    iss ← issuer_of (fields_get payload "iss")
    returned (record {
      issuer_did = or_else (part (split b'#' iss) 0) "";
      audience = found.0;
      service_id = found.1;
    })
