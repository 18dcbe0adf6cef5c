-- ===== src/Market/Server.antt =====
-- The handlers of the submit procedures (lib/market-atproto/server.ts), up to the callback that each
-- hands over to. A request is what the code reads of it: its bearer header and its body, `none` where
-- that is no JSON.
pub mod Submit
pub mod Routing
use atproto_market.Common.{
  String, ℕ, zero, suc, Bool, true, false, not, ◌&&◌, ◌||◌, Option, none, some, List, [], ◌∷◌,
  if◌then◌else◌, ◌==◌, ◌⧺◌, is_empty, or_else, is_some,
}
use atproto_market.Common.Attempt.{Attempt, returned, thrown}
use atproto_market.Common.Json.{
  Json, Fields, Items, null, boolean, number, natural, str, object, end, field, fields_get, member,
}
use atproto_market.Common.Fields.{fields_drop}
use atproto_market.Records.{at_uri_authority}
use atproto_market.Market.Auth.{ServiceAuth, AuthOptions, verify_market_service_auth}
use atproto_market.Market.Attest.{Crypto}
use atproto_market.Market.Signing.{Bindings, verify_record_signatures}

pub record Request : Type 0 where
  pub auth_header : Option String
  pub body : Option Json

pub record Response : Type 0 where
  pub status : ℕ
  pub body : Json

-- What the handlers are made with. `resolve` fetches a record by uri and cid and adds `_uri` and
-- `_cid`; `trim`, `show`, `show_error` and `verify_jwt` are the platform's.
pub record Deps : Type 0 where
  pub hostname : Request → String
  pub audience_dids : Option (List String)
  pub resolve : String → Json → Attempt Fields
  pub crypto : Crypto
  pub bindings : Bindings
  pub trim : String → String
  pub show : Json → String
  pub show_error : String → String
  pub verify_jwt : String → String → Attempt Fields

-- How a handler goes on: with a value, with a response that it returns, or with an exception.
pub data Outcome {ℓ} (A : Type ℓ) : Type ℓ where
  goes_on : A → Outcome A
  responds : Response → Outcome A
  throws : String → Outcome A

infixl 5 ◌>>=◌ ◌>>◌
abbrev pub ◌>>=◌ {ℓ κ} : {A : Type ℓ} {B : Type κ} → Outcome A → (A → Outcome B) → Outcome B
goes_on a >>= f = f a
responds r >>= f = responds r
throws e >>= f = throws e

abbrev pub ◌>>◌ {ℓ} : {B : Type ℓ} → Outcome (Unit {0}) → Outcome B → Outcome B
m >> k = m >>= λ _. k

abbrev pub of_attempt {ℓ} : {A : Type ℓ} → Attempt A → Outcome A
of_attempt (returned a) = goes_on a
of_attempt (thrown e) = throws e

unfoldable pub xrpc_error : String → String → ℕ → Response
xrpc_error error message status = record {
  status = status;
  body = object (field "error" (str error) (field "message" (str message) end));
}

abbrev pub ok_body : Json
ok_body = object (field "ok" (boolean true) end)

abbrev pub ok_response : Response
ok_response = record { status = 200; body = ok_body }

-- What a callback gives.
pub record HandlerResult : Type 0 where
  pub status : Option ℕ
  pub body : Option Json

given_or : Json → Option Json → Json
given_or other none = other
given_or other (some null) = other
given_or other (some v) = v

unfoldable pub finish : Option HandlerResult → Response
unfolding given_or
finish none = ok_response
finish (some r) =
    if is_some r.body || is_some r.status
    then record { status = or_else r.status 200; body = given_or ok_body r.body }
    else ok_response

-- A value that `!` gives false for.
abbrev pub is_truthy : Option Json → Bool
is_truthy none = false
is_truthy (some null) = false
is_truthy (some (boolean b)) = b
is_truthy (some (number (natural n))) = elim n [ zero ↦ false | suc m ↦ true ]
is_truthy (some (str s)) = not (is_empty s)
is_truthy (some v) = true

abbrev pub truthy : Option Json → Option Json
truthy o = if is_truthy o then o else none

unfoldable pub given : Response → Option Json → Outcome Json
given r none = responds r
given r (some v) = goes_on v

-- `if (!body) return ...`
unfoldable pub read_body : Request → Outcome Json
read_body req = given (xrpc_error "InvalidRequest" "invalid JSON" 400) (truthy req.body)

-- A property that has to be there.
unfoldable pub required : String → Json → String → Outcome Json
unfolding member
required message body k = given (xrpc_error "InvalidRequest" message 400) (truthy (member body k))

-- The uri of a record: another value has no `replace`.
unfoldable pub text_of : Json → Outcome String
text_of (str s) = goes_on s
text_of _ = throws "uri.replace is not a function"

abbrev pub options_of : Deps → Request → String → List String → AuthOptions
options_of d req lxm service_ids = record {
  auth_header = req.auth_header;
  hostname = d.hostname req;
  lxm = lxm;
  service_ids = service_ids;
  extra_audience_dids = d.audience_dids;
}

-- The token is that of the record's author.
check_author : ServiceAuth → String → Outcome (String × ServiceAuth)
check_author auth uri =
    if auth.issuer_did == at_uri_authority uri
    then goes_on (uri, auth)
    else responds
        (xrpc_error "Forbidden" "service-auth token issuer must author the referenced record" 403)

check_auth : Deps → Json → Attempt ServiceAuth → Outcome (String × ServiceAuth)
unfolding check_author
check_auth d uri (returned auth) = text_of uri >>= check_author auth
check_auth d uri (thrown e) =
    responds (xrpc_error "Unauthorized" ("invalid service-auth token: " ⧺ d.show_error e) 401)

-- The uri as a text, and the token.
unfoldable pub authorize :
    Deps → Request → String → List String → Json → Outcome (String × ServiceAuth)
unfolding check_auth
authorize d req lxm service_ids uri =
    check_auth d uri
      (verify_market_service_auth d.trim d.show d.verify_jwt (options_of d req lxm service_ids))

unfoldable pub verify_authored : Deps → Fields → String → Outcome (Unit {0})
verify_authored d fs uri =
    if verify_record_signatures d.crypto (some d.bindings) fs (at_uri_authority uri)
    then goes_on tt
    else responds (xrpc_error "InvalidRequest" "record is missing a valid badge.blue signature" 400)

-- `stripResolved`
unfoldable pub strip_resolved : Fields → Fields
strip_resolved fs = fields_drop (fields_drop fs "_uri") "_cid"

-- The properties of a value: only an object has some that are read.
abbrev pub fields_of : Json → Fields
fields_of (object fs) = fs
fields_of _ = end

-- The response of a handler whose callback is awaited.
unfoldable pub respond {ℓ} :
    {A : Type ℓ} → (A → Attempt (Option HandlerResult)) → Outcome A → Attempt Response
unfolding finish
respond call (responds r) = returned r
respond call (throws e) = thrown e
respond call (goes_on a) = elim (call a) [ returned r ↦ returned (finish r) | thrown e ↦ thrown e ]
