-- ===== src/Tests/Tokens.antt =====
-- A token for one of the services of a host.
use atproto_market.Common.{String, [], ◌∷◌, none, some, ◌≡◌, refl}
use atproto_market.Common.Attempt.{Attempt, returned}
use atproto_market.Common.Dict.{get, set}
use atproto_market.Common.Json.{Json, Fields, str, end, field, fields_get}
use atproto_market.Market.Auth.{
  ServiceAuth, AuthOptions, extract_bearer, service_did_for_host, acceptable, audience_of,
  issuer_of, verify_market_service_auth,
}
use atproto_market.Market.Auth.Audience.{IsFor, verify_market_service_auth-IsFor}

abbrev as_is : String → String
as_is s = s

abbrev no_text : Json → String
no_text v = "value"

abbrev claims : Fields
claims = field "aud" (str "did:web:host#svc") (field "iss" (str "did:plc:a#atproto") end)

verified : String → String → Attempt Fields
verified token lxm = returned claims

abbrev options : AuthOptions
options = record {
  auth_header = some "Bearer abc";
  hostname = "host";
  lxm = "submitBid";
  service_ids = "svc" ∷ [];
  extra_audience_dids = none;
}

abbrev the_auth : ServiceAuth
the_auth = record {
  issuer_did = "did:plc:a";
  audience = "did:web:host#svc";
  service_id = some "svc";
}

the_auth_accepted : verify_market_service_auth as_is no_text verified options ≡ returned the_auth
unfolding verify_market_service_auth extract_bearer verified fields_get acceptable audience_of
    issuer_of get set service_did_for_host
the_auth_accepted = refl

verify_market_service_auth-IsFor_example :
    ((token : String) × (payload : Fields) × (extract_bearer as_is (some "Bearer abc")
        ≡ returned token)
      × (verified token "submitBid" ≡ returned payload)
      × (fields_get payload "aud" ≡ some (str "did:web:host#svc")))
    × IsFor (service_did_for_host "host" ∷ []) ("svc" ∷ []) "did:web:host#svc" (some "svc")
verify_market_service_auth-IsFor_example =
    verify_market_service_auth-IsFor as_is no_text verified options the_auth the_auth_accepted
