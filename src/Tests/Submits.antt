-- ===== src/Tests/Submits.antt =====
-- An event and an rfp that are signed, over a platform in which every key signs with the name of the
-- key.
use atproto_market.Common.{
  String, ℕ, true, false, [], ◌∷◌, none, some, Option, List, ◌≡◌, refl, sym, ◌∙◌,
}
use atproto_market.Common.Attempt.{Attempt, returned, thrown}
use atproto_market.Common.Dict.{Dict, get, set}
use atproto_market.Common.Json.{
  Json, Fields, str, object, array, cons, nil, end, field, fields_get, member,
}
use atproto_market.Market.Attest.{Crypto}
use atproto_market.Market.Signing.{Bindings}
use atproto_market.Market.Server.{Request, Response, Deps, goes_on, HandlerResult}
use atproto_market.Market.Server.Submit.{
  Routed, RfpConfig, dispatch_rfp, submit_event, submit_rfp, respond_rfp, internal_error,
}
use atproto_market.Market.Server.Submit.Authors.{IsRouted, submit_event-IsReceived}
use atproto_market.Market.Server.Submit.Dispatch.{IsDispatched, dispatch_rfp-IsDispatched}
use atproto_market.Market.Server.Submit.Quiet.{submit_rfp_responds}

abbrev bytes : List ℕ
bytes = 7 ∷ []

abbrev pub crypto : Crypto
crypto = record {
  atob = λ s. returned bytes;
  cid_bytes = λ fs. returned bytes;
  cid_text = λ b. "cid";
  verify_bytes = λ key cid sig. returned true;
}

abbrev bindings : Bindings
bindings = record { keys_for_did = λ did. "did:key:k" ∷ []; bound_by_record = λ did key. false }

abbrev pub entry : Fields
entry =
    field "$type" (str "sig")
      (field "key" (str "did:key:k") (field "cid" (str "cid") (field "signature" (str "c2ln") end)))

abbrev pub signed : String → Fields → Fields
signed type rest =
    field "$type" (str type) (field "signatures" (array (cons (object entry) nil)) rest)

abbrev pub payload : Fields
payload =
    field "payload"
      (object (field "uri" (str "at://did:plc:a/x.delete/2") (field "cid" (str "c2") end))) end

abbrev pub event : Fields
event = signed "com.publicdomainrelay.temp.market.event" payload

abbrev claims : Fields
claims = field "aud" (str "did:web:host#svc") (field "iss" (str "did:plc:a") end)

abbrev deps : Deps
deps = record {
  hostname = λ req. "host";
  audience_dids = none;
  resolve = λ uri cid. returned event;
  crypto = crypto;
  bindings = bindings;
  trim = λ s. s;
  show = λ v. "value";
  show_error = λ e. e;
  verify_jwt = λ token lxm. returned claims;
}

abbrev sent : Json
sent = object (field "receipt" (object end) (field "payload" (object end) end))

abbrev request : Request
request = record {
  auth_header = some "Bearer abc";
  body = some (
      object (
        field "uri" (str "at://did:plc:a/x.event/1")
          (field "cid" (str "c1") (field "record" sent end))));
}

abbrev callbacks : Dict (Dict String)
callbacks = ("svc", ("x.delete", "deletion") ∷ []) ∷ []

abbrev routed : Routed String
routed = record {
  callback = "deletion";
  service_id = some "svc";
  payload_nsid = some "x.delete";
  call = record {
    uri = "at://did:plc:a/x.event/1";
    cid = str "c1";
    fields = event;
    issuer_did = "did:plc:a";
  };
}

event_routed : submit_event deps callbacks request ≡ goes_on routed
unfolding submit_event atproto_market.Market.Server.read_body atproto_market.Market.Server.given
    atproto_market.Market.Server.required atproto_market.Market.Server.authorize
    atproto_market.Market.Server.text_of atproto_market.Market.Server.verify_authored
    atproto_market.Market.Server.strip_resolved atproto_market.Market.Server.xrpc_error
    atproto_market.Market.Auth.verify_market_service_auth atproto_market.Market.Auth.extract_bearer
    atproto_market.Market.Auth.audience_of atproto_market.Market.Auth.acceptable
    atproto_market.Market.Auth.service_did_for_host atproto_market.Market.Auth.issuer_of
    atproto_market.Market.Auth.accept_dids atproto_market.Market.Auth.accept_ids get set
    atproto_market.Records.at_uri_authority atproto_market.Common.part
    atproto_market.Common.remove_first atproto_market.Common.split atproto_market.Common.split_from
    atproto_market.Common.strip_prefix atproto_market.Market.Signing.verify_record_signatures
    atproto_market.Market.Signing.entry_counts atproto_market.Market.Signing.is_bound
    atproto_market.Market.Signing.signing_did atproto_market.Market.Attest.attestation_cid
    atproto_market.Market.Attest.entries_of atproto_market.Market.Attest.inline_entries
    atproto_market.Market.Attest.is_inline_entry atproto_market.Market.Attest.normalize_signature
    atproto_market.Market.Attest.prepared_metadata atproto_market.Market.Attest.prepared_record
    atproto_market.Market.Attest.verify_inline_attestation atproto_market.Common.Fields.fields_drop
    atproto_market.Common.Fields.fields_set atproto_market.Common.Json.fields_get
    atproto_market.Common.Json.member atproto_market.Common.includes
    atproto_market.Market.Server.Routing.bucket_of atproto_market.Market.Server.Routing.route
    atproto_market.Market.Server.Submit.hand_over atproto_market.Market.Server.Submit.payload_nsid
    atproto_market.Records.drop_chars atproto_market.Records.nsid_from_uri
    atproto_market.Records.parse_at_uri
event_routed = refl

submit_event-IsReceived_example : IsRouted deps request callbacks routed
submit_event-IsReceived_example = submit_event-IsReceived deps request callbacks routed event_routed

abbrev rfp_config : RfpConfig String
rfp_config = record { callbacks = callbacks; scope_filter = some (λ call. returned true) }

event_dispatched :
    dispatch_rfp deps rfp_config "at://did:plc:a/x.event/1" (str "c1") "did:plc:a" (some "svc")
    ≡ goes_on routed
unfolding dispatch_rfp atproto_market.Market.Server.read_body atproto_market.Market.Server.given
    atproto_market.Market.Server.required atproto_market.Market.Server.authorize
    atproto_market.Market.Server.text_of atproto_market.Market.Server.verify_authored
    atproto_market.Market.Server.strip_resolved atproto_market.Market.Server.xrpc_error
    atproto_market.Market.Auth.verify_market_service_auth atproto_market.Market.Auth.extract_bearer
    atproto_market.Market.Auth.audience_of atproto_market.Market.Auth.acceptable
    atproto_market.Market.Auth.service_did_for_host atproto_market.Market.Auth.issuer_of
    atproto_market.Market.Auth.accept_dids atproto_market.Market.Auth.accept_ids get set
    atproto_market.Records.at_uri_authority atproto_market.Common.part
    atproto_market.Common.remove_first atproto_market.Common.split atproto_market.Common.split_from
    atproto_market.Common.strip_prefix atproto_market.Market.Signing.verify_record_signatures
    atproto_market.Market.Signing.entry_counts atproto_market.Market.Signing.is_bound
    atproto_market.Market.Signing.signing_did atproto_market.Market.Attest.attestation_cid
    atproto_market.Market.Attest.entries_of atproto_market.Market.Attest.inline_entries
    atproto_market.Market.Attest.is_inline_entry atproto_market.Market.Attest.normalize_signature
    atproto_market.Market.Attest.prepared_metadata atproto_market.Market.Attest.prepared_record
    atproto_market.Market.Attest.verify_inline_attestation atproto_market.Common.Fields.fields_drop
    atproto_market.Common.Fields.fields_set atproto_market.Common.Json.fields_get
    atproto_market.Common.Json.member atproto_market.Common.includes
    atproto_market.Market.Server.Routing.bucket_of atproto_market.Market.Server.Routing.route
    atproto_market.Market.Server.Submit.hand_over atproto_market.Market.Server.Submit.payload_nsid
    atproto_market.Records.drop_chars atproto_market.Records.nsid_from_uri
    atproto_market.Records.parse_at_uri atproto_market.Market.Server.Submit.rfp_nsid
    atproto_market.Market.Server.Submit.scope_filter
event_dispatched = refl

dispatch_rfp-IsDispatched_example : IsDispatched deps rfp_config (some "svc") routed
dispatch_rfp-IsDispatched_example =
    dispatch_rfp-IsDispatched deps request rfp_config "at://did:plc:a/x.event/1" (str "c1")
      "did:plc:a" (some "svc") routed event_dispatched

-- The rfp is resolved, is signed, passes the filter and is handed to the callback, which throws.
abbrev pushed_body : Json
pushed_body =
    object (field "rfpUri" (str "at://did:plc:a/x.event/1") (field "rfpCid" (str "c1") end))

abbrev pushed : Request
pushed = record { auth_header = some "Bearer abc"; body = some pushed_body }

abbrev failing : Routed String → Attempt (Option HandlerResult)
failing to = thrown "no provider"

whole_push : submit_rfp deps rfp_config pushed ≡ goes_on routed
unfolding submit_rfp atproto_market.Market.Server.Submit.caught dispatch_rfp
    atproto_market.Market.Server.read_body atproto_market.Market.Server.given
    atproto_market.Market.Server.required atproto_market.Market.Server.authorize
    atproto_market.Market.Server.text_of atproto_market.Market.Server.verify_authored
    atproto_market.Market.Server.strip_resolved atproto_market.Market.Server.xrpc_error
    atproto_market.Market.Auth.verify_market_service_auth atproto_market.Market.Auth.extract_bearer
    atproto_market.Market.Auth.audience_of atproto_market.Market.Auth.acceptable
    atproto_market.Market.Auth.service_did_for_host atproto_market.Market.Auth.issuer_of
    atproto_market.Market.Auth.accept_dids atproto_market.Market.Auth.accept_ids get set
    atproto_market.Records.at_uri_authority atproto_market.Common.part
    atproto_market.Common.remove_first atproto_market.Common.split atproto_market.Common.split_from
    atproto_market.Common.strip_prefix atproto_market.Market.Signing.verify_record_signatures
    atproto_market.Market.Signing.entry_counts atproto_market.Market.Signing.is_bound
    atproto_market.Market.Signing.signing_did atproto_market.Market.Attest.attestation_cid
    atproto_market.Market.Attest.entries_of atproto_market.Market.Attest.inline_entries
    atproto_market.Market.Attest.is_inline_entry atproto_market.Market.Attest.normalize_signature
    atproto_market.Market.Attest.prepared_metadata atproto_market.Market.Attest.prepared_record
    atproto_market.Market.Attest.verify_inline_attestation atproto_market.Common.Fields.fields_drop
    atproto_market.Common.Fields.fields_set atproto_market.Common.Json.fields_get
    atproto_market.Common.Json.member atproto_market.Common.includes
    atproto_market.Market.Server.Routing.bucket_of atproto_market.Market.Server.Routing.route
    atproto_market.Market.Server.Submit.hand_over atproto_market.Market.Server.Submit.payload_nsid
    atproto_market.Records.drop_chars atproto_market.Records.nsid_from_uri
    atproto_market.Records.parse_at_uri atproto_market.Market.Server.Submit.rfp_nsid
    atproto_market.Market.Server.Submit.scope_filter
whole_push = refl

pushed_fails : respond_rfp failing (submit_rfp deps rfp_config pushed) ≡ returned internal_error
unfolding respond_rfp
pushed_fails = rw whole_push refl

with_uri :
    (body uri : Json)
    → pushed.body ≡ some body
    → member body "rfpUri" ≡ some uri
    → (u : String) × (uri ≡ str u)
unfolding member fields_get
with_uri body uri b u = let is : pushed_body ≡ body = cc b in text_uri (rw (← is) at u)
  where
    text_uri : some (str "at://did:plc:a/x.event/1") ≡ some uri → (u : String) × (uri ≡ str u)
    text_uri h = ("at://did:plc:a/x.event/1", sym (cc h))

submit_rfp_responds_example :
    (r : Response) × (respond_rfp failing (submit_rfp deps rfp_config pushed) ≡ returned r)
submit_rfp_responds_example = submit_rfp_responds deps rfp_config pushed with_uri failing
