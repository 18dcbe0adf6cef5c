-- ===== src/Market/Server/Submit.antt =====
-- The four submit handlers (lib/market-atproto/server.ts): what each hands to its callback.
pub mod Authors
pub mod Dispatch
pub mod Quiet
use atproto_market.Common.{
  String, Bool, true, false, not, ◌&&◌, Option, none, some, List, [], ◌∷◌, if◌then◌else◌, ◌==◌,
}
use atproto_market.Common.Dict.{Dict, keys}
use atproto_market.Common.Attempt.{Attempt, returned, thrown}
use atproto_market.Common.Json.{
  Json, Fields, null, boolean, str, object, end, field, fields_get, member,
}
use atproto_market.Records.{nsid_from_uri}
use atproto_market.ComputeRequest.Events.{event_nsid}
use atproto_market.Market.Server.{
  Request, Response, Deps, Outcome, goes_on, responds, throws, ◌>>=◌, ◌>>◌, of_attempt, xrpc_error,
  ok_response, HandlerResult, finish, is_truthy, read_body, required, authorize, verify_authored,
  strip_resolved, fields_of,
}
use atproto_market.Market.Server.Routing.{bucket_of, route}

abbrev pub submit_rfp_lxm : String
submit_rfp_lxm = "com.publicdomainrelay.temp.market.submitRfp"

abbrev pub submit_bid_lxm : String
submit_bid_lxm = "com.publicdomainrelay.temp.market.submitBid"

abbrev pub submit_accept_lxm : String
submit_accept_lxm = "com.publicdomainrelay.temp.market.submitAccept"

abbrev pub submit_event_lxm : String
submit_event_lxm = "com.publicdomainrelay.temp.market.submitEvent"

-- What the callbacks are called with: the record with its reference, and the did of the caller.
pub record Call : Type 0 where
  pub uri : String
  pub cid : Json
  pub fields : Fields
  pub issuer_did : String

-- The callback of a routed record, with the collection of its payload.
pub record Routed (C : Type 0) : Type 0 where
  pub callback : C
  pub service_id : Option String
  pub payload_nsid : Option String
  pub call : Call

-- `nsidFromUri(ref.uri)`: `undefined` has no property, and only a text has `slice`.
nsid_of_uri : Option Json → Outcome (Option String)
unfolding nsid_from_uri
nsid_of_uri (some (str uri)) = goes_on (nsid_from_uri uri)
nsid_of_uri _ = throws "uri.slice is not a function"

unfoldable pub payload_nsid : Option Json → Outcome (Option String)
unfolding nsid_of_uri member
payload_nsid none = throws "Cannot read properties of undefined (reading 'uri')"
payload_nsid (some null) = throws "Cannot read properties of null (reading 'uri')"
payload_nsid (some v) = nsid_of_uri (member v "uri")

-- Without a callback the record is ignored.
unfoldable pub hand_over :
    {C : Type 0} → Option C → Option String → Option String → Call → Outcome (Routed C)
hand_over none service_id nsid call = responds ok_response
hand_over (some cb) service_id nsid call =
    goes_on (record { callback = cb; service_id = service_id; payload_nsid = nsid; call = call })

pub record RfpConfig (C : Type 0) : Type 0 where
  pub callbacks : Dict (Dict C)
  pub scope_filter : Option (Call → Attempt Bool)

declined : Response
declined = record {
  status = 403;
  body = object (field "ok" (boolean false) (field "error" (str "scope filter declined") end));
}

check_scope : Attempt Bool → Outcome (Unit {0})
unfolding declined
check_scope (returned true) = goes_on tt
check_scope (returned false) = responds declined
check_scope (thrown e) = throws e

unfoldable pub scope_filter : {C : Type 0} → RfpConfig C → Call → Outcome (Unit {0})
unfolding check_scope
scope_filter cfg call = elim cfg.scope_filter [
  | none ↦ goes_on tt
  | some filter ↦ check_scope (filter call)
]

-- `rfp.payload ? nsidFromUri(rfp.payload.uri) : ""`
unfoldable pub rfp_nsid : Fields → Outcome (Option String)
rfp_nsid rfp =
    if is_truthy (fields_get rfp "payload")
    then payload_nsid (fields_get rfp "payload")
    else goes_on (some "")

-- `createRfpDispatcher`: `issuer_did` is whoever the caller says. The filter sees the bare record.
unfoldable pub dispatch_rfp :
    {C : Type 0} → Deps → RfpConfig C → String → Json → String → Option String → Outcome (Routed C)
unfolding rfp_nsid
dispatch_rfp d cfg uri cid issuer_did service_id = do
  rfp ← of_attempt (d.resolve uri cid)
  verify_authored d (strip_resolved rfp) uri
  scope_filter cfg
      (record { uri = uri; cid = cid; fields = strip_resolved rfp; issuer_did = issuer_did })
  nsid ← rfp_nsid rfp
  let bucket = bucket_of service_id (keys cfg.callbacks)
  hand_over (route cfg.callbacks bucket nsid) bucket nsid
      (record { uri = uri; cid = cid; fields = rfp; issuer_did = issuer_did })

-- `try { ... } catch`: an exception becomes a response.
abbrev pub internal_error : Response
internal_error = record {
  status = 500;
  body = object (field "ok" (boolean false) (field "error" (str "internal error") end));
}

unfoldable pub caught {ℓ} : {A : Type ℓ} → Outcome A → Outcome A
caught (throws e) = responds internal_error
caught o = o

unfoldable pub submit_rfp : {C : Type 0} → Deps → RfpConfig C → Request → Outcome (Routed C)
submit_rfp d cfg req = do
  body ← read_body req
  uri ← required "missing rfpUri or rfpCid" body "rfpUri"
  cid ← required "missing rfpUri or rfpCid" body "rfpCid"
  auth ← authorize d req submit_rfp_lxm (keys cfg.callbacks) uri
  caught (dispatch_rfp d cfg auth.0 cid auth.1.issuer_did auth.1.service_id)

-- The callback of an rfp is awaited inside the same `try`.
unfoldable pub respond_rfp :
    {C : Type 0}
    → (Routed C → Attempt (Option HandlerResult))
    → Outcome (Routed C)
    → Attempt Response
unfolding finish
respond_rfp call (responds r) = returned r
respond_rfp call (throws e) = thrown e
respond_rfp call (goes_on a) = elim (call a) [
  | returned r ↦ returned (finish r)
  | thrown e ↦ returned internal_error
]

unfoldable pub submit_bid : Deps → List String → Request → Outcome Call
submit_bid d service_ids req = do
  body ← read_body req
  uri ← required "missing uri, cid, or record" body "uri"
  cid ← required "missing uri, cid, or record" body "cid"
  bid ← required "missing uri, cid, or record" body "record"
  auth ← authorize d req submit_bid_lxm service_ids uri
  verify_authored d (fields_of bid) auth.0
  goes_on
      (record { uri = auth.0; cid = cid; fields = fields_of bid; issuer_did = auth.1.issuer_did })

unfoldable pub submit_accept : Deps → List String → Request → Outcome Call
submit_accept d service_ids req = do
  body ← read_body req
  uri ← required "missing acceptUri or acceptCid" body "acceptUri"
  cid ← required "missing acceptUri or acceptCid" body "acceptCid"
  auth ← authorize d req submit_accept_lxm service_ids uri
  accept ← of_attempt (d.resolve auth.0 cid)
  verify_authored d (strip_resolved accept) auth.0
  goes_on (record { uri = auth.0; cid = cid; fields = accept; issuer_did = auth.1.issuer_did })

-- `event.$type && event.$type !== EVENT_NSID`
other_type : Option Json → Bool
other_type (some (str t)) = not (t == event_nsid)
other_type _ = true

event_typed : Fields → Outcome (Unit {0})
unfolding other_type
event_typed event =
    if is_truthy (fields_get event "$type") && other_type (fields_get event "$type")
    then responds
        (xrpc_error "InvalidRequest" "expected com.publicdomainrelay.temp.market.event" 400)
    else goes_on tt

-- The record in the body is only asked for its receipt and its payload; the event is resolved.
unfoldable pub submit_event : {C : Type 0} → Deps → Dict (Dict C) → Request → Outcome (Routed C)
unfolding event_typed member
submit_event d callbacks req = do
  body ← read_body req
  uri ← required "missing uri, cid, or record" body "uri"
  cid ← required "missing uri, cid, or record" body "cid"
  sent ← required "missing uri, cid, or record" body "record"
  receipt ← required "missing uri, cid, or record" sent "receipt"
  payload ← required "missing uri, cid, or record" sent "payload"
  auth ← authorize d req submit_event_lxm (keys callbacks) uri
  event ← of_attempt (d.resolve auth.0 cid)
  event_typed event
  verify_authored d (strip_resolved event) auth.0
  nsid ← payload_nsid (fields_get event "payload")
  let bucket = bucket_of auth.1.service_id (keys callbacks)
  hand_over (route callbacks bucket nsid) bucket nsid
      (record { uri = auth.0; cid = cid; fields = event; issuer_did = auth.1.issuer_did })

-- In the background, the callback's result is not waited for.
unfoldable pub respond_event :
    {C : Type 0}
    → Bool
    → (Routed C → Attempt (Option HandlerResult))
    → Outcome (Routed C)
    → Attempt Response
unfolding finish
respond_event background call (responds r) = returned r
respond_event background call (throws e) = thrown e
respond_event true call (goes_on a) = returned ok_response
respond_event false call (goes_on a) = elim (call a) [
  | returned r ↦ returned (finish r)
  | thrown e ↦ thrown e
]
