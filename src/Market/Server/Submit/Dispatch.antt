-- ===== src/Market/Server/Submit/Dispatch.antt =====
-- Which rfps are dispatched, and how a push of an rfp ends.
use atproto_market.Common.{String, Bool, true, false, ◌≡◌, refl, arith, Option, some}
use atproto_market.Common.Dict.{keys}
use atproto_market.Common.Attempt.{Attempt, returned, thrown}
use atproto_market.Common.Json.{Json}
use atproto_market.Records.{at_uri_authority}
use atproto_market.Market.Signing.Author.{IsSigned}
use atproto_market.Market.Server.{
  Request, Deps, goes_on, of_attempt, verify_authored, strip_resolved,
}
use atproto_market.Market.Server.Routing.{bucket_of, route}
use atproto_market.Market.Server.Submit.{
  Call, Routed, RfpConfig, scope_filter, check_scope, dispatch_rfp, rfp_nsid,
}
use atproto_market.Market.Server.Submit.Authors.{
  >>=-eq-goes_on, verify_authored-IsSigned, of_attempt_lem, hand_over_lem,
}

-- The rfp was resolved, is signed in the repository that it lies in, and passed the filter, if there
-- is one; the callback is the one that the table has for the service id and the payload.
pub record IsDispatched {C : Type 0} (d : Deps) (cfg : RfpConfig C) (service_id : Option String)
    (to : Routed C) : Type 0 where
  pub resolved : d.resolve to.call.uri to.call.cid ≡ returned to.call.fields
  pub signed :
      IsSigned d.crypto d.bindings (strip_resolved to.call.fields) (at_uri_authority to.call.uri)
  pub passed :
      (filter : Call → Attempt Bool)
      → cfg.scope_filter ≡ some filter
      → filter (record to.call { fields = strip_resolved to.call.fields }) ≡ returned true
  pub nsid : rfp_nsid to.call.fields ≡ goes_on to.payload_nsid
  pub bucket : to.service_id ≡ bucket_of service_id (keys cfg.callbacks)
  pub found : route cfg.callbacks to.service_id to.payload_nsid ≡ some to.callback

scope_filter_lem :
    {C : Type 0} (cfg : RfpConfig C) (call : Call) (x : Unit {0})
    → scope_filter cfg call ≡ goes_on x
    → (filter : Call → Attempt Bool) → cfg.scope_filter ≡ some filter
    → filter call ≡ returned true
unfolding scope_filter check_scope
scope_filter_lem cfg call x h filter there = asked (filter call) (rw there at h)
  where
    asked : (m : Attempt Bool) → check_scope m ≡ goes_on x → m ≡ returned true
    asked (returned true) h = refl
    asked (returned false) h = absurd (ground (arith, h))
    asked (thrown e) h = absurd (ground (arith, h))

module _ {C : Type 0} (d : Deps) (req : Request) (cfg : RfpConfig C) where
  -- An rfp that is dispatched, whether it was pushed or found, was resolved, is signed in the
  -- repository that it lies in, and passed the scope filter where there is one; its callback is the
  -- one that the table has for the service id given, or for the only one that is configured, and for
  -- the collection of the rfp's payload.
  pub dispatch_rfp-IsDispatched :
      (uri : String) (cid : Json) (issuer : String) (service_id : Option String) (to : Routed C)
      → dispatch_rfp d cfg uri cid issuer service_id ≡ goes_on to
      → IsDispatched d cfg service_id to
  unfolding dispatch_rfp
  dispatch_rfp-IsDispatched uri cid issuer service_id to h =
      let (rfp, r, h1) = >>=-eq-goes_on (of_attempt (d.resolve uri cid)) _ h in
      let (x, v, h2) = >>=-eq-goes_on (verify_authored d (strip_resolved rfp) uri) _ h1 in
      let seen : Call = record {
        uri = uri;
        cid = cid;
        fields = strip_resolved rfp;
        issuer_did = issuer;
      } in
      let (y, s, h3) = >>=-eq-goes_on (scope_filter cfg seen) _ h2 in
      let (nsid, n, h4) = >>=-eq-goes_on (rfp_nsid rfp) _ h3 in
      let bucket = bucket_of service_id (keys cfg.callbacks) in
      hand_over_lem d req (IsDispatched d cfg service_id) (route cfg.callbacks bucket nsid) bucket
        nsid (record { uri = uri; cid = cid; fields = rfp; issuer_did = issuer }) to
        (λ cb found. record {
          resolved = of_attempt_lem d req (d.resolve uri cid) rfp r;
          signed = verify_authored-IsSigned d req (strip_resolved rfp) uri x v;
          passed = scope_filter_lem cfg seen y s;
          nsid = n;
          bucket = refl;
          found = found;
        })
        h4
