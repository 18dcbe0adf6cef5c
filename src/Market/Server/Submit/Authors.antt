-- ===== src/Market/Server/Submit/Authors.antt =====
-- Whose records reach the callbacks of the submit handlers.
use atproto_market.Common.{
  String, ◌≡◌, refl, arith, Option, none, some, List, ◌==◌, eq_iff, Bool-cases, inl, inr,
}
use atproto_market.Common.Dict.{Dict, keys}
use atproto_market.Common.Attempt.{Attempt, returned, thrown}
use atproto_market.Common.Json.{Json, Fields, fields_get}
use atproto_market.Records.{at_uri_authority}
use atproto_market.Market.Auth.{ServiceAuth, verify_market_service_auth}
use atproto_market.Market.Signing.{verify_record_signatures}
use atproto_market.Market.Signing.Author.{IsSigned, verify_record_signatures-IsSigned}
use atproto_market.Market.Server.{
  Request, Deps, Outcome, goes_on, responds, throws, ◌>>=◌, of_attempt, options_of, authorize,
  check_auth, check_author, text_of, verify_authored, strip_resolved, fields_of, read_body,
  required,
}
use atproto_market.Market.Server.Routing.{bucket_of, route}
use atproto_market.Market.Server.Submit.{
  Call, Routed, hand_over, submit_bid, submit_accept, submit_event, submit_bid_lxm,
  submit_accept_lxm, submit_event_lxm, payload_nsid, event_typed,
}

pub >>=-eq-goes_on {ℓ κ} :
    {A : Type ℓ} {B : Type κ} (m : Outcome A) (f : A → Outcome B) {b : B}
    → (m >>= f) ≡ goes_on b
    → (a : A) × (m ≡ goes_on a) × (f a ≡ goes_on b)
>>=-eq-goes_on (goes_on a) f h = (a, refl, h)
>>=-eq-goes_on (responds r) f h = cc
>>=-eq-goes_on (throws e) f h = cc

-- The request bears a token, minted for this method and one of this service's audiences, of the did
-- in whose repository the record lies, and the record is signed there.
pub record IsReceived (d : Deps) (req : Request) (lxm : String) (ids : List String) (call : Call)
    (fs : Fields) : Type 0 where
  pub auth : ServiceAuth
  pub verified :
      verify_market_service_auth d.trim d.show d.verify_jwt (options_of d req lxm ids)
      ≡ returned auth
  pub issuer : auth.issuer_did ≡ call.issuer_did
  pub author : call.issuer_did ≡ at_uri_authority call.uri
  pub signed : IsSigned d.crypto d.bindings fs (at_uri_authority call.uri)

-- An event that was resolved and received, its payload's collection, and the callback that the table
-- has for the service id of the token, or for the only one that is configured.
pub record IsRouted {C : Type 0} (d : Deps) (req : Request) (callbacks : Dict (Dict C))
    (to : Routed C) : Type 0 where
  pub resolved : d.resolve to.call.uri to.call.cid ≡ returned to.call.fields
  pub nsid : payload_nsid (fields_get to.call.fields "payload") ≡ goes_on to.payload_nsid
  pub received :
      IsReceived d req submit_event_lxm (keys callbacks) to.call (strip_resolved to.call.fields)
  pub service_id : to.service_id ≡ bucket_of received.auth.service_id (keys callbacks)
  pub found : route callbacks to.service_id to.payload_nsid ≡ some to.callback

-- What an authorisation is of.
check_auth_lem :
    (d : Deps) (v : Json) (m : Attempt ServiceAuth) (r : String × ServiceAuth)
    → check_auth d v m ≡ goes_on r
    → (m ≡ returned r.1) × (r.1.issuer_did ≡ at_uri_authority r.0)
unfolding check_auth check_author
check_auth_lem d v (thrown e) r h = absurd (ground (arith, h))
check_auth_lem d v (returned auth) r h =
    let (u, text, rest) = >>=-eq-goes_on (text_of v) (check_author auth) h in
    elim (Bool-cases (auth.issuer_did == at_uri_authority u)) [
      | inr other ↦ absurd (ground (arith, rest, other))
      | inl same ↦
          let is : r ≡ (u, auth) = ground (arith, rest, same) in
          rw is (refl, (eq_iff auth.issuer_did (at_uri_authority u)).0 same)
    ]

module _ (d : Deps) (req : Request) where
  pub authorize_lem :
      (lxm : String) (ids : List String) (v : Json) (r : String × ServiceAuth)
      → authorize d req lxm ids v ≡ goes_on r
      → (verify_market_service_auth d.trim d.show d.verify_jwt (options_of d req lxm ids)
          ≡ returned r.1)
        × (r.1.issuer_did ≡ at_uri_authority r.0)
  unfolding authorize
  authorize_lem lxm ids v r h = check_auth_lem d v _ r h

  pub verify_authored-IsSigned :
      (fs : Fields) (uri : String) (x : Unit {0})
      → verify_authored d fs uri ≡ goes_on x
      → IsSigned d.crypto d.bindings fs (at_uri_authority uri)
  unfolding verify_authored
  verify_authored-IsSigned fs uri x h =
      elim (Bool-cases
        (verify_record_signatures d.crypto (some d.bindings) fs (at_uri_authority uri))) [
          | inl signed ↦
              verify_record_signatures-IsSigned d.crypto d.bindings fs (at_uri_authority uri) signed
          | inr unsigned ↦ absurd (ground (arith, h, unsigned))
        ]

  pub of_attempt_lem {ℓ} :
      {A : Type ℓ} (m : Attempt A) (a : A) → of_attempt m ≡ goes_on a → m ≡ returned a
  of_attempt_lem (returned b) a h = cc h
  of_attempt_lem (thrown e) a h = absurd (ground (arith, h))

  -- The callback of a bid that was sent is called for the did of a token of this service for
  -- submitBid, whose repository the bid lies in and which the bid in the body is signed for.
  pub submit_bid-IsReceived :
      (ids : List String) (call : Call)
      → submit_bid d ids req ≡ goes_on call
      → IsReceived d req submit_bid_lxm ids call call.fields
  unfolding submit_bid
  submit_bid-IsReceived ids call h =
      let (body, b, h1) = >>=-eq-goes_on (read_body req) _ h in
      let (uri, u, h2) = >>=-eq-goes_on (required "missing uri, cid, or record" body "uri") _ h1 in
      let (cid, c, h3) = >>=-eq-goes_on (required "missing uri, cid, or record" body "cid") _ h2 in
      let (bid, s, h4) =
        >>=-eq-goes_on (required "missing uri, cid, or record" body "record") _ h3 in
      let (auth, a, h5) = >>=-eq-goes_on (authorize d req submit_bid_lxm ids uri) _ h4 in
      let (x, v, h6) = >>=-eq-goes_on (verify_authored d (fields_of bid) auth.0) _ h5 in
      let (verified, author) = authorize_lem submit_bid_lxm ids uri auth a in
      let signed = verify_authored-IsSigned (fields_of bid) auth.0 x v in
      let is : (record {
        uri = auth.0;
        cid = cid;
        fields = fields_of bid;
        issuer_did = auth.1.issuer_did;
      })
          ≡ call =
        cc h6 in
      rw (← is) (record {
        auth = auth.1;
        verified = verified;
        issuer = refl;
        author = author;
        signed = signed;
      })

  -- The callback of an accept is called with the record that was resolved, for the did of a token of
  -- this service for submitAccept, whose repository it lies in and which it is signed for.
  pub submit_accept-IsReceived :
      (ids : List String) (call : Call)
      → submit_accept d ids req ≡ goes_on call
      → (d.resolve call.uri call.cid ≡ returned call.fields)
        × IsReceived d req submit_accept_lxm ids call (strip_resolved call.fields)
  unfolding submit_accept
  submit_accept-IsReceived ids call h =
      let (body, b, h1) = >>=-eq-goes_on (read_body req) _ h in
      let (uri, u, h2) =
        >>=-eq-goes_on (required "missing acceptUri or acceptCid" body "acceptUri") _ h1 in
      let (cid, c, h3) =
        >>=-eq-goes_on (required "missing acceptUri or acceptCid" body "acceptCid") _ h2 in
      let (auth, a, h4) = >>=-eq-goes_on (authorize d req submit_accept_lxm ids uri) _ h3 in
      let (accept, r, h5) = >>=-eq-goes_on (of_attempt (d.resolve auth.0 cid)) _ h4 in
      let (x, v, h6) = >>=-eq-goes_on (verify_authored d (strip_resolved accept) auth.0) _ h5 in
      let (verified, author) = authorize_lem submit_accept_lxm ids uri auth a in
      let resolved = of_attempt_lem (d.resolve auth.0 cid) accept r in
      let signed = verify_authored-IsSigned (strip_resolved accept) auth.0 x v in
      let is : (record { uri = auth.0; cid = cid; fields = accept; issuer_did = auth.1.issuer_did })
          ≡ call =
        cc h6 in
      rw (← is) (
        resolved,
        record {
          auth = auth.1;
          verified = verified;
          issuer = refl;
          author = author;
          signed = signed;
        },
      )

  pub hand_over_lem :
      {C : Type 0} (P : Routed C → Type 0) (o : Option C) (id nsid : Option String) (call : Call)
      (to : Routed C)
      → ((cb : C)
          → o ≡ some cb
          → P (record { callback = cb; service_id = id; payload_nsid = nsid; call = call }))
      → hand_over o id nsid call ≡ goes_on to
      → P to
  unfolding hand_over
  hand_over_lem P none id nsid call to p h = absurd (ground (arith, h))
  hand_over_lem P (some cb) id nsid call to p h =
      let is : (record { callback = cb; service_id = id; payload_nsid = nsid; call = call }) ≡ to =
        cc h in
      rw (← is) (p cb refl)

  -- The callback of an event is the one that the table has for the service id of the token, or for the
  -- only one configured, and for the collection of the resolved event's payload; it is called for the
  -- did of a token of this service for submitEvent, whose repository the event lies in and which it
  -- is signed for.
  pub submit_event-IsReceived :
      {C : Type 0} (callbacks : Dict (Dict C)) (to : Routed C)
      → submit_event d callbacks req ≡ goes_on to
      → IsRouted d req callbacks to
  unfolding submit_event
  submit_event-IsReceived {C} callbacks to h =
      let (body, b, h1) = >>=-eq-goes_on (read_body req) _ h in
      let (uri, u, h2) = >>=-eq-goes_on (required "missing uri, cid, or record" body "uri") _ h1 in
      let (cid, c, h3) = >>=-eq-goes_on (required "missing uri, cid, or record" body "cid") _ h2 in
      let (sent, s, h4) =
        >>=-eq-goes_on (required "missing uri, cid, or record" body "record") _ h3 in
      let (receipt, rc, h5) =
        >>=-eq-goes_on (required "missing uri, cid, or record" sent "receipt") _ h4 in
      let (payload, p, h6) =
        >>=-eq-goes_on (required "missing uri, cid, or record" sent "payload") _ h5 in
      let (auth, a, h7) =
        >>=-eq-goes_on (authorize d req submit_event_lxm (keys callbacks) uri) _ h6 in
      let (event, r, h8) = >>=-eq-goes_on (of_attempt (d.resolve auth.0 cid)) _ h7 in
      let (y, t, h9) = >>=-eq-goes_on (event_typed event) _ h8 in
      let (x, v, h10) = >>=-eq-goes_on (verify_authored d (strip_resolved event) auth.0) _ h9 in
      let (nsid, n, h11) = >>=-eq-goes_on (payload_nsid (fields_get event "payload")) _ h10 in
      let (verified, author) = authorize_lem submit_event_lxm (keys callbacks) uri auth a in
      let resolved = of_attempt_lem (d.resolve auth.0 cid) event r in
      let signed = verify_authored-IsSigned (strip_resolved event) auth.0 x v in
      hand_over_lem (IsRouted d req callbacks)
        (route callbacks (bucket_of auth.1.service_id (keys callbacks)) nsid)
        (bucket_of auth.1.service_id (keys callbacks)) nsid
        (record { uri = auth.0; cid = cid; fields = event; issuer_did = auth.1.issuer_did }) to
        (λ cb found. record {
          resolved = resolved;
          nsid = n;
          found = found;
          service_id = refl;
          received = record {
            auth = auth.1;
            verified = verified;
            issuer = refl;
            author = author;
            signed = signed;
          };
        })
        h11
