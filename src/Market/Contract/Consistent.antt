-- ===== src/Market/Contract/Consistent.antt =====
-- What the records of a resolved contract have in common.
use atproto_market.Common.{String, Bool, true, false, ◌≡◌, refl, arith, some, List, eq_iff}
use atproto_market.Common.Attempt.{returned, >>=-eq-returned, returned-eq}
use atproto_market.Common.Json.{Json}
use atproto_market.Records.{RecordRef, refs_equal, at_uri_authority}
use atproto_market.Market.Attest.{Crypto}
use atproto_market.Market.Signing.{verify_record_signatures}
use atproto_market.Market.Signing.Author.{IsSigned, verify_record_signatures-IsSigned}
use atproto_market.Market.Contract.{
  Accept, Bid, Rfp, ContractGraph, Resolver, document_bindings, demand_true, signed_by_authors,
  resolve_config, resolve_contract_graph,
}

-- The graph's records are those that the accept and they themselves refer to, and the bid is for the
-- rfp of the accept.
pub record IsConsistent (r : Resolver) (accept : Accept) (g : ContractGraph) : Type 0 where
  pub bid : r.resolve_bid accept.bid ≡ returned g.bid
  pub same_rfp : g.bid.rfp ≡ accept.rfp
  pub rfp : r.resolve_rfp accept.rfp ≡ returned g.rfp
  pub rfp_payload : r.resolve g.rfp.payload ≡ returned g.rfp_payload
  pub bid_payload : r.resolve g.bid.payload ≡ returned g.bid_payload
  pub bid_config : resolve_config r g.bid.config ≡ returned g.bid_config

refs_equal_lem : (a b : RecordRef) → refs_equal a b ≡ true → a ≡ b
unfolding refs_equal
refs_equal_lem a b h =
    let uri = (eq_iff a.uri b.uri).0 (ground (arith, h)) in
    let cid = (eq_iff a.cid b.cid).0 (ground (arith, h)) in cc (uri, cid)

demand_true_lem : (b : Bool) (e : String) (x : Unit {0}) → demand_true b e ≡ returned x → b ≡ true
unfolding demand_true
demand_true_lem true e x h = refl
demand_true_lem false e x h = absurd (ground (arith, h))

module _ (c : Crypto) (keys : Json → List String) where
  signed_by_authors_lem :
      (bid : Bid) (rfp : Rfp) (x : Unit {0})
      → signed_by_authors c keys bid rfp ≡ returned x
      → IsSigned c (document_bindings keys) bid.bare (at_uri_authority bid.uri)
        × IsSigned c (document_bindings keys) rfp.bare (at_uri_authority rfp.uri)
  unfolding signed_by_authors
  signed_by_authors_lem bid rfp x h =
      let b =
        verify_record_signatures c (some (document_bindings keys)) bid.bare
          (at_uri_authority bid.uri) in
      let (y, first, second) =
        >>=-eq-returned (demand_true b "Bid is missing a valid badge.blue signature") _ h in
      (
        verify_record_signatures-IsSigned c (document_bindings keys) bid.bare
            (at_uri_authority bid.uri)
            (demand_true_lem b "Bid is missing a valid badge.blue signature" y first),
        verify_record_signatures-IsSigned c (document_bindings keys) rfp.bare
            (at_uri_authority rfp.uri)
            (demand_true_lem _ "RFP is missing a valid badge.blue signature" x second),
      )

  -- A contract that is resolved with its signatures verified consists of the records that are referred
  -- to; its bid is for the accept's rfp; and the bid and the rfp are signed in the repositories that
  -- they lie in.
  pub resolve_contract_graph-IsConsistent :
      (r : Resolver) (accept : Accept) (g : ContractGraph)
      → resolve_contract_graph c keys true r accept ≡ returned g
      → IsConsistent r accept g
        × IsSigned c (document_bindings keys) g.bid.bare (at_uri_authority g.bid.uri)
        × IsSigned c (document_bindings keys) g.rfp.bare (at_uri_authority g.rfp.uri)
  unfolding resolve_contract_graph
  resolve_contract_graph-IsConsistent r accept g h =
      let (bid, b, h1) = >>=-eq-returned (r.resolve_bid accept.bid) _ h in
      let (x, s, h2) =
        >>=-eq-returned
          (demand_true (refs_equal bid.rfp accept.rfp) "Accept.rfp does not match Bid.rfp") _ h1 in
      let (rfp, f, h3) = >>=-eq-returned (r.resolve_rfp accept.rfp) _ h2 in
      let (y, v, h4) = >>=-eq-returned (signed_by_authors c keys bid rfp) _ h3 in
      let (rp, p, h5) = >>=-eq-returned (r.resolve rfp.payload) _ h4 in
      let (bp, q, h6) = >>=-eq-returned (r.resolve bid.payload) _ h5 in
      let (bc, o, h7) = >>=-eq-returned (resolve_config r bid.config) _ h6 in
      let is = returned-eq h7 in
      let same =
        refs_equal_lem bid.rfp accept.rfp (demand_true_lem (refs_equal bid.rfp accept.rfp) _ x s) in
      let (bid_signed, rfp_signed) = signed_by_authors_lem bid rfp y v in
      rw (← is) (
        record {
          bid = b;
          same_rfp = same;
          rfp = f;
          rfp_payload = p;
          bid_payload = q;
          bid_config = o;
        },
        bid_signed,
        rfp_signed,
      )
