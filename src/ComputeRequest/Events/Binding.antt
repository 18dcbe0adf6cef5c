-- ===== src/ComputeRequest/Events/Binding.antt =====
-- Which events are bound to a receipt, stated apart from the order of the code's tests.
use atproto_market.Common.{
  String, ◌≡◌, ◌↔◌, ap, ◌∙◌, true, false, Option, none, some, arith, eq_iff, is_empty, Option-cases,
  inl, inr,
}
use atproto_market.Common.Checked.{Checked, accepted}
use atproto_market.Common.Json.{fields_get, as_text, as_integer}
use atproto_market.Records.{RecordRef}
use atproto_market.ComputeRequest.State.{Termination}
use atproto_market.ComputeRequest.Events.{
  Envelope, event_nsid, terminated_nsid, authority_of, collection_of, as_record_ref, type_allows,
  bound_event_payload, termination_of,
}

-- The reference is there and has the uri of the receipt.
abbrev pub NamesReceipt : Option RecordRef → RecordRef → Type 0
NamesReceipt none receipt = ⊥
NamesReceipt (some named) receipt = named.uri ≡ receipt.uri

-- An event of the bidder that wrote the receipt: it is a market event, it names the receipt, and
-- it and its payload, a record of the kind `nsid`, stand in the repository of that bidder.
pub record IsBound (e : Envelope) (receipt : RecordRef) (nsid : String) (p : RecordRef)
    : Type 0 where
  pub is_event : type_allows (fields_get e.record_fields "$type") event_nsid ≡ true
  pub names : NamesReceipt (as_record_ref (fields_get e.record_fields "receipt")) receipt
  pub author : authority_of e.uri ≡ authority_of receipt.uri
  pub payload : as_record_ref (fields_get e.record_fields "payload") ≡ some p
  pub payload_author : authority_of p.uri ≡ authority_of receipt.uri
  pub payload_kind : collection_of p.uri ≡ nsid
  pub payload_type : type_allows (fields_get e.payload "$type") nsid ≡ true

module _ (e : Envelope) (receipt : RecordRef) (nsid name : String) where
  module _ (named p : RecordRef) where
    IsBound-with_refs :
        as_record_ref (fields_get e.record_fields "receipt") ≡ some named
        → as_record_ref (fields_get e.record_fields "payload") ≡ some p
        → (bound_event_payload e receipt nsid name ≡ accepted p) ↔ IsBound e receipt nsid p
    unfolding bound_event_payload
    IsBound-with_refs named_there payload_there = ground (
      arith,
      eq_iff named.uri receipt.uri,
      eq_iff (authority_of e.uri) (authority_of receipt.uri),
      eq_iff (authority_of p.uri) (authority_of receipt.uri),
      eq_iff (collection_of p.uri) nsid,
    )

  module _ (named q p : RecordRef) where
    bound_with_other :
        as_record_ref (fields_get e.record_fields "receipt") ≡ some named
        → as_record_ref (fields_get e.record_fields "payload") ≡ some q
        → bound_event_payload e receipt nsid name ≡ accepted p
        → q ≡ p
    unfolding bound_event_payload
    bound_with_other named_there payload_there h = ground arith

  IsBound-without_receipt :
      (p : RecordRef)
      → as_record_ref (fields_get e.record_fields "receipt") ≡ none
      → (bound_event_payload e receipt nsid name ≡ accepted p) ↔ IsBound e receipt nsid p
  unfolding bound_event_payload
  IsBound-without_receipt p missing = (λ h. ground arith, λ b. absurd (rw missing at b.names))

  IsBound-without_payload :
      (p : RecordRef)
      → as_record_ref (fields_get e.record_fields "payload") ≡ none
      → (bound_event_payload e receipt nsid name ≡ accepted p) ↔ IsBound e receipt nsid p
  unfolding bound_event_payload
  IsBound-without_payload p missing = (λ h. ground arith, λ b. cc (missing, b.payload))

-- The code binds an event to a receipt, with the payload `p`, exactly when it is a market event
-- that names the receipt and it and the payload, of the kind asked for, stand in the repository of
-- the receipt's bidder.
pub bound_event_payload_iff :
    (e : Envelope) (receipt : RecordRef) (nsid name : String) (p : RecordRef)
    → (bound_event_payload e receipt nsid name ≡ accepted p) ↔ IsBound e receipt nsid p
bound_event_payload_iff e receipt nsid name p =
    elim (Option-cases (as_record_ref (fields_get e.record_fields "receipt"))) [
      | inl missing ↦ IsBound-without_receipt e receipt nsid name p missing
      | inr (named, there) ↦
          elim (Option-cases (as_record_ref (fields_get e.record_fields "payload"))) [
            | inl missing ↦ IsBound-without_payload e receipt nsid name p missing
            | inr (q, q_there) ↦
                let same = λ (h : bound_event_payload e receipt nsid name ≡ accepted p).
                  bound_with_other e receipt nsid name named q p there q_there h in
                (
                  λ h.
                      (IsBound-with_refs e receipt nsid name named p there
                          (q_there ∙ ap some (same h))).0
                        h,
                  λ b. (IsBound-with_refs e receipt nsid name named p there b.payload).1 b,
                )
          ]
    ]

-- The termination that an event bound to the receipt reports.
pub record IsTerminationOf (e : Envelope) (receipt : RecordRef) (t : Termination) : Type 0 where
  pub bound : IsBound e receipt terminated_nsid t.payload
  pub reason : as_text (fields_get e.payload "reason") ≡ some t.reason
  pub reason_filled : is_empty t.reason ≡ false
  pub observed : as_text (fields_get e.payload "observedAt") ≡ some t.observed_at
  pub observed_filled : is_empty t.observed_at ≡ false
  pub exit_code : as_integer (fields_get e.payload "exitCode") ≡ t.exit_code
  pub request : as_record_ref (fields_get e.payload "request") ≡ t.request
  pub event_uri : t.event.uri ≡ e.uri
  pub event_cid : t.event.cid ≡ e.cid

-- The tests of `termination_of` on the payload, behind the binding.
abbrev bound_termination : Envelope → RecordRef → Checked RecordRef
bound_termination e receipt = bound_event_payload e receipt terminated_nsid "vm.terminated"

module _ (e : Envelope) (receipt : RecordRef) (t : Termination) where
  termination_sound :
      termination_of e receipt ≡ accepted t
      → (bound_termination e receipt ≡ accepted t.payload)
        × (as_text (fields_get e.payload "reason") ≡ some t.reason)
        × (is_empty t.reason ≡ false)
        × (as_text (fields_get e.payload "observedAt") ≡ some t.observed_at)
        × (is_empty t.observed_at ≡ false)
        × (as_integer (fields_get e.payload "exitCode") ≡ t.exit_code)
        × (as_record_ref (fields_get e.payload "request") ≡ t.request)
        × (t.event.uri ≡ e.uri)
        × (t.event.cid ≡ e.cid)
  unfolding termination_of
  termination_sound h = ground arith

  termination_complete :
      IsTerminationOf e receipt t
      → bound_termination e receipt ≡ accepted t.payload
      → termination_of e receipt ≡ accepted t
  unfolding termination_of
  termination_complete b there = ground arith

-- The code accepts a termination exactly when it is that of an event bound to the receipt, with a
-- reason and a time that are not empty; it names the event and the payload that it was read from.
pub termination_of_iff :
    (e : Envelope) (receipt : RecordRef) (t : Termination)
    → (termination_of e receipt ≡ accepted t) ↔ IsTerminationOf e receipt t
termination_of_iff e receipt t =
    let binds = bound_event_payload_iff e receipt terminated_nsid "vm.terminated" t.payload in
    (
      λ h.
          let (there, reason, filled_reason, at, filled_at, code, request, uri, cid) =
            termination_sound e receipt t h in
          record {
            bound = binds.0 there;
            reason = reason;
            reason_filled = filled_reason;
            observed = at;
            observed_filled = filled_at;
            exit_code = code;
            request = request;
            event_uri = uri;
            event_cid = cid;
          },
      λ b. termination_complete e receipt t b (binds.1 b.bound),
    )
