-- ===== src/Tests/Hosts.antt =====
-- A host key event of a guest, and the known_hosts text of it.
use atproto_market.Common.{String, [], ◌∷◌, ◌++◌, map, ◌≡◌, refl, split}
use atproto_market.Common.Checked.{accepted}
use atproto_market.Common.Json.{fields_get, Json, str, array, nil, cons, object, end, field}
use atproto_market.Records.{RecordRef}
use atproto_market.ComputeRequest.State.{HostKey, HostKeys}
use atproto_market.ComputeRequest.Events.{
  Envelope, host_keys_of, bound_event_payload, as_record_ref, authority_of, collection_of,
  type_allows, is_host_key_type, is_host_key_blob, is_host_key_fingerprint,
}
use atproto_market.ComputeRequest.Events.Keys.{IsHostKeysOf, host_keys_of-IsHostKeysOf}
use atproto_market.ComputeRequest.Guest.{host_key_alias_of, known_host, known_hosts_of}
use atproto_market.ComputeRequest.Guest.KnownHosts.{known_hosts_of-lines}

abbrev the_receipt : RecordRef
the_receipt = record { uri = "at://did:plc:b/r.receipt/1"; cid = "c1" }

abbrev the_payload : RecordRef
the_payload = record {
  uri = "at://did:plc:b/com.publicdomainrelay.temp.compute.events.vm.hostKeys/2";
  cid = "c2";
}

abbrev ref_json : RecordRef → Json
ref_json r = object (field "uri" (str r.uri) (field "cid" (str r.cid) end))

abbrev the_key : HostKey
the_key = record {
  type = "ssh-ed25519";
  public_key = "AAAAC3NzaC1lZDI1NTE5AAAA";
  fingerprint = "SHA256:AAAAAAAAAABBBBBBBBBBCCCCCCCCCCDDDDDDDDDDEEE";
}

abbrev key_json : Json
key_json = object (
    field "type" (str the_key.type) (
      field "publicKey" (str the_key.public_key)
        (field "fingerprint" (str the_key.fingerprint) end)))

abbrev reported : Envelope
reported = record {
  uri = "at://did:plc:b/com.publicdomainrelay.temp.market.event/3";
  cid = "c3";
  record_fields =
      field "receipt" (ref_json the_receipt) (field "payload" (ref_json the_payload) end);
  payload = field "observedAt" (str "t3") (field "keys" (array (cons key_json nil)) end);
}

abbrev the_keys : HostKeys
the_keys = record {
  keys = the_key ∷ [];
  observed_at = "t3";
  event = record { uri = reported.uri; cid = reported.cid };
  payload = the_payload;
}

reported_accepted : host_keys_of reported the_receipt ≡ accepted the_keys
unfolding host_keys_of bound_event_payload is_host_key_type is_host_key_blob is_host_key_fingerprint
    type_allows fields_get as_record_ref authority_of collection_of
reported_accepted = refl

host_keys_of-IsHostKeysOf_example : IsHostKeysOf reported the_receipt the_keys
host_keys_of-IsHostKeysOf_example =
    host_keys_of-IsHostKeysOf reported the_receipt the_keys reported_accepted

abbrev as_is : String → String
as_is s = s

known_hosts_of-lines_example :
    split 10 (known_hosts_of (host_key_alias_of as_is the_receipt) (the_key ∷ []))
    ≡ map (known_host (host_key_alias_of as_is the_receipt)) (the_key ∷ []) ++ "" ∷ []
known_hosts_of-lines_example =
    known_hosts_of-lines as_is reported the_receipt the_keys reported_accepted
