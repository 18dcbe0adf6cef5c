-- ===== src/ComputeRequest/Events.antt =====
-- The events that a bidder publishes about a guest, bound to the receipt of its contract
-- (lib/abc/compute-request/mod.ts).
pub mod Binding
pub mod Keys
use atproto_market.Common.{
  String, ℕ, Bool, true, false, not, ◌&&◌, ◌||◌, Option, none, some, List, [], ◌∷◌, ◌==◌, ◌⧺◌,
  if◌then◌else◌, or_else, is_some, is_empty, length, eqb, ltb, leb, every, codes, is_digit,
  is_lower, is_upper, split, part, remove_first, strip_prefix, ◌+◌,
}
use atproto_market.Common.Checked.{Checked, accepted, refused, demand, demand_some, ◌>>=◌, ◌>>◌}
use atproto_market.Common.Json.{
  Json, Fields, str, array, items, fields_get, member, as_text, as_integer,
}
use atproto_market.Records.{RecordRef}
use atproto_market.ComputeRequest.State.{Termination, HostKey, HostKeys}

abbrev pub event_nsid : String
event_nsid = "com.publicdomainrelay.temp.market.event"

abbrev pub terminated_nsid : String
terminated_nsid = "com.publicdomainrelay.temp.compute.events.vm.terminated"

abbrev pub host_keys_nsid : String
host_keys_nsid = "com.publicdomainrelay.temp.compute.events.vm.hostKeys"

abbrev pub max_vm_host_keys : ℕ
max_vm_host_keys = 8

pub record Envelope : Type 0 where
  pub uri : String
  pub cid : String
  pub record_fields : Fields
  pub payload : Fields

unfoldable pub authority_of : String → String
unfolding split part remove_first
authority_of uri = or_else (part (split b'/' (remove_first "at://" uri)) 0) ""

unfoldable pub collection_of : String → String
unfolding split part remove_first
collection_of uri = or_else (part (split b'/' (remove_first "at://" uri)) 1) ""

-- The uri and the cid of a value that `isRecordRef` accepts.
ref_of_texts : Option String → Option String → Option RecordRef
ref_of_texts (some uri) (some cid) = some (record { uri = uri; cid = cid })
ref_of_texts _ _ = none

unfoldable pub as_record_ref : Option Json → Option RecordRef
unfolding ref_of_texts member
as_record_ref none = none
as_record_ref (some v) = ref_of_texts (as_text (member v "uri")) (as_text (member v "cid"))

-- `!(type !== undefined && type !== nsid)`
unfoldable pub type_allows : Option Json → String → Bool
type_allows none nsid = true
type_allows (some (str s)) nsid = s == nsid
type_allows (some _) nsid = false

unfoldable pub bound_event_payload : Envelope → RecordRef → String → String → Checked RecordRef
bound_event_payload envelope receipt nsid name = do
  demand (type_allows (fields_get envelope.record_fields "$type") event_nsid)
      "envelope is not a market.event"
  receipt_ref ←
      demand_some (as_record_ref (fields_get envelope.record_fields "receipt"))
        "missing receipt ref"
  demand (receipt_ref.uri == receipt.uri) "event names another receipt"
  let bidder = authority_of receipt.uri
  demand (authority_of envelope.uri == bidder) "event not authored by the receipt's bidder"
  payload_ref ←
      demand_some (as_record_ref (fields_get envelope.record_fields "payload"))
        "missing payload ref"
  demand (authority_of payload_ref.uri == bidder) "payload not in the bidder's repo"
  demand (collection_of payload_ref.uri == nsid) ("payload is not " ⧺ name)
  demand (type_allows (fields_get envelope.payload "$type") nsid) ("payload record is not " ⧺ name)
  accepted payload_ref

-- A text that is there and not empty.
filled : Option String → Option String
filled none = none
filled (some s) = if is_empty s then none else some s

unfoldable pub termination_of : Envelope → RecordRef → Checked Termination
unfolding filled
termination_of envelope receipt = do
  payload_ref ← bound_event_payload envelope receipt terminated_nsid "vm.terminated"
  reason ← demand_some (filled (as_text (fields_get envelope.payload "reason"))) "missing reason"
  observed_at ←
      demand_some (filled (as_text (fields_get envelope.payload "observedAt"))) "missing observedAt"
  accepted (record {
    reason = reason;
    exit_code = as_integer (fields_get envelope.payload "exitCode");
    observed_at = observed_at;
    event = record { uri = envelope.uri; cid = envelope.cid };
    payload = payload_ref;
    request = as_record_ref (fields_get envelope.payload "request");
  })

-- The class [A-Za-z0-9+/].
unfoldable pub is_base64 : ℕ → Bool
is_base64 c = is_upper c || is_lower c || is_digit c || eqb c b'+' || eqb c b'/'

-- The class [a-z0-9.@-].
unfoldable pub is_type_char : ℕ → Bool
is_type_char c = is_lower c || is_digit c || eqb c b'.' || eqb c b'@' || eqb c b'-'

type_codes : List ℕ → Bool
unfolding is_type_char
type_codes [] = false
type_codes (c ∷ cs) = (is_lower c || is_digit c) && every is_type_char cs && leb (length cs) 63

-- /^[a-z0-9][a-z0-9.@-]{0,63}$/
unfoldable pub is_host_key_type : String → Bool
unfolding type_codes
is_host_key_type s = type_codes (codes s)

padding : List ℕ → Bool
padding [] = true
padding (c ∷ []) = eqb c b'='
padding (c ∷ d ∷ []) = eqb c b'=' && eqb d b'='
padding (c ∷ d ∷ e ∷ cs) = false

-- The run of base64 characters is as long as it can be: what follows has to be padding, which is
-- none of them. `n` is the length of the run so far.
blob_codes : ℕ → List ℕ → Bool
unfolding padding is_base64
blob_codes n [] = leb 16 n && leb n 4096
blob_codes n (c ∷ cs) =
    let more = blob_codes (n + 1) cs in
    if is_base64 c then more else padding (c ∷ cs) && leb 16 n && leb n 4096

-- /^[A-Za-z0-9+/]{16,4096}={0,2}$/
unfoldable pub is_host_key_blob : String → Bool
unfolding blob_codes
is_host_key_blob s = blob_codes 0 (codes s)

-- /^SHA256:[A-Za-z0-9+/]{43}$/
fingerprint_rest : Option String → Bool
unfolding is_base64
fingerprint_rest none = false
fingerprint_rest (some rest) = every is_base64 (codes rest) && eqb (length (codes rest)) 43

unfoldable pub is_host_key_fingerprint : String → Bool
unfolding fingerprint_rest strip_prefix
is_host_key_fingerprint s = fingerprint_rest (strip_prefix "SHA256:" s)

-- The text that passes the test.
unfoldable pub passing : (String → Bool) → Option String → Option String
passing p none = none
passing p (some s) = if p s then some s else none

host_key_of : Json → Checked HostKey
unfolding passing
host_key_of k = do
  type ← demand_some (passing is_host_key_type (as_text (member k "type"))) "malformed key type"
  public_key ←
      demand_some (passing is_host_key_blob (as_text (member k "publicKey"))) "malformed public key"
  fingerprint ←
      demand_some (passing is_host_key_fingerprint (as_text (member k "fingerprint")))
        "malformed fingerprint"
  accepted (record { type = type; public_key = public_key; fingerprint = fingerprint })

-- The loop over the keys.
host_key_list : List Json → Checked (List HostKey)
host_key_list [] = accepted []
host_key_list (k ∷ ks) = do key ← host_key_of k; keys ← host_key_list ks; accepted (key ∷ keys)

-- `Array.isArray(raw)` with at least one and at most eight members.
key_array : Option Json → Option (List Json)
key_array (some (array vs)) =
    let raw = items vs in
    if eqb (length raw) 0 || ltb max_vm_host_keys (length raw) then none else some raw
key_array _ = none

unfoldable pub host_keys_of : Envelope → RecordRef → Checked HostKeys
unfolding host_key_list host_key_of key_array filled passing
host_keys_of envelope receipt = do
  payload_ref ← bound_event_payload envelope receipt host_keys_nsid "vm.hostKeys"
  observed_at ←
      demand_some (filled (as_text (fields_get envelope.payload "observedAt"))) "missing observedAt"
  raw ← demand_some (key_array (fields_get envelope.payload "keys")) "keys is not a non-empty array"
  keys ← host_key_list raw
  accepted (record {
    keys = keys;
    observed_at = observed_at;
    event = record { uri = envelope.uri; cid = envelope.cid };
    payload = payload_ref;
  })
