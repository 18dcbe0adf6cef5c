-- ===== src/ComputeRequest/Events/Keys.antt =====
-- What `hostKeysOf` accepts.
use atproto_market.Common.{
  ℕ, ◌+◌, ◌≤◌, Bool, true, ◌≡◌, refl, arith, Option, none, some, List, [], ◌∷◌, ◌||◌, All, eqb,
  every, codes, length, is_upper, is_lower, is_digit, Option-cases, inl, inr,
}
use atproto_market.Common.Checked.{accepted}
use atproto_market.Common.Split.{Only, codes-Only}
use atproto_market.Common.Json.{Json, fields_get}
use atproto_market.Records.{RecordRef}
use atproto_market.ComputeRequest.State.{HostKey, HostKeys}
use atproto_market.ComputeRequest.Events.{
  Envelope, host_keys_nsid, bound_event_payload, is_base64, is_type_char, type_codes,
  is_host_key_type, padding, blob_codes, is_host_key_blob, is_host_key_fingerprint, passing,
  host_key_of, host_key_list, key_array, host_keys_of,
}
use atproto_market.ComputeRequest.Events.Binding.{IsBound, bound_event_payload_iff}

-- The characters of a public key: base64 and its padding.
abbrev pub is_blob_char : ℕ → Bool
is_blob_char c = is_upper c || is_lower c || is_digit c || eqb c b'+' || eqb c b'/' || eqb c b'='

type_codes-every : (cs : List ℕ) → type_codes cs ≡ true → every is_type_char cs ≡ true
unfolding type_codes is_type_char
type_codes-every [] h = cc
type_codes-every (c ∷ cs) h = ground arith

padding-every : (cs : List ℕ) → padding cs ≡ true → every is_blob_char cs ≡ true
unfolding padding
padding-every [] h = refl
padding-every (c ∷ []) h = ground arith
padding-every (c ∷ d ∷ []) h = ground arith
padding-every (c ∷ d ∷ e ∷ cs) h = cc

blob_codes-every : (n : ℕ) (cs : List ℕ) → blob_codes n cs ≡ true → every is_blob_char cs ≡ true
unfolding blob_codes is_base64
blob_codes-every n [] h = refl
blob_codes-every n (c ∷ cs) h = ground (arith, blob_codes-every (n + 1) cs, padding-every (c ∷ cs))

-- A key whose three parts have the shapes that the code asks for.
pub record IsWellFormed (k : HostKey) : Type 0 where
  pub type : is_host_key_type k.type ≡ true
  pub public_key : is_host_key_blob k.public_key ≡ true
  pub fingerprint : is_host_key_fingerprint k.fingerprint ≡ true

pub type-Only : {k : HostKey} → IsWellFormed k → Only is_type_char k.type
unfolding is_host_key_type
type-Only {k} w = codes-Only is_type_char k.type (type_codes-every (codes k.type) w.type)

pub public_key-Only : {k : HostKey} → IsWellFormed k → Only is_blob_char k.public_key
unfolding is_host_key_blob
public_key-Only {k} w =
    codes-Only is_blob_char k.public_key (blob_codes-every 0 (codes k.public_key) w.public_key)

host_key_of-IsWellFormed : (v : Json) (k : HostKey) → host_key_of v ≡ accepted k → IsWellFormed k
unfolding host_key_of passing
host_key_of-IsWellFormed v k h = record {
  type = ground arith;
  public_key = ground arith;
  fingerprint = ground arith;
}

host_key_list_sound :
    (vs : List Json) (ks : List HostKey)
    → host_key_list vs ≡ accepted ks
    → All IsWellFormed ks × (length ks ≡ length vs)
unfolding host_key_list
host_key_list_sound [] [] h = (tt, refl)
host_key_list_sound [] (k ∷ ks) h = cc
host_key_list_sound (v ∷ vs) [] h = ground arith
host_key_list_sound (v ∷ vs) (k ∷ ks) h =
    let (rest, same) = host_key_list_sound vs ks (ground arith) in
    ((host_key_of-IsWellFormed v k (ground arith), rest), omega arith)

-- One to eight well-formed keys that an event bound to the receipt reports.
pub record IsHostKeysOf (e : Envelope) (receipt : RecordRef) (h : HostKeys) : Type 0 where
  pub bound : IsBound e receipt host_keys_nsid h.payload
  pub some_key : 1 ≤ length h.keys
  pub few_keys : length h.keys ≤ 8
  pub well_formed : All IsWellFormed h.keys

key_array-length :
    (v : Option Json) (vs : List Json) → key_array v ≡ some vs → (1 ≤ length vs) × (length vs ≤ 8)
unfolding key_array
key_array-length none vs h = cc
key_array-length (some v) vs h = ground arith

module _ (e : Envelope) (receipt : RecordRef) (h : HostKeys) where
  host_keys_parts :
      host_keys_of e receipt ≡ accepted h
      → (bound_event_payload e receipt host_keys_nsid "vm.hostKeys" ≡ accepted h.payload)
        × ((vs : List Json) × (key_array (fields_get e.payload "keys") ≡ some vs)
            × (host_key_list vs ≡ accepted h.keys))
  unfolding host_keys_of
  host_keys_parts eq = elim (Option-cases (key_array (fields_get e.payload "keys"))) [
    | inl missing ↦ absurd (ground arith)
    | inr (vs, there) ↦ (ground arith, (vs, there, ground arith))
  ]

  -- Host keys that the code accepts come from an event bound to the receipt; they are one to eight
  -- keys, and each has the shape of an OpenSSH host key.
  pub host_keys_of-IsHostKeysOf : host_keys_of e receipt ≡ accepted h → IsHostKeysOf e receipt h
  host_keys_of-IsHostKeysOf eq =
      let (bound, (vs, there, listed)) = host_keys_parts eq in
      let (all, same) = host_key_list_sound vs h.keys listed in
      let (low, high) = key_array-length _ vs there in
      record {
        bound = (bound_event_payload_iff e receipt host_keys_nsid "vm.hostKeys" h.payload).0 bound;
        some_key = omega arith;
        few_keys = omega arith;
        well_formed = all;
      }
