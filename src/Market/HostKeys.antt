-- ===== src/Market/HostKeys.antt =====
-- The host keys that a guest reports (lib/common/market-common/host-keys.ts).
pub mod Sound
use atproto_market.Common.Sort.{sort_by}
use atproto_market.Common.{
  String, ℕ, ◌+◌, ◌*◌, Bool, true, false, not, ◌&&◌, ◌||◌, Option, none, some, List, [], ◌∷◌,
  if◌then◌else◌, ◌==◌, ◌⧺◌, includes, length, ltb, eqb, take, drop, is_empty,
}
use atproto_market.Common.Checked.{Checked, accepted, refused, demand, demand_some, ◌>>=◌, ◌>>◌}
use atproto_market.Common.Json.{Json, Items, str, array, items, member, is_object, as_text}
use atproto_market.ComputeRequest.State.{HostKey}
use atproto_market.ComputeRequest.Events.{
  max_vm_host_keys, is_host_key_type, is_host_key_blob, passing,
}

-- The platform: the bytes of a text in base64, `none` where it is not; the text of bytes; the SHA-256
-- of bytes in base64 without padding; and the order of texts.
pub record KeyPlatform : Type 0 where
  pub base64_bytes : String → Option (List ℕ)
  pub decode : List ℕ → String
  pub digest : List ℕ → String
  pub before : String → String → Bool

-- The text behind a length of four bytes, the highest first.
blob_text : KeyPlatform → List ℕ → Option String
blob_text p (a ∷ b ∷ c ∷ d ∷ rest) =
    let len = a * 16777216 + b * 65536 + c * 256 + d in
    if eqb len 0 || ltb 64 len || ltb (length rest) len
    then none
    else some (p.decode (take len rest))
blob_text p _ = none

unfoldable pub ssh_key_blob_type : KeyPlatform → String → Option String
unfolding blob_text
ssh_key_blob_type p public_key = elim (p.base64_bytes public_key) [
  | none ↦ none
  | some bytes ↦ blob_text p bytes
]

-- The refusal stands for an exception; a key whose blob names a type is base64.
unfoldable pub ssh_host_key_fingerprint : KeyPlatform → String → Checked String
ssh_host_key_fingerprint p public_key = elim (p.base64_bytes public_key) [
  | none ↦ refused "public key is not base64"
  | some bytes ↦ accepted ("SHA256:" ⧺ p.digest bytes)
]

unfoldable pub names : Option String → String → Bool
names none type = false
names (some t) type = t == type

-- `!(fingerprint !== undefined && fingerprint !== computed)`
unfoldable pub agrees : Option Json → String → Bool
agrees none computed = true
agrees (some (str s)) computed = s == computed
agrees (some v) computed = false

-- A key of the report, behind those of the types seen.
unfoldable pub check_key : KeyPlatform → List String → Json → Checked HostKey
unfolding agrees member
check_key p types raw = do
  demand (is_object raw) "key is not an object"
  type ←
      demand_some (passing is_host_key_type (as_text (member raw "type"))) "key type is malformed"
  public_key ←
      demand_some (passing is_host_key_blob (as_text (member raw "publicKey")))
        (type ⧺ " public key is not a base64 key blob")
  demand (names (ssh_key_blob_type p public_key) type) (type ⧺ " key blob names another type")
  demand (not (includes type types)) (type ⧺ " reported twice")
  computed ← ssh_host_key_fingerprint p public_key
  demand (agrees (member raw "fingerprint") computed) (type ⧺ " fingerprint does not match its key")
  accepted (record { type = type; public_key = public_key; fingerprint = computed })

unfoldable pub check_keys : KeyPlatform → List String → List Json → Checked (List HostKey)
check_keys p types [] = accepted []
check_keys p types (raw ∷ raws) = do
  k ← check_key p types raw
  ks ← check_keys p (k.type ∷ types) raws
  accepted (k ∷ ks)

check_list : KeyPlatform → List Json → Checked (List HostKey)
unfolding check_keys
check_list p [] = refused "keys is not a non-empty array"
check_list p (raw ∷ raws) = do
  demand (not (ltb max_vm_host_keys (length (raw ∷ raws)))) "more than 8 keys"
  ks ← check_keys p [] (raw ∷ raws)
  accepted (sort_by (λ a b. p.before a.type b.type) [] ks)

-- The keys of a report, sorted by their types.
unfoldable pub check_host_keys : KeyPlatform → Option Json → Checked (List HostKey)
unfolding check_list
check_host_keys p (some (array vs)) = check_list p (items vs)
check_host_keys p _ = refused "keys is not a non-empty array"

unfoldable pub same_host_keys : List HostKey → List HostKey → Bool
same_host_keys [] [] = true
same_host_keys (a ∷ xs) (b ∷ ys) =
    a.type == b.type && a.public_key == b.public_key && same_host_keys xs ys
same_host_keys _ _ = false
