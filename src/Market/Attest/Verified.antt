-- ===== src/Market/Attest/Verified.antt =====
-- What a verified inline attestation bears.
use atproto_market.Common.{
  String, ℕ, Bool, true, ◌≡◌, inl, inr, refl, arith, Option, none, some, List, Bool-cases,
}
use atproto_market.Common.Attempt.{Attempt, returned, thrown, >>=-eq-returned}
use atproto_market.Common.Json.{Fields, fields_get, as_text}
use atproto_market.Market.Attest.{
  Crypto, attestation_cid, normalize_signature, verify_inline_attestation, check_entry,
  check_signed, or_false, declares,
}

-- The entry bears a signature of the record's attestation cid in this repository with this key.
pub record IsSignedWith (c : Crypto) (fs : Fields) (repository : String) (entry : Fields)
    (key : String) : Type 0 where
  pub named : as_text (fields_get entry "key") ≡ some key
  pub cid : List ℕ
  pub is_cid : attestation_cid c.cid_bytes fs entry repository ≡ returned cid
  pub sig : List ℕ
  pub is_sig : normalize_signature c (fields_get entry "signature") ≡ returned (some sig)
  pub valid : c.verify_bytes key cid sig ≡ returned true

pub or_false-true : (m : Attempt Bool) → or_false m ≡ true → m ≡ returned true
or_false-true (returned b) h = ground (arith, h)
or_false-true (thrown e) h = absurd (ground (arith, h))

module _ (c : Crypto) (fs : Fields) (repository : String) where
  -- An entry that is verified names a key, and bears that key's signature of the record's cid.
  pub verify_inline_attestation-IsSignedWith :
      (entry : Fields)
      → verify_inline_attestation c fs entry repository ≡ true
      → (key : String) × IsSignedWith c fs repository entry key
  unfolding verify_inline_attestation check_entry check_signed
  verify_inline_attestation-IsSignedWith entry h =
      let (sig, is_sig, rest) = >>=-eq-returned _ _ (or_false-true _ h) in
      with_signature sig is_sig (as_text (fields_get entry "key")) refl rest
    where
      with_key :
          (sig : List ℕ)
          → normalize_signature c (fields_get entry "signature") ≡ returned (some sig)
          → (key : String) → as_text (fields_get entry "key") ≡ some key
          → check_signed c fs entry repository key sig ≡ returned true
          → IsSignedWith c fs repository entry key
      with_key sig is_sig key named rest =
          let (cid, is_cid, last) =
            >>=-eq-returned (attestation_cid c.cid_bytes fs entry repository) _ (rest) in
          elim (Bool-cases (declares (as_text (fields_get entry "cid")) (c.cid_text cid))) [
            | inr wrong ↦ absurd (ground (arith, last, wrong))
            | inl right ↦ record {
              named = named;
              cid = cid;
              is_cid = is_cid;
              sig = sig;
              is_sig = is_sig;
              valid = ground (arith, last, right);
            }
          ]

      with_signature :
          (o : Option (List ℕ))
          → normalize_signature c (fields_get entry "signature") ≡ returned o
          → (k : Option String) → as_text (fields_get entry "key") ≡ k
          → check_entry c fs entry repository k o ≡ returned true
          → (key : String) × IsSignedWith c fs repository entry key
      with_signature (some sig) is_sig (some key) named rest =
          (key, with_key sig is_sig key named rest)
      with_signature none is_sig (some key) named rest = absurd (ground (arith, rest))
      with_signature none is_sig none named rest = absurd (ground (arith, rest))
      with_signature (some sig) is_sig none named rest = absurd (ground (arith, rest))
