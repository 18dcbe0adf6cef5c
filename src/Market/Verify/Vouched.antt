-- ===== src/Market/Verify/Vouched.antt =====
-- What vouches for a record that is reported valid.
use atproto_market.Common.{
  String, true, ◌≡◌, ◌⊎◌, inl, inr, refl, arith, Option, none, some, List, [], ◌∷◌, All, Bool-cases,
  is_empty, is_some, or_else,
}
use atproto_market.Common.Attempt.{Attempt, returned, thrown, >>=-eq-returned, returned-eq}
use atproto_market.Common.Json.{
  Json, Fields, null, boolean, number, str, array, object, fields_get, as_text,
}
use atproto_market.Records.{at_uri_authority}
use atproto_market.Market.Attest.{entries_of, verify_inline_attestation, verify_remote_proof}
use atproto_market.Market.Attest.Verified.{
  IsSignedWith, verify_inline_attestation-IsSignedWith, or_false-true,
}
use atproto_market.Market.Server.{goes_on}
use atproto_market.Market.Verify.{
  VerifyDeps, Verification, names_key, is_strong_ref, inline_vouches, proof_vouches, vouches,
  verified, any_left, verification_of, verify_fetched, verify,
}

-- An inline signature of the record in this repository, or a reference to a record that proves it.
abbrev pub IsVouched : VerifyDeps → Fields → String → Json → Type 0
IsVouched d fs repository (object entry) =
    ((key : String) × IsSignedWith d.crypto fs repository entry key)
    ⊎ ((uri : String) × (cid : String) × (proof : Fields × String) × (as_text
            (fields_get entry "uri")
          ≡ some uri)
        × (as_text (fields_get entry "cid") ≡ some cid)
        × (d.fetch uri (some cid) ≡ returned proof)
        × (verify_remote_proof d.crypto fs repository proof.0 ≡ true))
IsVouched d fs repository _ = ⊥

some_of : (o : Option String) → is_some o ≡ true → (s : String) × (o ≡ some s)
some_of none h = absurd (ground (arith, h))
some_of (some s) h = (s, refl)

module _ (d : VerifyDeps) (fs : Fields) (repository : String) where
  inline_vouches-IsVouched :
      (entry : Fields)
      → inline_vouches d fs repository entry ≡ returned true
      → IsVouched d fs repository (object entry)
  unfolding inline_vouches
  inline_vouches-IsVouched entry h =
      elim (Bool-cases (verify_inline_attestation d.crypto fs entry repository)) [
        | inl valid ↦
            inl (verify_inline_attestation-IsSignedWith d.crypto fs repository entry valid)
        | inr wrong ↦ absurd (ground (arith, h, wrong))
      ]

  proof_vouches-IsVouched :
      (entry : Fields)
      → is_strong_ref entry ≡ true
      → proof_vouches d fs repository entry ≡ returned true
      → IsVouched d fs repository (object entry)
  unfolding proof_vouches is_strong_ref
  proof_vouches-IsVouched entry strong h =
      let (uri, u) = some_of (as_text (fields_get entry "uri")) (ground (arith, strong)) in
      let (cid, c) = some_of (as_text (fields_get entry "cid")) (ground (arith, strong)) in
      let (proof, p, last) =
        >>=-eq-returned
          (d.fetch (or_else (as_text (fields_get entry "uri")) "")
            (as_text (fields_get entry "cid")))
          _ h in
      inr (uri, cid, proof, u, c, rw (u, c) at p, returned-eq last)

  vouches-IsVouched : (v : Json) → vouches d fs repository v ≡ true → IsVouched d fs repository v
  unfolding vouches
  vouches-IsVouched null h = absurd (ground (arith, h))
  vouches-IsVouched (boolean b) h = absurd (ground (arith, h))
  vouches-IsVouched (number n) h = absurd (ground (arith, h))
  vouches-IsVouched (str s) h = absurd (ground (arith, h))
  vouches-IsVouched (array vs) h = absurd (ground (arith, h))
  vouches-IsVouched (object entry) h = elim (Bool-cases (names_key entry)) [
    | inl inline ↦ inline_vouches-IsVouched entry (or_false-true _ (rw inline at h))
    | inr other ↦ elim (Bool-cases (is_strong_ref entry)) [
      | inl strong ↦
          proof_vouches-IsVouched entry strong (or_false-true _ (rw (other, strong) at h))
      | inr neither ↦ absurd (ground (arith, h, other, neither))
    ]
  ]

  verified-IsVouched :
      (vs : List Json) → All (IsVouched d fs repository) (verified d fs repository vs)
  unfolding verified
  verified-IsVouched [] = tt
  verified-IsVouched (v ∷ vs) = elim (Bool-cases (vouches d fs repository v)) [
    | inl good ↦ rw good (vouches-IsVouched v good, verified-IsVouched vs)
    | inr bad ↦ rw bad (verified-IsVouched vs)
  ]

-- A record that is reported is the one that was fetched; every signature reported is an inline
-- signature of it in its repository, or a reference to a fetched record that proves it; and it is
-- reported valid only if one is reported.
pub verify-IsVouched :
    (d : VerifyDeps) (uri cid : Option String) (v : Verification)
    → verify d uri cid ≡ goes_on v
    → (fs : Fields) × (d.fetch v.uri cid ≡ returned (fs, v.cid))
      × All (IsVouched d fs (at_uri_authority v.uri)) v.signatures
      × (v.valid ≡ any_left v.signatures)
unfolding verify verification_of
verify-IsVouched d none cid v h = absurd (ground (arith, h))
verify-IsVouched d (some uri) cid v h = elim (Bool-cases (is_empty uri)) [
  | inl no_uri ↦ absurd (ground (arith, h, no_uri))
  | inr some_uri ↦ fetched (d.fetch uri cid) refl (rw some_uri at h)
]
  where
    fetched :
        (m : Attempt (Fields × String))
        → d.fetch uri cid ≡ m
        → verify_fetched d uri m ≡ goes_on v
        → (fs : Fields) × (d.fetch v.uri cid ≡ returned (fs, v.cid))
          × All (IsVouched d fs (at_uri_authority v.uri)) v.signatures
          × (v.valid ≡ any_left v.signatures)
    fetched (thrown e) there k = absurd (ground (arith, k))
    fetched (returned (fs, c)) there k =
        let is : verification_of d uri fs c ≡ v = cc k in
        rw (← is) (
          fs,
          there,
          verified-IsVouched d fs (at_uri_authority uri) (entries_of (fields_get fs "signatures")),
          refl,
        )
