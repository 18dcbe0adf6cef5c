-- ===== src/Market/Signing/Author.antt =====
-- Who has signed a record that is verified.
use atproto_market.Common.{
  String, true, ◌≡◌, ◌⊎◌, inl, inr, refl, arith, some, List, [], ◌∷◌, includes, Bool-cases,
}
use atproto_market.Common.Json.{Fields, str, fields_get, as_text}
use atproto_market.Market.Attest.{Crypto, inline_entries, verify_inline_attestation}
use atproto_market.Market.Attest.Verified.{IsSignedWith, verify_inline_attestation-IsSignedWith}
use atproto_market.Market.Signing.{
  Bindings, signing_did, did_or, is_bound, entry_counts, first_counts, verify_record_signatures,
}

-- One of the list.
abbrev pub IsAmong : Fields → List Fields → Type 0
IsAmong e [] = ⊥
IsAmong e (x ∷ xs) = (x ≡ e) ⊎ IsAmong e xs

-- One of the inline entries bears a signature of the record, as it stands in this repository, with a
-- key that the document of the entry's issuer lists, or that a record binds to the repository's did.
pub record IsSigned (c : Crypto) (b : Bindings) (fs : Fields) (repository : String) : Type 0 where
  pub entry : Fields
  pub among : IsAmong entry (inline_entries fs)
  pub key : String
  pub signed : IsSignedWith c fs repository entry key
  pub bound :
      (includes key (b.keys_for_did (signing_did entry repository)) ≡ true)
      ⊎ (b.bound_by_record repository key ≡ true)

module _ (c : Crypto) (b : Bindings) (fs : Fields) (repository : String) where
  entry_counts-IsSigned :
      (entry : Fields)
      → IsAmong entry (inline_entries fs)
      → entry_counts c (some b) fs repository entry ≡ true
      → IsSigned c b fs repository
  unfolding entry_counts is_bound
  entry_counts-IsSigned entry among h =
      let (key, signed) =
        verify_inline_attestation-IsSignedWith c fs repository entry (ground (arith, h)) in
      record {
        entry = entry;
        among = among;
        key = key;
        signed = signed;
        bound =
            let named = signed.named in
            elim (Bool-cases (includes key (b.keys_for_did (signing_did entry repository)))) [
              | inl listed ↦ inl listed
              | inr unlisted ↦ inr (ground (arith, h, named, unlisted))
            ];
      }

  first_counts-IsSigned :
      (es : List Fields)
      → ((e : Fields) → IsAmong e es → IsAmong e (inline_entries fs))
      → first_counts c (some b) fs repository es ≡ true
      → IsSigned c b fs repository
  unfolding first_counts
  first_counts-IsSigned [] sub h = absurd (ground (arith, h))
  first_counts-IsSigned (e ∷ es) sub h =
      elim (Bool-cases (entry_counts c (some b) fs repository e)) [
        | inl counts ↦ entry_counts-IsSigned e (sub e (inl refl)) counts
        | inr not_it ↦ first_counts-IsSigned es (λ x m. sub x (inr m)) (ground (arith, h, not_it))
      ]

  -- A record whose signatures are verified with bindings has an inline entry that bears a signature of
  -- the record's cid in this repository, with a key that the document of the did the entry names as
  -- its issuer lists (of the repository's did, where it names none), or that a record binds to the
  -- repository's did.
  pub verify_record_signatures-IsSigned :
      verify_record_signatures c (some b) fs repository ≡ true → IsSigned c b fs repository
  unfolding verify_record_signatures
  verify_record_signatures-IsSigned h = first_counts-IsSigned (inline_entries fs) (λ e m. m) h

  first_counts-IsAmong :
      (es : List Fields) (e : Fields)
      → IsAmong e es
      → entry_counts c (some b) fs repository e ≡ true
      → first_counts c (some b) fs repository es ≡ true
  unfolding first_counts
  first_counts-IsAmong [] e m h = elim m [ ]
  first_counts-IsAmong (x ∷ xs) e (inl same) h = rw (same, h) refl
  first_counts-IsAmong (x ∷ xs) e (inr m) h = ground (arith, first_counts-IsAmong xs e m h)

  -- A verified entry that names any other did as its issuer counts, if that did's document lists the
  -- key, whoever the author of the record is.
  pub foreign_signature :
      (entry : Fields) (issuer key : String)
      → IsAmong entry (inline_entries fs)
      → fields_get entry "issuer" ≡ some (str issuer)
      → as_text (fields_get entry "key") ≡ some key
      → includes key (b.keys_for_did (str issuer)) ≡ true
      → verify_inline_attestation c fs entry repository ≡ true
      → verify_record_signatures c (some b) fs repository ≡ true
  unfolding verify_record_signatures entry_counts is_bound signing_did did_or
  foreign_signature entry issuer key among named keyed listed valid =
      first_counts-IsAmong (inline_entries fs) entry among (rw (valid, named, keyed, listed) refl)
