-- ===== src/Market/Attest/Binding.antt =====
-- What the cid of an attestation binds.
use atproto_market.Common.{
  String, false, ◌≡◌, sym, ◌∙◌, ap, arith, some, List, [], ◌∷◌, ◌==◌, eq_iff,
}
use atproto_market.Common.Attempt.{Attempt, returned}
use atproto_market.Common.Json.{Fields, str, object, fields_get}
use atproto_market.Common.Fields.{
  fields_drop, fields_get-fields_set, fields_get-fields_drop, Step, property, leaf_at,
  leaf_at-object, leaf_at-str,
}
use atproto_market.Market.Attest.{prepared_metadata, prepared_record, attestation_cid}

-- Two attested records agree in the repository, in what stands at every path of the records but under
-- `signatures` and `$sig`, and of the metadata but under `cid`, `signature` and `repository`.
pub record IsSameAttested (r m : Fields) (p : String) (s n : Fields) (q : String) : Type 0 where
  pub repository : p ≡ q
  pub content :
      (k : String) (path : List Step)
      → (k == "signatures") ≡ false
      → (k == "$sig") ≡ false
      → leaf_at path (fields_get r k) ≡ leaf_at path (fields_get s k)
  pub metadata :
      (k : String) (path : List Step)
      → (k == "cid") ≡ false
      → (k == "signature") ≡ false
      → (k == "repository") ≡ false
      → leaf_at path (fields_get m k) ≡ leaf_at path (fields_get n k)

prepared_record-content :
    (r m : Fields) (p k : String)
    → (k == "signatures") ≡ false
    → (k == "$sig") ≡ false
    → fields_get (prepared_record r m p) k ≡ fields_get r k
unfolding prepared_record
prepared_record-content r m p k a b = ground (
  arith,
  a,
  b,
  eq_iff k "signatures",
  eq_iff "signatures" k,
  eq_iff k "$sig",
  eq_iff "$sig" k,
  fields_get-fields_set (fields_drop r "signatures") "$sig" k (object (prepared_metadata m p)),
  fields_get-fields_drop r "signatures" k,
)

prepared_record-sig :
    (r m : Fields) (p : String)
    → fields_get (prepared_record r m p) "$sig" ≡ some (object (prepared_metadata m p))
unfolding prepared_record
prepared_record-sig r m p =
    fields_get-fields_set (fields_drop r "signatures") "$sig" "$sig"
      (object (prepared_metadata m p))

prepared_metadata-repository :
    (m : Fields) (p : String) → fields_get (prepared_metadata m p) "repository" ≡ some (str p)
unfolding prepared_metadata
prepared_metadata-repository m p =
    fields_get-fields_set (fields_drop (fields_drop m "cid") "signature") "repository" "repository"
      (str p)

prepared_metadata-others :
    (m : Fields) (p k : String)
    → (k == "cid") ≡ false
    → (k == "signature") ≡ false
    → (k == "repository") ≡ false
    → fields_get (prepared_metadata m p) k ≡ fields_get m k
unfolding prepared_metadata
prepared_metadata-others m p k a b d = ground (
  arith,
  a,
  b,
  d,
  eq_iff k "cid",
  eq_iff "cid" k,
  eq_iff k "signature",
  eq_iff "signature" k,
  eq_iff k "repository",
  eq_iff "repository" k,
  fields_get-fields_set (fields_drop (fields_drop m "cid") "signature") "repository" k (str p),
  fields_get-fields_drop (fields_drop m "cid") "signature" k,
  fields_get-fields_drop m "cid" k,
)

-- The cid of an attested record is that of the prepared one.
attestation_cid-prepared :
    {C : Type 0} (cid_of : Fields → Attempt C) (r m : Fields) (p : String) (x : C)
    → attestation_cid cid_of r m p ≡ returned x
    → cid_of (prepared_record r m p) ≡ returned x
unfolding attestation_cid
attestation_cid-prepared cid_of r m p x h = ground (arith, h)

module _ {C : Type 0} (cid_of : Fields → Attempt C)
    (faithful : (a b : Fields) (x : C)
      → cid_of a ≡ returned x
      → cid_of b ≡ returned x
      → (path : List Step) → leaf_at path (some (object a)) ≡ leaf_at path (some (object b))) where
  -- If cids that are the same are those of objects that hold the same at every path, through
  -- properties and members of arrays, two records with the same attestation cid lie in the same
  -- repository, and the records and the metadata hold the same at every path, except under
  -- `signatures` and `$sig` of the records and under `cid`, `signature` and `repository` of the
  -- metadata.
  pub attestation_cid-IsSameAttested :
      (r m s n : Fields) (p q : String) (x : C)
      → attestation_cid cid_of r m p ≡ returned x
      → attestation_cid cid_of s n q ≡ returned x
      → IsSameAttested r m p s n q
  attestation_cid-IsSameAttested r m s n p q x one other =
      let same =
        faithful (prepared_record r m p) (prepared_record s n q) x
          (attestation_cid-prepared cid_of r m p x one)
          (attestation_cid-prepared cid_of s n q x other) in
      let at_key : (k : String) (path : List Step)
          → leaf_at path (fields_get (prepared_record r m p) k)
            ≡ leaf_at path (fields_get (prepared_record s n q) k) =
        λ k path.
          sym (leaf_at-object (prepared_record r m p) k path)
          ∙ same (property k ∷ path)
          ∙ leaf_at-object (prepared_record s n q) k path in
      let at_sig : (k : String) (path : List Step)
          → leaf_at path (fields_get (prepared_metadata m p) k)
            ≡ leaf_at path (fields_get (prepared_metadata n q) k) =
        λ k path.
          sym (leaf_at-object (prepared_metadata m p) k path)
          ∙ ap (leaf_at (property k ∷ path)) (sym (prepared_record-sig r m p))
          ∙ at_key "$sig" (property k ∷ path)
          ∙ ap (leaf_at (property k ∷ path)) (prepared_record-sig s n q)
          ∙ leaf_at-object (prepared_metadata n q) k path in
      record {
        repository =
            let e =
              sym (ap (leaf_at []) (prepared_metadata-repository m p))
              ∙ at_sig "repository" []
              ∙ ap (leaf_at []) (prepared_metadata-repository n q) in
            cc (e, leaf_at-str p, leaf_at-str q);
        content = λ k path a b.
            sym (ap (leaf_at path) (prepared_record-content r m p k a b))
            ∙ at_key k path
            ∙ ap (leaf_at path) (prepared_record-content s n q k a b);
        metadata = λ k path a b d.
            sym (ap (leaf_at path) (prepared_metadata-others m p k a b d))
            ∙ at_sig k path
            ∙ ap (leaf_at path) (prepared_metadata-others n q k a b d);
      }
