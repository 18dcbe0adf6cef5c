-- ===== src/Plc/Directory/Effect.antt =====
-- What a creation writes: nothing where it refuses, and nothing to the logs of other dids.
use atproto_market.Common.{
  String, ℕ, false, ◌≡◌, ◌≢◌, refl, sym, ap, ◌∙◌, arith, Option, none, some, List, [], ◌∷◌, ◌++◌,
  if◌then◌else◌, eqb, length, Option-cases, inl, inr, ◌⊎◌, ◌==◌, or_else,
}
use atproto_market.Common.Attempt.{returned, >>=-eq-returned}
use atproto_market.Common.Dict.{get, get-set}
use atproto_market.Common.Json.{Json}
use atproto_market.Plc.Operation.{Platform, Verifier}
use atproto_market.Plc.Store.{Store, insert_op, nullify, nullify_log, nullify_ops}
use atproto_market.Plc.Directory.{
  Response, Pending, to_nullify, check, finish, commit, commit_encoded, new_entry, handle_create_op,
}

nullify_ops-get :
    (s : Store) (did d : String) (cids : List String)
    → (did == d) ≡ false
    → get (nullify_ops s did cids) d ≡ get s d
unfolding nullify_ops nullify_log
nullify_ops-get s did d cids other = elim (Option-cases (get s did)) [
  | inl missing ↦ rw missing refl
  | inr (ops, there) ↦ rw there (get-set s did d (nullify cids ops) ∙ (rw other refl))
]

module _ (pf : Platform) (s : Store) (did now : String) where
  commit_encoded-get :
      (p : Pending) (d : String) (o : Option (List ℕ))
      → (did == d) ≡ false
      → get (commit_encoded pf s did p now o).0 d ≡ get s d
  unfolding commit_encoded insert_op
  commit_encoded-get p d none other = refl
  commit_encoded-get p d (some bytes) other =
      let entry = new_entry pf did p.operation bytes now in
      let cids = to_nullify p.operation p.current_ops in
      let forked = if eqb (length cids) 0 then s else nullify_ops s did cids in
      ground (
        arith,
        other,
        nullify_ops-get s did d cids other,
        get-set forked did d (or_else (get forked did) [] ++ entry ∷ []),
      )

  commit_encoded_refused :
      (p : Pending) (o : Option (List ℕ))
      → (commit_encoded pf s did p now o).1.status ≢ 200
      → (commit_encoded pf s did p now o).0 ≡ s
  unfolding commit_encoded
  commit_encoded_refused p none h = refl
  commit_encoded_refused p (some bytes) h = absurd (h refl)

  finish-get :
      (outcome : Response ⊎ Pending) (d : String)
      → (did == d) ≡ false
      → get (finish pf s did now outcome).0 d ≡ get s d
  unfolding finish commit
  finish-get (inl reply) d other = refl
  finish-get (inr p) d other = commit_encoded-get p d (pf.cbor_encode p.operation) other

  finish_refused :
      (outcome : Response ⊎ Pending)
      → (finish pf s did now outcome).1.status ≢ 200
      → (finish pf s did now outcome).0 ≡ s
  unfolding finish commit
  finish_refused (inl reply) h = refl
  finish_refused (inr p) h = commit_encoded_refused p (pf.cbor_encode p.operation) h

  -- Whatever is sent, a creation that returns changes the log of no other did, and one that replies
  -- with anything but 200 changes nothing.
  pub create_op_contained :
      (body : Option Json) (verifier : Option Verifier) (s' : Store) (r : Response)
      → handle_create_op pf s did body verifier now ≡ returned (s', r)
      → ((d : String) → (did == d) ≡ false → get s' d ≡ get s d) × (r.status ≢ 200 → s' ≡ s)
  unfolding handle_create_op
  create_op_contained body verifier s' r h =
      let (outcome, found, next) = >>=-eq-returned (check pf s did body verifier) _ h in
      let same : finish pf s did now outcome ≡ (s', r) = cc next in
      (
        λ d other. sym (ap (λ (q : Store × Response). get q.0 d) same) ∙ finish-get outcome d other,
        λ bad.
            sym (ap (λ (q : Store × Response). q.0) same)
            ∙ finish_refused outcome
                (λ good. bad (sym (ap (λ (q : Store × Response). q.1.status) same) ∙ good)),
      )
