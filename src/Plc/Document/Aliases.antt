-- ===== src/Plc/Document/Aliases.antt =====
-- The aliases of a resolved document, and a log that resolves to none.
use atproto_market.Common.{
  String, ℕ, Bool, false, ◌≡◌, refl, ap, ◌∙◌, arith, Option, none, some, List, [], ◌∷◌, ◌++◌,
  any_of, last?, is_empty, or_else, Bool-cases, inl, inr,
}
use atproto_market.Common.Attempt.{returned, >>=-eq-returned, returned-eq}
use atproto_market.Common.Json.{Json, member, str}
use atproto_market.Plc.Operation.{LogEntry, is_type}
use atproto_market.Plc.Document.{
  Document, Facts, same_value, add_members, dedupe, iterated, plc_facts, create_facts, facts_of,
  collect, document_of, methods_of, services_of, or_undefined, text_field, resolve_from,
  resolve_did_document,
}

-- No value of the list is the same as an earlier one.
abbrev pub HasNoRepeats : List Json → Type 0
HasNoRepeats [] = Unit {0}
HasNoRepeats (x ∷ xs) = (any_of (λ y. same_value x y) xs ≡ false) × HasNoRepeats xs

any_of-append :
    (p : Json → Bool) (xs : List Json) (y : Json)
    → any_of p xs ≡ false
    → p y ≡ false
    → any_of p (xs ++ y ∷ []) ≡ false
any_of-append p [] y h k = ground (arith, k)
any_of-append p (x ∷ xs) y h k = ground (arith, h, any_of-append p xs y, k)

append-HasNoRepeats :
    (xs : List Json) (x : Json)
    → HasNoRepeats xs
    → any_of (λ y. same_value y x) xs ≡ false
    → HasNoRepeats (xs ++ x ∷ [])
append-HasNoRepeats [] x h n = (refl, tt)
append-HasNoRepeats (y ∷ ys) x h n = (
  any_of-append (λ z. same_value y z) ys x h.0 (ground (arith, n)),
  append-HasNoRepeats ys x h.1 (ground (arith, n)),
)

add_members-HasNoRepeats :
    (seen xs : List Json) → HasNoRepeats seen → HasNoRepeats (add_members seen xs)
unfolding add_members
add_members-HasNoRepeats seen [] h = h
add_members-HasNoRepeats seen (x ∷ xs) h = elim (Bool-cases (any_of (λ y. same_value y x) seen)) [
  | inl there ↦ rw there (add_members-HasNoRepeats seen xs h)
  | inr out ↦
      rw out (add_members-HasNoRepeats (seen ++ x ∷ []) xs (append-HasNoRepeats seen x h out))
]

dedupe-HasNoRepeats : (xs : List Json) → HasNoRepeats (dedupe xs)
unfolding dedupe
dedupe-HasNoRepeats xs = add_members-HasNoRepeats [] xs tt

or_undefined-HasNoRepeats :
    (xs : List Json) → HasNoRepeats xs → HasNoRepeats (or_else (or_undefined xs) [])
unfolding or_undefined
or_undefined-HasNoRepeats [] h = h
or_undefined-HasNoRepeats (x ∷ xs) h = h

module _ (index : ℕ → String) where
  plc_facts-HasNoRepeats :
      (f g : Facts) (op : Json) → plc_facts index f op ≡ returned g → HasNoRepeats g.aliases
  unfolding plc_facts
  plc_facts-HasNoRepeats f g op h =
      let (more, found, next) = >>=-eq-returned (iterated (member op "alsoKnownAs")) _ h in
      rw (← returned-eq next) (dedupe-HasNoRepeats (f.aliases ++ more))

  create_facts-HasNoRepeats :
      (f : Facts) (op : Json)
      → HasNoRepeats f.aliases
      → HasNoRepeats (create_facts index f op).aliases
  unfolding create_facts
  create_facts-HasNoRepeats f op h =
      let handle = text_field op "handle" in
      elim (Bool-cases (is_empty handle)) [
        | inl empty ↦ rw empty h
        | inr named ↦ rw named (dedupe-HasNoRepeats (f.aliases ++ str handle ∷ []))
      ]

  facts_of-HasNoRepeats :
      (f g : Facts) (op : Json)
      → HasNoRepeats f.aliases
      → facts_of index f op ≡ returned g
      → HasNoRepeats g.aliases
  unfolding facts_of
  facts_of-HasNoRepeats f g op h eq = elim (Bool-cases (is_type op "plc_operation")) [
    | inl plc ↦ plc_facts-HasNoRepeats f g op (rw plc at eq)
    | inr other ↦ elim (Bool-cases (is_type op "create")) [
      | inl created ↦
          rw (← returned-eq (rw (other, created) at eq)) (create_facts-HasNoRepeats f op h)
      | inr neither ↦ rw (← returned-eq (rw (other, neither) at eq)) h
    ]
  ]

  collect-HasNoRepeats :
      (f g : Facts) (es : List LogEntry)
      → HasNoRepeats f.aliases
      → collect index f es ≡ returned g
      → HasNoRepeats g.aliases
  unfolding collect
  collect-HasNoRepeats f g [] h eq = rw (← returned-eq eq) h
  collect-HasNoRepeats f g (e ∷ es) h eq =
      let (next, found, rest) = >>=-eq-returned (facts_of index f e.operation) _ eq in
      collect-HasNoRepeats next g es (facts_of-HasNoRepeats f next e.operation h found) rest

  document_of-HasNoRepeats :
      (did : String) (f : Facts) (d : Document)
      → HasNoRepeats f.aliases
      → document_of index did f ≡ returned d
      → HasNoRepeats (or_else d.also_known_as [])
  unfolding document_of
  document_of-HasNoRepeats did f d h eq =
      let (methods, found, next) = >>=-eq-returned (methods_of did f.methods) _ eq in
      let (services, found', last) = >>=-eq-returned (services_of f.services) _ next in
      rw (← returned-eq last) (or_undefined-HasNoRepeats f.aliases h)

  resolve_from-HasNoRepeats :
      (did : String) (ops : List LogEntry) (o : Option LogEntry) (d : Document)
      → resolve_from index did ops o ≡ returned (some d)
      → HasNoRepeats (or_else d.also_known_as [])
  unfolding resolve_from
  resolve_from-HasNoRepeats did ops none d h = absurd (ground (arith, h))
  resolve_from-HasNoRepeats did ops (some last) d h =
      elim (Bool-cases (is_type last.operation "plc_tombstone")) [
        | inl gone ↦ absurd (ground (arith, rw gone at h))
        | inr here ↦
            let start : Facts = record { methods = []; aliases = []; services = [] } in
            let (f, found, next) = >>=-eq-returned (collect index start ops) _ (rw here at h) in
            let (doc, made, same) = >>=-eq-returned (document_of index did f) _ next in
            document_of-HasNoRepeats did f d (collect-HasNoRepeats start f ops tt found)
              (made ∙ ap returned (ground (arith, same)))
      ]

  -- A document that a log resolves to lists no alias twice.
  pub resolve-HasNoRepeats :
      (did : String) (ops : List LogEntry) (d : Document)
      → resolve_did_document index did ops ≡ returned (some d)
      → HasNoRepeats (or_else d.also_known_as [])
  unfolding resolve_did_document
  resolve-HasNoRepeats did ops d h = resolve_from-HasNoRepeats did ops (last? ops) d h
