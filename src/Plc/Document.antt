-- ===== src/Plc/Document.antt =====
-- The document that the current operations of a did resolve to, and the handler that serves it
-- (lib/hono-factory-did-plc-directory/did-resolution.ts and handlers.ts).
pub mod Aliases
use atproto_market.Common.{
  String, ℕ, suc, Bool, true, false, not, Option, none, some, List, [], ◌∷◌, ◌++◌, ◌==◌, ◌⧺◌,
  if◌then◌else◌, eqb, length, any_of, last?, is_empty, or_else, strip_prefix,
}
use atproto_market.Common.Attempt.{Attempt, returned, thrown, ◌>>=◌}
use atproto_market.Common.Dict.{Dict, set}
use atproto_market.Common.Json.{
  Json, Number, natural, negative, fractional, Fields, null, boolean, number, str, array, object,
  end, field, items, member, as_text,
}
use atproto_market.Plc.Operation.{LogEntry, is_type}
use atproto_market.Plc.Store.{Store, get_current_ops}

pub record Method : Type 0 where
  pub id : String
  pub controller : String
  pub public_key_multibase : String

pub record Service : Type 0 where
  pub id : String
  pub type : Option Json
  pub service_endpoint : Option Json

pub record Document : Type 0 where
  pub id : String
  pub also_known_as : Option (List Json)
  pub verification_method : Option (List Method)
  pub service : Option (List Service)

same_number : Number → Number → Bool
same_number (natural a) (natural b) = eqb a b
same_number (negative a) (negative b) = eqb a b
same_number (fractional a) (fractional b) = a == b
same_number _ _ = false

-- The equality by which a `Set` tells its members apart: two objects are never the same one.
unfoldable pub same_value : Json → Json → Bool
unfolding same_number
same_value null null = true
same_value (boolean true) (boolean true) = true
same_value (boolean false) (boolean false) = true
same_value (number a) (number b) = same_number a b
same_value (str a) (str b) = a == b
same_value _ _ = false

-- The members of a `Set` and then those of a list, in the order of their insertion.
unfoldable pub add_members : List Json → List Json → List Json
add_members seen [] = seen
add_members seen (x ∷ xs) =
    let kept = add_members seen xs in
    let grown = add_members (seen ++ x ∷ []) xs in
    if any_of (λ y. same_value y x) seen then kept else grown

-- `[...new Set(arr)]`
unfoldable pub dedupe : List Json → List Json
unfolding add_members
dedupe xs = add_members [] xs

-- What the operations have said so far.
pub record Facts : Type 0 where
  pub methods : Dict Json
  pub aliases : List Json
  pub services : Dict Json

spread_fields : Dict Json → Fields → Dict Json
spread_fields m end = m
spread_fields m (field k v fs) = spread_fields (set m k v) fs

spread_dict : Dict Json → Dict Json → Dict Json
spread_dict m [] = m
spread_dict m ((k, v) ∷ ms) = spread_dict (set m k v) ms

-- `...op.alsoKnownAs`, which throws for a value that is no array.
unfoldable pub iterated : Option Json → Attempt (List Json)
iterated (some (array vs)) = returned (items vs)
iterated _ = thrown "op.alsoKnownAs is not iterable"

-- The text of a field that the structure check has found to be one.
unfoldable pub text_field : Json → String → String
unfolding member
text_field op k = or_else (as_text (member op k)) ""

-- A list of nothing, if the condition fails.
unfoldable pub or_undefined {ℓ} : {A : Type ℓ} → List A → Option (List A)
or_undefined [] = none
or_undefined (x ∷ xs) = some (x ∷ xs)

method_of : String → String → Json → Attempt Method
unfolding strip_prefix
method_of did id (str key) = returned (record {
  id = "#" ⧺ id;
  controller = did;
  public_key_multibase = or_else (strip_prefix "did:key:" key) key;
})
method_of did id _ = thrown "key.startsWith is not a function"

unfoldable pub methods_of : String → Dict Json → Attempt (List Method)
unfolding method_of
methods_of did [] = returned []
methods_of did ((id, key) ∷ ms) = do
  m ← method_of did id key
  rest ← methods_of did ms
  returned (m ∷ rest)

service_of : String → Json → Attempt Service
service_of id null = thrown "Cannot read properties of null"
service_of id s =
    returned
      (record { id = "#" ⧺ id; type = member s "type"; service_endpoint = member s "endpoint" })

unfoldable pub services_of : Dict Json → Attempt (List Service)
unfolding service_of
services_of [] = returned []
services_of ((id, s) ∷ ss) = do x ← service_of id s; rest ← services_of ss; returned (x ∷ rest)

-- `index` writes an array's index as a key.
module _ (index : ℕ → String) where
  spread_items : Dict Json → ℕ → List Json → Dict Json
  spread_items m i [] = m
  spread_items m i (v ∷ vs) = spread_items (set m (index i) v) (suc i) vs

  -- `{ ...m, ...v }`; a text, whose characters would be spread, does not pass the structure check.
  spread : Dict Json → Option Json → Dict Json
  unfolding spread_fields spread_items
  spread m (some (object fs)) = spread_fields m fs
  spread m (some (array vs)) = spread_items m 0 (items vs)
  spread m _ = m

  unfoldable pub plc_facts : Facts → Json → Attempt Facts
  unfolding spread iterated
  plc_facts f op = do
    more ← iterated (member op "alsoKnownAs")
    returned (record {
      methods = spread f.methods (member op "verificationMethods");
      aliases = dedupe (f.aliases ++ more);
      services = spread f.services (member op "services");
    })

  unfoldable pub create_facts : Facts → Json → Facts
  unfolding spread_dict text_field
  create_facts f op =
      let handle = text_field op "handle" in
      let pds = object (
        field "type" (str "AtprotoPersonalDataServer")
          (field "endpoint" (str (text_field op "service")) end)) in
      record {
        methods = spread_dict (("atproto", str (text_field op "signingKey")) ∷ []) f.methods;
        aliases = if is_empty handle then f.aliases else dedupe (f.aliases ++ str handle ∷ []);
        services = spread_dict (("atproto_pds", pds) ∷ []) f.services;
      }

  unfoldable pub facts_of : Facts → Json → Attempt Facts
  unfolding plc_facts create_facts
  facts_of f op =
      if is_type op "plc_operation"
      then plc_facts f op
      else if is_type op "create"
      then returned (create_facts f op)
      else returned f

  unfoldable pub collect : Facts → List LogEntry → Attempt Facts
  unfolding facts_of
  collect f [] = returned f
  collect f (e ∷ es) = (facts_of f e.operation) >>= λ g. collect g es

  unfoldable pub document_of : String → Facts → Attempt Document
  unfolding methods_of services_of or_undefined
  document_of did f = do
    methods ← methods_of did f.methods
    services ← services_of f.services
    returned (record {
      id = did;
      also_known_as = or_undefined f.aliases;
      verification_method = or_undefined methods;
      service = or_undefined services;
    })

  unfoldable pub resolve_from : String → List LogEntry → Option LogEntry → Attempt (Option Document)
  unfolding document_of
  resolve_from did ops none = returned none
  resolve_from did ops (some last) =
      if is_type last.operation "plc_tombstone"
      then returned none
      else (collect (record { methods = []; aliases = []; services = [] }) ops) >>= λ f.
          (document_of did f) >>= λ d. returned (some d)

  unfoldable pub resolve_did_document : String → List LogEntry → Attempt (Option Document)
  unfolding resolve_from
  resolve_did_document did ops = resolve_from did ops (last? ops)

  -- The status and the document of `GET /:did`.
  unfoldable pub handle_resolve_did : Store → String → Attempt (ℕ × Option Document)
  handle_resolve_did s did =
      let ops = get_current_ops s did in
      let found = (resolve_did_document did ops) >>= λ d. elim d [
        | none ↦ returned (410, none)
        | some doc ↦ returned (200, some doc)
      ] in
      elim (last? ops) [
        | none ↦ returned (404, none)
        | some last ↦ if is_type last.operation "plc_tombstone" then returned (410, none) else found
      ]
