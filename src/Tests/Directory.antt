-- ===== src/Tests/Directory.antt =====
-- The log of a did: a genesis operation, an operation behind it, a fork, a tombstone, and operations
-- of an unknown key.
use atproto_market.Common.{
  String, ℕ, true, false, List, [], ◌∷◌, Option, none, some, ◌≡◌, ◌≢◌, refl, ◌==◌, or_else, last?,
  ◌||◌, includes, inr,
}
use atproto_market.Common.Attempt.{returned}
use atproto_market.Common.Dict.{get, set}
use atproto_market.Common.Json.{
  Json, null, str, array, nil, cons, object, end, field, fields_get, member,
}
use atproto_market.Plc.Operation.{
  Platform, Verifier, LogEntry, is_type, validate_operation_structure, validate_prev_chain,
  verify_operation_signature,
}
use atproto_market.Plc.Store.{Store, get_audit_log, get_current_ops, insert_op}
use atproto_market.Plc.Directory.{
  Response, rotation_keys, any_key, check, commit, new_entry, handle_create_op, to_nullify, created,
  ok_reply,
}
use atproto_market.Plc.Directory.Authority.{IsSignedBy, create_op-IsSignedBy}
use atproto_market.Plc.Directory.Effect.{create_op_contained}
use atproto_market.Plc.Directory.Fork.{commit_fork}
use atproto_market.Plc.Directory.Gaps.{goes_on, genesis_twice}
use atproto_market.Plc.Document.{
  Document, resolve_did_document, collect, facts_of, dedupe, same_value,
}
use atproto_market.Plc.Document.Aliases.{HasNoRepeats, resolve-HasNoRepeats}

shown : Option Json → String
shown (some (str s)) = s
shown v = "undefined"

digits : List ℕ → Option (List ℕ)
digits cs = some cs

one_byte : Json → Option (List ℕ)
one_byte op = some (1 ∷ [])

no_hash : List ℕ → List ℕ
no_hash bytes = bytes

cid_text : List ℕ → String
cid_text bytes = "new"

abbrev platform : Platform
platform = record {
  show = shown;
  atob = digits;
  cbor_encode = one_byte;
  sha256 = no_hash;
  base32 = cid_text;
}

anyone : Verifier
anyone key bytes sig = returned true

nobody : Verifier
nobody key bytes sig = returned false

abbrev plc_op : Json → Json
plc_op prev = object (
    field "type" (str "plc_operation") (
      field "rotationKeys" (array (cons (str "did:key:a") nil)) (
        field "alsoKnownAs" (array (cons (str "at://a") (cons (str "at://a") nil)))
          (field "sig" (str "c2ln") (field "prev" prev end)))))

abbrev bare_op : Json
bare_op = object (
    field "type" (str "plc_operation")
      (field "rotationKeys" (array nil) (field "sig" (str "c2ln") (field "prev" null end))))

abbrev tombstone : Json
tombstone =
    object
      (field "type" (str "plc_tombstone") (field "sig" (str "c2ln") (field "prev" (str "c1") end)))

abbrev logged : Json → String → LogEntry
logged op cid = record { did = "d"; operation = op; cid = cid; nullified = false; created_at = "t" }

abbrev first : LogEntry
first = logged (plc_op null) "c1"

abbrev second : LogEntry
second = logged (plc_op (str "c1")) "c2"

abbrev two : Store
two = ("d", first ∷ second ∷ []) ∷ []

abbrev fork : Json
fork = plc_op (str "c1")

two_current : get_current_ops two "d" ≡ first ∷ second ∷ []
unfolding get_current_ops get
two_current = refl

commit_fork_example :
    get_current_ops
      (commit platform two "d"
        (record { operation = fork; current_ops = get_current_ops two "d" })
        "now").0
      "d"
    ≡ first ∷ new_entry platform "d" fork (1 ∷ []) "now" ∷ []
unfolding is_type member fields_get one_byte includes
commit_fork_example =
    commit_fork platform two "d" "now" fork [] (second ∷ []) first (1 ∷ []) two_current
      (refl, (refl, tt)) refl refl refl

abbrev third : Json
third = plc_op (str "c2")

abbrev grown : Store
grown = ("d", first ∷ second ∷ new_entry platform "d" third (1 ∷ []) "now" ∷ []) ∷ []

abbrev accepted_reply : Response
accepted_reply = ok_reply (created (new_entry platform "d" third (1 ∷ []) "now"))

third_accepted :
    handle_create_op platform two "d" (some third) (some anyone) "now"
    ≡ returned (grown, accepted_reply)
unfolding handle_create_op check validate_operation_structure is_type member fields_get
    get_current_ops get_audit_log get validate_prev_chain rotation_keys any_key
    verify_operation_signature one_byte digits anyone insert_op set to_nullify
third_accepted = refl

two_last : last? (get_current_ops two "d") ≡ some second
unfolding get_current_ops get
two_last = refl

third_kind : (is_type third "plc_operation" || is_type third "plc_tombstone") ≡ true
unfolding is_type
third_kind = refl

second_kind : is_type second.operation "plc_operation" ≡ true
unfolding is_type
second_kind = refl

create_op-IsSignedBy_example : IsSignedBy platform third anyone second.operation
create_op-IsSignedBy_example =
    create_op-IsSignedBy platform third two grown "d" "now" accepted_reply anyone second two_last
      second_kind third_kind third_accepted refl

create_op_contained_example :
    ((d : String) → ("d" == d) ≡ false → get grown d ≡ get two d)
    × (accepted_reply.status ≢ 200 → grown ≡ two)
create_op_contained_example =
    create_op_contained platform two "d" "now" (some third) (some anyone) grown accepted_reply
      third_accepted

abbrev genesis : Json
genesis = plc_op null

nothing_there : get {V = List LogEntry} [] "d" ≡ none
unfolding get
nothing_there = refl

genesis_shape : validate_operation_structure shown genesis ≡ none
unfolding validate_operation_structure is_type
genesis_shape = refl

bare_shape : validate_operation_structure shown bare_op ≡ none
unfolding validate_operation_structure is_type
bare_shape = refl

genesis_prev : member genesis "prev" ≡ some null
unfolding member
genesis_prev = refl

bare_prev : member bare_op "prev" ≡ some null
unfolding member
bare_prev = refl

encoded : one_byte genesis ≡ some (1 ∷ [])
unfolding one_byte
encoded = refl

bare_encoded : one_byte bare_op ≡ some (1 ∷ [])
unfolding one_byte
bare_encoded = refl

genesis_twice_example :
    (check platform [] "d" (some genesis) (some nobody)
      ≡ returned (inr (goes_on platform [] "d" genesis (some nobody))))
    × (check platform [] "d" (some bare_op) (some nobody)
        ≡ returned (inr (goes_on platform [] "d" bare_op (some nobody))))
    × (get_current_ops
          (commit platform
            (commit platform [] "d" (goes_on platform [] "d" genesis (some nobody)) "t1").0
            "d"
            (goes_on platform [] "d" bare_op (some nobody))
            "t2").0
          "d"
        ≡ new_entry platform "d" genesis (1 ∷ []) "t1"
          ∷ new_entry platform "d" bare_op (1 ∷ []) "t2"
          ∷ [])
genesis_twice_example =
    genesis_twice platform [] "d" "t1" "t2" genesis bare_op (some nobody) (1 ∷ []) (1 ∷ [])
      nothing_there genesis_shape bare_shape genesis_prev bare_prev encoded bare_encoded

indexed : ℕ → String
indexed i = "0"

abbrev the_document : Document
the_document = record {
  id = "d";
  also_known_as = some (str "at://a" ∷ []);
  verification_method = none;
  service = none;
}

two_resolved : resolve_did_document indexed "d" (first ∷ second ∷ []) ≡ returned (some the_document)
unfolding resolve_did_document is_type facts_of member fields_get dedupe same_value collect
two_resolved = refl

resolve-HasNoRepeats_example : HasNoRepeats (or_else the_document.also_known_as [])
resolve-HasNoRepeats_example =
    resolve-HasNoRepeats indexed "d" (first ∷ second ∷ []) the_document two_resolved
