-- ===== src/Tests/Files.antt =====
-- A secrets file of two entries.
use atproto_market.Common.{
  String, ℕ, List, [], ◌∷◌, Option, some, ◌≡◌, refl, includes, split, strip_prefix,
}
use atproto_market.Common.Checked.{accepted}
use atproto_market.Common.Json.{
  Json, Items, null, str, array, nil, cons, object, end, field, items, fields_get, member,
}
use atproto_market.Secrets.{SecretEntry, parse_entry, parse_entries, parse_secrets_file}
use atproto_market.Secrets.Paths.{AreSafe, AreReadFrom, parse_secrets_file-AreSafe}

abbrev entry_json : String → Json → Json
entry_json path value = object (field "path" (str path) (field "value" value end))

two_entries : String → Option Json
two_entries source =
    some (array (cons (entry_json "/a" (str "v")) (cons (entry_json "/b/c" null) nil)))

abbrev as_json : Json → String
as_json v = "null"

abbrev digit : ℕ → String
digit i = "0"

abbrev two_secrets : List SecretEntry
two_secrets =
    (record { path = "/a"; value = "v" }) ∷ (record { path = "/b/c"; value = "null" }) ∷ []

two_accepted : parse_secrets_file two_entries as_json digit "[]" ≡ accepted two_secrets
unfolding parse_secrets_file two_entries parse_entry parse_entries fields_get member includes split
    strip_prefix
two_accepted = refl

parse_secrets_file-AreSafe_example :
    (vs : Items) × (two_entries "[]" ≡ some (array vs))
    × AreSafe [] two_secrets
    × AreReadFrom as_json (items vs) two_secrets
parse_secrets_file-AreSafe_example =
    parse_secrets_file-AreSafe two_entries as_json digit "[]" two_secrets two_accepted
