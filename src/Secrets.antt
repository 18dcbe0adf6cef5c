-- ===== src/Secrets.antt =====
-- The file of secrets that an operator names (lib/common/secrets-common/mod.ts). An error that is
-- thrown is a refusal with its message.
pub mod Paths
use atproto_market.Common.{
  String, ℕ, suc, Bool, not, Option, none, some, List, [], ◌∷◌, ◌⧺◌, is_empty, split, includes,
  starts_with,
}
use atproto_market.Common.Checked.{Checked, accepted, refused, demand, demand_some, ◌>>=◌, ◌>>◌}
use atproto_market.Common.Json.{Json, str, array, items, member, is_object, as_text}

pub record SecretEntry : Type 0 where
  pub path : String
  pub value : String

-- The platform's `JSON.parse` (`none` where it throws), `JSON.stringify` and the printing of an
-- index in a message.
module _ (json : String → Option Json) (stringify : Json → String) (index : ℕ → String) where
  value_text : ℕ → Option Json → Checked String
  value_text i (some (str s)) = accepted s
  value_text i (some v) = accepted (stringify v)
  value_text i none = refused ("secrets[" ⧺ index i ⧺ "].value must be a string or JSON value")

  -- One entry, with the paths that were seen before it.
  unfoldable pub parse_entry : ℕ → List String → Json → Checked SecretEntry
  unfolding value_text member split
  parse_entry i seen raw = do
    demand (is_object raw) ("secrets[" ⧺ index i ⧺ "] must be an object")
    path ←
        demand_some (as_text (member raw "path"))
          ("secrets[" ⧺ index i ⧺ "].path must be a non-empty string")
    demand (not (is_empty path)) ("secrets[" ⧺ index i ⧺ "].path must be a non-empty string")
    demand (starts_with "/" path) ("secrets[" ⧺ index i ⧺ "].path must be absolute: " ⧺ path)
    demand (not (includes ".." (split b'/' path)))
        ("secrets[" ⧺ index i ⧺ "].path must not traverse: " ⧺ path)
    value ← value_text i (member raw "value")
    demand (not (includes path seen)) ("secrets contains duplicate path: " ⧺ path)
    accepted (record { path = path; value = value })

  unfoldable pub parse_entries : ℕ → List String → List Json → Checked (List SecretEntry)
  parse_entries i seen [] = accepted []
  parse_entries i seen (raw ∷ raws) = do
    entry ← parse_entry i seen raw
    entries ← parse_entries (suc i) (entry.path ∷ seen) raws
    accepted (entry ∷ entries)

  -- What `JSON.parse` gave.
  unfoldable pub parse_parsed : Option Json → Checked (List SecretEntry)
  unfolding parse_entries
  parse_parsed none = refused "secrets file is not valid JSON"
  parse_parsed (some (array vs)) = parse_entries 0 [] (items vs)
  parse_parsed (some v) = refused "secrets file must be an array of {path, value}"

  unfoldable pub parse_secrets_file : String → Checked (List SecretEntry)
  unfolding parse_parsed
  parse_secrets_file source = parse_parsed (json source)
