-- ===== src/Secrets/Paths.antt =====
-- Where the secrets of an accepted file may be written.
use atproto_market.Common.{
  String, ℕ, suc, true, false, ◌≡◌, ◌⊎◌, refl, arith, Option, none, some, List, [], ◌∷◌, split,
  includes, starts_with, Option-cases, inl, inr,
}
use atproto_market.Common.Checked.{accepted, Checked-cases, >>=-eq-accepted}
use atproto_market.Common.Json.{
  Json, Items, null, boolean, number, str, object, items, array, member, as_text,
}
use atproto_market.Secrets.{
  SecretEntry, value_text, parse_entry, parse_entries, parse_parsed, parse_secrets_file,
}

-- Each path is absolute, has no part `..`, and was not seen before.
abbrev pub AreSafe : List String → List SecretEntry → Type 0
AreSafe seen [] = Unit {0}
AreSafe seen (e ∷ es) =
    (starts_with "/" e.path ≡ true)
    × (includes ".." (split b'/' e.path) ≡ false)
    × (includes e.path seen ≡ false)
    × AreSafe (e.path ∷ seen) es

-- The entry names the path of the member of the array, and its value: the text that stands there, or
-- what `stringify` gives for another value.
pub record IsReadFrom (stringify : Json → String) (raw : Json) (e : SecretEntry) : Type 0 where
  pub path : as_text (member raw "path") ≡ some e.path
  pub value :
      (member raw "value" ≡ some (str e.value))
      ⊎ ((v : Json) × (member raw "value" ≡ some v)
          × (as_text (some v) ≡ none)
          × (e.value ≡ stringify v))

-- One entry for each member of the array, in order.
abbrev pub AreReadFrom : (Json → String) → List Json → List SecretEntry → Type 0
AreReadFrom stringify [] [] = Unit {0}
AreReadFrom stringify [] (e ∷ es) = ⊥
AreReadFrom stringify (raw ∷ raws) [] = ⊥
AreReadFrom stringify (raw ∷ raws) (e ∷ es) =
    IsReadFrom stringify raw e × AreReadFrom stringify raws es

module _ (json : String → Option Json) (stringify : Json → String) (index : ℕ → String) where
  value_text_lem :
      (i : ℕ) (o : Option Json) (value : String)
      → value_text json stringify index i o ≡ accepted value
      → (o ≡ some (str value))
        ⊎ ((v : Json) × (o ≡ some v) × (as_text (some v) ≡ none) × (value ≡ stringify v))
  unfolding value_text
  value_text_lem i none value h = absurd (ground (arith, h))
  value_text_lem i (some (str s)) value h = let is : s ≡ value = cc h in rw is (inl refl)
  value_text_lem i (some null) value h = inr (null, refl, refl, cc h)
  value_text_lem i (some (boolean b)) value h = inr (boolean b, refl, refl, cc h)
  value_text_lem i (some (number n)) value h = inr (number n, refl, refl, cc h)
  value_text_lem i (some (array vs)) value h = inr (array vs, refl, refl, cc h)
  value_text_lem i (some (object fs)) value h = inr (object fs, refl, refl, cc h)

  parse_entry-IsReadFrom :
      (i : ℕ) (seen : List String) (raw : Json) (e : SecretEntry)
      → parse_entry json stringify index i seen raw ≡ accepted e
      → IsReadFrom stringify raw e
  unfolding parse_entry
  parse_entry-IsReadFrom i seen raw e h = elim (Option-cases (as_text (member raw "path"))) [
    | inl missing ↦ absurd (ground (arith, h, missing))
    | inr (path, there) ↦
        elim (Checked-cases (value_text json stringify index i (member raw "value"))) [
          | inl (m, wrong) ↦ absurd (ground (arith, h, there, wrong))
          | inr (value, right) ↦
              let is : (record { path = path; value = value }) ≡ e =
                ground (arith, h, there, right) in
              rw (← is)
                (record { path = there; value = value_text_lem i (member raw "value") value right })
        ]
  ]

  parse_entry_lem :
      (i : ℕ) (seen : List String) (raw : Json) (e : SecretEntry)
      → parse_entry json stringify index i seen raw ≡ accepted e
      → (starts_with "/" e.path ≡ true)
        × (includes ".." (split b'/' e.path) ≡ false)
        × (includes e.path seen ≡ false)
  unfolding parse_entry
  parse_entry_lem i seen raw e h = elim (Option-cases (as_text (member raw "path"))) [
    | inl missing ↦ absurd (ground (arith, h, missing))
    | inr (path, there) ↦ ground (arith, h, there)
  ]

  handed_over :
      (seen : List String) (raws : List Json) (es xs : List SecretEntry)
      → accepted es ≡ accepted xs
      → AreSafe seen es × AreReadFrom stringify raws es
      → AreSafe seen xs × AreReadFrom stringify raws xs
  handed_over seen raws es xs last h = let is : es ≡ xs = cc last in rw is at h

  parse_entries-AreSafe :
      (i : ℕ) (seen : List String) (raws : List Json) (es : List SecretEntry)
      → parse_entries json stringify index i seen raws ≡ accepted es
      → AreSafe seen es × AreReadFrom stringify raws es
  unfolding parse_entries
  parse_entries-AreSafe i seen [] [] h = (tt, tt)
  parse_entries-AreSafe i seen [] (e ∷ es) h = cc
  parse_entries-AreSafe i seen (raw ∷ raws) [] h =
      let (e, parsed, rest) = >>=-eq-accepted (parse_entry json stringify index i seen raw) _ h in
      let (es, others, last) =
        >>=-eq-accepted (parse_entries json stringify index (suc i) (e.path ∷ seen) raws) _ rest in
      absurd (ground (arith, last))
  parse_entries-AreSafe i seen (raw ∷ raws) (x ∷ xs) h =
      let (e, parsed, rest) = >>=-eq-accepted (parse_entry json stringify index i seen raw) _ h in
      let (es, others, last) =
        >>=-eq-accepted (parse_entries json stringify index (suc i) (e.path ∷ seen) raws) _ rest in
      let (absolute, straight, new) = parse_entry_lem i seen raw e parsed in
      let (safe, read) = parse_entries-AreSafe (suc i) (e.path ∷ seen) raws es others in
      let all_read : AreSafe seen (e ∷ es) × AreReadFrom stringify (raw ∷ raws) (e ∷ es) =
        ((absolute, straight, new, safe), (parse_entry-IsReadFrom i seen raw e parsed, read)) in
      handed_over seen (raw ∷ raws) (e ∷ es) (x ∷ xs) last all_read

  -- An accepted secrets file is a JSON array with one secret for each of its members, in their order:
  -- it has the path of the member and its value, the text there or what `stringify` gives for another
  -- value; every path is absolute, none has a part `..`, and none stands twice.
  pub parse_secrets_file-AreSafe :
      (source : String) (es : List SecretEntry)
      → parse_secrets_file json stringify index source ≡ accepted es
      → (vs : Items) × (json source ≡ some (array vs))
        × AreSafe [] es
        × AreReadFrom stringify (items vs) es
  unfolding parse_secrets_file parse_parsed
  parse_secrets_file-AreSafe source es h = elim (Option-cases (json source)) [
    | inl wrong ↦ absurd (ground (arith, h, wrong))
    | inr (v, there) ↦ parsed_array v there (rw there at h)
  ]
    where
      parsed_array :
          (v : Json)
          → json source ≡ some v
          → parse_parsed json stringify index (some v) ≡ accepted es
          → (vs : Items) × (json source ≡ some (array vs))
            × AreSafe [] es
            × AreReadFrom stringify (items vs) es
      parsed_array (array vs) there h =
          let (safe, read) = parse_entries-AreSafe 0 [] (items vs) es h in (vs, there, safe, read)
      parsed_array null there h = absurd (ground (arith, h))
      parsed_array (boolean b) there h = absurd (ground (arith, h))
      parsed_array (number n) there h = absurd (ground (arith, h))
      parsed_array (str s) there h = absurd (ground (arith, h))
      parsed_array (object fs) there h = absurd (ground (arith, h))
