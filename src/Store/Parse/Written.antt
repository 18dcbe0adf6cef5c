-- ===== src/Store/Parse/Written.antt =====
-- The written form of a contract is read as that contract.
use atproto_market.Common.{
  String, false, ◌≡◌, refl, ◌∙◌, arith, Option, none, some, ◌==◌, eq_refl, is_empty,
}
use atproto_market.Common.Attempt.{returned}
use atproto_market.Common.Json.{Json, Fields, number, str, object, end, field, fields_get, member}
use atproto_market.Receipts.{ProviderId, name, numeral, StoredContract}
use atproto_market.Store.Parse.{
  needed, text_or_thrown, optional, provider_id_of, contract_of, with_text, with_id, contract_json,
}

-- The five texts that a contract needs are there.
pub record IsFilled (c : StoredContract) : Type 0 where
  pub key : is_empty c.key ≡ false
  pub receipt_uri : is_empty c.receipt_uri ≡ false
  pub receipt_cid : is_empty c.receipt_cid ≡ false
  pub accept_author : is_empty c.accept_author ≡ false
  pub accepted_at : is_empty c.accepted_at ≡ false

text_json : Option String → Option Json
text_json none = none
text_json (some s) = some (str s)

id_json : Option ProviderId → Option Json
id_json none = none
id_json (some (name s)) = some (str s)
id_json (some (numeral n)) = some (number n)

with_text-skip :
    (k j : String) (o : Option String) (fs : Fields)
    → (k == j) ≡ false
    → fields_get (with_text k o fs) j ≡ fields_get fs j
unfolding with_text fields_get
with_text-skip k j none fs h = refl
with_text-skip k j (some s) fs h = rw h refl

with_id-skip :
    (j : String) (o : Option ProviderId) (fs : Fields)
    → ("providerId" == j) ≡ false
    → fields_get (with_id o fs) j ≡ fields_get fs j
unfolding with_id fields_get
with_id-skip j none fs h = refl
with_id-skip j (some (name s)) fs h = rw h refl
with_id-skip j (some (numeral n)) fs h = rw h refl

with_text-hit :
    (k : String) (o : Option String) (fs : Fields)
    → fields_get fs k ≡ none
    → fields_get (with_text k o fs) k ≡ text_json o
unfolding with_text fields_get text_json
with_text-hit k none fs h = h
with_text-hit k (some s) fs h = rw (eq_refl k) refl

with_id-hit :
    (o : Option ProviderId) (fs : Fields)
    → fields_get fs "providerId" ≡ none
    → fields_get (with_id o fs) "providerId" ≡ id_json o
unfolding with_id fields_get id_json
with_id-hit none fs h = h
with_id-hit (some (name s)) fs h = refl
with_id-hit (some (numeral n)) fs h = refl

needed_lem :
    (fs : Fields) (k s : String)
    → fields_get fs k ≡ some (str s)
    → is_empty s ≡ false
    → needed (object fs) k ≡ returned s
unfolding needed member
needed_lem fs k s there full = ground (arith, there, full)

optional_lem :
    (fs : Fields) (k : String) (o : Option String)
    → fields_get fs k ≡ text_json o
    → optional (object fs) k ≡ returned o
unfolding optional member text_or_thrown text_json
optional_lem fs k none there = rw there refl
optional_lem fs k (some s) there = rw there refl

provider_id_of_lem : (o : Option ProviderId) → provider_id_of (id_json o) ≡ returned o
unfolding provider_id_of id_json
provider_id_of_lem none = refl
provider_id_of_lem (some (name s)) = refl
provider_id_of_lem (some (numeral n)) = refl

-- The optional properties of a contract, in the order in which they are written.
tail : StoredContract → Fields
tail c = with_text "acceptUri" c.accept_uri (
    with_text "acceptCid" c.accept_cid (
      with_id c.provider_id
        (with_text "provider" c.provider (with_text "submitEventUrl" c.submit_event_url end))))

module _ (c : StoredContract) where
  tail-submit_event_url : fields_get (tail c) "submitEventUrl" ≡ text_json c.submit_event_url
  unfolding tail fields_get
  tail-submit_event_url =
      with_text-skip "acceptUri" "submitEventUrl" c.accept_uri _ refl
      ∙ with_text-skip "acceptCid" "submitEventUrl" c.accept_cid _ refl
      ∙ with_id-skip "submitEventUrl" c.provider_id _ refl
      ∙ with_text-skip "provider" "submitEventUrl" c.provider _ refl
      ∙ with_text-hit "submitEventUrl" c.submit_event_url end refl

  tail-provider : fields_get (tail c) "provider" ≡ text_json c.provider
  unfolding tail fields_get
  tail-provider =
      with_text-skip "acceptUri" "provider" c.accept_uri _ refl
      ∙ with_text-skip "acceptCid" "provider" c.accept_cid _ refl
      ∙ with_id-skip "provider" c.provider_id _ refl
      ∙ with_text-hit "provider" c.provider _
          (with_text-skip "submitEventUrl" "provider" c.submit_event_url end refl)

  tail-provider_id : fields_get (tail c) "providerId" ≡ id_json c.provider_id
  unfolding tail fields_get
  tail-provider_id =
      with_text-skip "acceptUri" "providerId" c.accept_uri _ refl
      ∙ with_text-skip "acceptCid" "providerId" c.accept_cid _ refl
      ∙ with_id-hit c.provider_id _ (
          with_text-skip "provider" "providerId" c.provider _ refl
          ∙ with_text-skip "submitEventUrl" "providerId" c.submit_event_url end refl)

  tail-accept_cid : fields_get (tail c) "acceptCid" ≡ text_json c.accept_cid
  unfolding tail fields_get
  tail-accept_cid =
      with_text-skip "acceptUri" "acceptCid" c.accept_uri _ refl
      ∙ with_text-hit "acceptCid" c.accept_cid _ (
          with_id-skip "acceptCid" c.provider_id _ refl
          ∙ with_text-skip "provider" "acceptCid" c.provider _ refl
          ∙ with_text-skip "submitEventUrl" "acceptCid" c.submit_event_url end refl)

  tail-accept_uri : fields_get (tail c) "acceptUri" ≡ text_json c.accept_uri
  unfolding tail fields_get
  tail-accept_uri = with_text-hit "acceptUri" c.accept_uri _ (
      with_text-skip "acceptCid" "acceptUri" c.accept_cid _ refl
      ∙ with_id-skip "acceptUri" c.provider_id _ refl
      ∙ with_text-skip "provider" "acceptUri" c.provider _ refl
      ∙ with_text-skip "submitEventUrl" "acceptUri" c.submit_event_url end refl)

unfoldable pub all : StoredContract → Fields
unfolding tail
all c = field "key" (str c.key) (
    field "receiptUri" (str c.receipt_uri) (
      field "receiptCid" (str c.receipt_cid) (
        field "acceptAuthor" (str c.accept_author)
          (field "acceptedAt" (str c.accepted_at) (tail c)))))

-- The contract that is written is the one that is read.
pub contract_of-contract_json :
    (c : StoredContract) → IsFilled c → contract_of (contract_json c) ≡ returned c
unfolding contract_of contract_json all tail fields_get member
contract_of-contract_json c w =
    rw
      (
        needed_lem (all c) "key" c.key refl w.key,
        needed_lem (all c) "receiptUri" c.receipt_uri refl w.receipt_uri,
        needed_lem (all c) "receiptCid" c.receipt_cid refl w.receipt_cid,
        needed_lem (all c) "acceptAuthor" c.accept_author refl w.accept_author,
        needed_lem (all c) "acceptedAt" c.accepted_at refl w.accepted_at,
        optional_lem (all c) "acceptUri" c.accept_uri (tail-accept_uri c),
        optional_lem (all c) "acceptCid" c.accept_cid (tail-accept_cid c),
        optional_lem (all c) "provider" c.provider (tail-provider c),
        optional_lem (all c) "submitEventUrl" c.submit_event_url (tail-submit_event_url c),
        tail-provider_id c,
        provider_id_of_lem c.provider_id,
      )
      refl
