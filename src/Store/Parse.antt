-- ===== src/Store/Parse.antt =====
-- The text of one file (lib/market-bidder-contract-store-fs/mod.ts).
pub mod Written
use atproto_market.Common.{
  String, ℕ, Bool, true, false, not, Option, none, some, if◌then◌else◌, ◌==◌, ◌⧺◌, is_empty, eqb,
}
use atproto_market.Common.Attempt.{Attempt, returned, thrown, ◌>>=◌}
use atproto_market.Common.Json.{
  Json, Fields, natural, number, str, object, end, field, member, is_object, as_text,
}
use atproto_market.Receipts.{ProviderId, name, numeral, StoredContract, Tombstone}

-- The platform: `JSON.parse` and `JSON.stringify`, `encodeURIComponent`, and `Date.parse` in
-- milliseconds since the earliest date that there is, `none` where it gives no time.
pub record Platform : Type 0 where
  pub parse : String → Attempt Json
  pub stringify : Json → String
  pub encode : String → String
  pub time : String → Option ℕ

unfoldable pub file_name_of : Platform → String → String
file_name_of p receipt_uri = p.encode receipt_uri ⧺ ".json"

-- The text of a property that is a non-empty text.
unfoldable pub needed : Json → String → Attempt String
unfolding member
needed v k = elim (as_text (member v k)) [
  | none ↦ thrown ("missing " ⧺ k)
  | some s ↦ if is_empty s then thrown ("missing " ⧺ k) else returned s
]

unfoldable pub text_or_thrown : String → Option Json → Attempt (Option String)
text_or_thrown k none = returned none
text_or_thrown k (some (str s)) = returned (some s)
text_or_thrown k (some v) = thrown (k ⧺ " is not a string")

-- A property that may be missing.
unfoldable pub optional : Json → String → Attempt (Option String)
unfolding text_or_thrown member
optional v k = text_or_thrown k (member v k)

unfoldable pub provider_id_of : Option Json → Attempt (Option ProviderId)
provider_id_of none = returned none
provider_id_of (some (str s)) = returned (some (name s))
provider_id_of (some (number n)) = returned (some (numeral n))
provider_id_of (some v) = thrown "providerId is neither a string nor a number"

unfoldable pub is_version : Option Json → Bool
is_version (some (number (natural n))) = eqb n 1
is_version _ = false

unfoldable pub body_of : String → Option Json → Attempt Json
body_of k none = thrown ("no " ⧺ k)
body_of k (some v) = if is_object v then returned v else thrown ("no " ⧺ k)

unfoldable pub envelope_body : Json → String → Attempt Json
unfolding is_version body_of member
envelope_body v k =
    if not (is_object v)
    then thrown "not an object"
    else if not (is_version (member v "version"))
    then thrown "another version"
    else body_of k (member v k)

unfoldable pub parse_envelope : Platform → String → String → Attempt Json
parse_envelope p raw k = p.parse raw >>= λ v. envelope_body v k

unfoldable pub check_name : Bool → StoredContract → Attempt StoredContract
check_name true c = returned c
check_name false c = thrown ("holds receipt " ⧺ c.receipt_uri ⧺ ", which belongs in another file")

-- The contract of an envelope's body.
unfoldable pub contract_of : Json → Attempt StoredContract
contract_of c = do
  key ← needed c "key"
  receipt_uri ← needed c "receiptUri"
  receipt_cid ← needed c "receiptCid"
  accept_author ← needed c "acceptAuthor"
  accepted_at ← needed c "acceptedAt"
  accept_uri ← optional c "acceptUri"
  accept_cid ← optional c "acceptCid"
  provider ← optional c "provider"
  submit_event_url ← optional c "submitEventUrl"
  provider_id ← provider_id_of (member c "providerId")
  returned (record {
    key = key;
    receipt_uri = receipt_uri;
    receipt_cid = receipt_cid;
    accept_uri = accept_uri;
    accept_cid = accept_cid;
    accept_author = accept_author;
    accepted_at = accepted_at;
    provider_id = provider_id;
    provider = provider;
    submit_event_url = submit_event_url;
  })

-- A file has to have the name of its receipt.
unfoldable pub parse_contract : Platform → String → String → Attempt StoredContract
unfolding check_name
parse_contract p raw file = do
  v ← parse_envelope p raw "contract"
  c ← contract_of v
  check_name (file_name_of p c.receipt_uri == file) c

-- The body's tombstone, with its time.
unfoldable pub tombstone_of : Platform → Json → Attempt (Tombstone × ℕ)
tombstone_of p t = do
  receipt_uri ← needed t "receiptUri"
  accept_author ← needed t "acceptAuthor"
  reason ← needed t "reason"
  at ← needed t "at"
  time ← elim (p.time at) [ none ↦ thrown "at is not a time" | some n ↦ returned n ]
  receipt_cid ← optional t "receiptCid"
  accept_uri ← optional t "acceptUri"
  accept_cid ← optional t "acceptCid"
  returned (
    record {
      receipt_uri = receipt_uri;
      accept_author = accept_author;
      reason = reason;
      at = at;
      receipt_cid = receipt_cid;
      accept_uri = accept_uri;
      accept_cid = accept_cid;
    },
    time,
  )

unfoldable pub parse_tombstone : Platform → String → Attempt (Tombstone × ℕ)
parse_tombstone p raw = parse_envelope p raw "tombstone" >>= tombstone_of p

-- A property that is `undefined` is not written.
unfoldable pub with_text : String → Option String → Fields → Fields
with_text k none fs = fs
with_text k (some s) fs = field k (str s) fs

unfoldable pub with_id : Option ProviderId → Fields → Fields
with_id none fs = fs
with_id (some (name s)) fs = field "providerId" (str s) fs
with_id (some (numeral n)) fs = field "providerId" (number n) fs

unfoldable pub contract_json : StoredContract → Json
unfolding with_text with_id
contract_json c = object (
    field "key" (str c.key) (
      field "receiptUri" (str c.receipt_uri) (
        field "receiptCid" (str c.receipt_cid) (
          field "acceptAuthor" (str c.accept_author) (
            field "acceptedAt" (str c.accepted_at) (
              with_text "acceptUri" c.accept_uri (
                with_text "acceptCid" c.accept_cid (
                  with_id c.provider_id (
                    with_text "provider" c.provider
                      (with_text "submitEventUrl" c.submit_event_url end))))))))))

unfoldable pub tombstone_json : Tombstone → Json
unfolding with_text
tombstone_json t = object (
    field "receiptUri" (str t.receipt_uri) (
      field "acceptAuthor" (str t.accept_author) (
        field "reason" (str t.reason) (
          field "at" (str t.at) (
            with_text "receiptCid" t.receipt_cid
              (with_text "acceptUri" t.accept_uri (with_text "acceptCid" t.accept_cid end)))))))

unfoldable pub envelope_of : String → Json → Json
envelope_of k v = object (field "version" (number (natural 1)) (field k v end))

-- `JSON.stringify` of an envelope, and a line break.
unfoldable pub envelope_text : Platform → String → Json → String
unfolding envelope_of
envelope_text p k v = p.stringify (envelope_of k v) ⧺ "\n"
