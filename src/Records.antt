-- ===== src/Records.antt =====
-- Record references and AT URIs (lib/abc/market/resolve.ts).
use atproto_market.Common.{
  String, zero, suc, ℕ, Bool, ◌&&◌, Option, ◌==◌, ◌⧺◌, or_else, split, part, remove_first,
}

pub record RecordRef : Type 0 where
  pub uri : String
  pub cid : String

pub record AtUriParts : Type 0 where
  pub repo : Option String
  pub collection : Option String
  pub rkey : Option String

-- `s.slice(n)`, by code points.
unfoldable pub drop_chars : ℕ → String → String
drop_chars zero s = s
drop_chars (suc n) String.[] = String.[]
drop_chars (suc n) (String.◌∷◌ c s) = drop_chars n s

-- A part that the URI lacks is `undefined`.
unfoldable pub parse_at_uri : String → AtUriParts
unfolding drop_chars split part
parse_at_uri uri =
    let parts = split b'/' (drop_chars 5 uri) in
    record { repo = part parts 0; collection = part parts 1; rkey = part parts 2 }

-- `split` never gives an empty list, so the first part is there.
unfoldable pub at_uri_authority : String → String
unfolding split part remove_first
at_uri_authority uri = or_else (part (split b'/' (remove_first "at://" uri)) 0) ""

unfoldable pub nsid_from_uri : String → Option String
unfolding parse_at_uri
nsid_from_uri uri = (parse_at_uri uri).collection

unfoldable pub ref_key : RecordRef → String
ref_key r = r.uri ⧺ "#" ⧺ r.cid

unfoldable pub refs_equal : RecordRef → RecordRef → Bool
refs_equal a b = a.uri == b.uri && a.cid == b.cid
