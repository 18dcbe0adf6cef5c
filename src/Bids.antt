-- ===== src/Bids.antt =====
-- Bids (lib/abc/requester/mod.ts): the record of a bid and the kind of its payload; the choice of
-- the winner and the collector are the modules below.
pub mod Winner
pub mod Collector
use atproto_market.Common.{
  String, Option, none, some, ◌==◌, if◌then◌else◌, is_empty, or_else, split, part,
}
use atproto_market.Common.Json.{Json, Fields, fields_get, member, as_text}

pub record CollectedBid : Type 0 where
  pub did : String
  pub uri : String
  pub cid : String
  pub record_fields : Fields

-- The collection of the payload's uri.
unfoldable pub nsid_of_uri : Option String → String
unfolding split part
nsid_of_uri none = ""
nsid_of_uri (some uri) = or_else (part (split b'/' uri) 3) ""

-- An absent or empty `$type`, and that of a reference, leave it to the uri.
unfoldable pub nsid_of_payload : Option String → Option String → String
unfolding nsid_of_uri
nsid_of_payload none uri = nsid_of_uri uri
nsid_of_payload (some type) uri =
    if is_empty type
    then nsid_of_uri uri
    else if type == "com.atproto.repo.strongRef"
    then nsid_of_uri uri
    else type

unfoldable pub payload_nsid : Option Json → String
unfolding nsid_of_payload member
payload_nsid none = ""
payload_nsid (some p) = nsid_of_payload (as_text (member p "$type")) (as_text (member p "uri"))

unfoldable pub bid_payload_nsid : CollectedBid → String
unfolding payload_nsid fields_get
bid_payload_nsid bid = payload_nsid (fields_get bid.record_fields "payload")
