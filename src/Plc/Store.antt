-- ===== src/Plc/Store.antt =====
-- `MemoryPlcStore` (lib/hono-factory-did-plc-directory/storage/plc-store.ts): the log of each did.
use atproto_market.Common.{
  String, Bool, true, not, Option, none, some, List, [], ◌∷◌, ◌++◌, ◌==◌, if◌then◌else◌, or_else,
  find_first, includes, keep,
}
use atproto_market.Common.Dict.{Dict, get, set}
use atproto_market.Plc.Operation.{LogEntry}

abbrev pub Store : Type 0
Store = Dict (List LogEntry)

abbrev pub is_current : LogEntry → Bool
is_current e = not e.nullified

unfoldable pub get_audit_log : Store → String → List LogEntry
get_audit_log s did = or_else (get s did) []

unfoldable pub get_current_ops : Store → String → List LogEntry
get_current_ops s did = keep is_current (or_else (get s did) [])

unfoldable pub get_op_by_cid : Store → String → String → Option LogEntry
get_op_by_cid s did cid = find_first (λ e. e.cid == cid) (or_else (get s did) [])

unfoldable pub insert_op : Store → LogEntry → Store
insert_op s entry = set s entry.did (or_else (get s entry.did) [] ++ entry ∷ [])

-- The loop that marks the entries whose cid is listed.
unfoldable pub nullify : List String → List LogEntry → List LogEntry
unfolding includes
nullify cids [] = []
nullify cids (e ∷ es) =
    (if includes e.cid cids then record e { nullified = true } else e) ∷ nullify cids es

unfoldable pub nullify_log : Store → String → List String → Option (List LogEntry) → Store
nullify_log s did cids none = s
nullify_log s did cids (some ops) = set s did (nullify cids ops)

unfoldable pub nullify_ops : Store → String → List String → Store
unfolding nullify_log
nullify_ops s did cids = nullify_log s did cids (get s did)
