-- ===== src/Bidder/Accepts.antt =====
-- An accept is handed to the callback once (lib/market-bidder/mod.ts, the wrapper of `onAccept` in
-- `beginServe`). Times are milliseconds.
pub mod Skipped
use atproto_market.Common.{
  String, ℕ, suc, Bool, true, false, Option, none, some, List, [], ◌∷◌, if◌then◌else◌, ltb, ◌-◌,
}
use atproto_market.Common.Dict.{Dict, get, set, has}

pub record Accepted : Type 0 where
  pub times : Dict ℕ
  pub counter : ℕ

abbrev pub nothing_accepted : Accepted
nothing_accepted = record { times = []; counter = 0 }

-- The entries that are older than the cutoff are deleted.
unfoldable pub sweep : ℕ → Dict ℕ → Dict ℕ
sweep cutoff [] = []
sweep cutoff ((uri, at) ∷ m) =
    let rest = sweep cutoff m in if ltb at cutoff then rest else (uri, at) ∷ rest

abbrev pub one_hour : ℕ
one_hour = 3600000

-- After a hundred accepts the old ones are swept.
unfoldable pub counted : Accepted → ℕ → Accepted
unfolding sweep
counted a now =
    if ltb 100 (suc a.counter)
    then record { times = sweep (now - one_hour) a.times; counter = 0 }
    else record { times = a.times; counter = suc a.counter }

-- `true` where the accept goes on to the callback; a duplicate is replied to with status 200.
unfoldable pub admit : Accepted → ℕ → String → Accepted × Bool
unfolding counted
admit a now uri =
    if has a.times uri
    then (a, false)
    else (counted (record a { times = set a.times uri now }) now, true)

-- Accepts in a row, each with its time.
unfoldable pub admit_all : Accepted → List (ℕ × String) → Accepted
unfolding admit
admit_all a [] = a
admit_all a ((now, uri) ∷ rest) = admit_all (admit a now uri).0 rest
