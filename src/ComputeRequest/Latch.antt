-- ===== src/ComputeRequest/Latch.antt =====
-- `ReturnLatch` (lib/abc/compute-request/mod.ts): the first request to return ends a flow.
use atproto_market.Common.{
  String, Bool, true, false, ◌≡◌, refl, Option, none, some, List, [], ◌∷◌, if◌then◌else◌,
}

pub data FlowDecision : Type 0 where
  continue return : FlowDecision

-- `resolved` is the state of the promise `returned`.
pub record ReturnLatch : Type 0 where
  pub requested : Bool
  pub reason : String
  pub resolved : Bool

abbrev pub new_latch : ReturnLatch
new_latch = record { requested = false; reason = ""; resolved = false }

unfoldable pub request : ReturnLatch → String → ReturnLatch
request l reason =
    if l.requested then l else record { requested = true; reason = reason; resolved = true }

-- The latch and what `apply` returns.
unfoldable pub apply : ReturnLatch → Option FlowDecision → String → ReturnLatch × Bool
unfolding request
apply l (some return) reason = let l' = request l reason in (l', l'.requested)
apply l _ reason = (l, l.requested)

-- The decisions of the handlers, each with the name under which it asks to return.
unfoldable pub apply_all : ReturnLatch → List (Option FlowDecision × String) → ReturnLatch
unfolding apply
apply_all l [] = l
apply_all l ((d, name) ∷ ds) = apply_all (apply l d name).0 ds

-- The name of the first handler that asked to return.
unfoldable pub first_return : List (Option FlowDecision × String) → Option String
first_return [] = none
first_return ((some return, name) ∷ ds) = some name
first_return ((_, name) ∷ ds) = first_return ds

abbrev pub latched : Option String → ReturnLatch
latched none = new_latch
latched (some name) = record { requested = true; reason = name; resolved = true }

requested_stays :
    (name : String) (ds : List (Option FlowDecision × String))
    → apply_all (latched (some name)) ds ≡ latched (some name)
unfolding apply_all
requested_stays name [] = refl
requested_stays name ((some return, other) ∷ ds) = requested_stays name ds
requested_stays name ((some continue, other) ∷ ds) = requested_stays name ds
requested_stays name ((none, other) ∷ ds) = requested_stays name ds

-- After any decisions the latch is open if no handler asked to return; otherwise it is closed, its
-- promise is resolved, and its reason is that of the first handler that asked.
pub apply_all-first_return :
    (ds : List (Option FlowDecision × String)) → apply_all new_latch ds ≡ latched (first_return ds)
unfolding apply_all first_return
apply_all-first_return [] = refl
apply_all-first_return ((some return, name) ∷ ds) = requested_stays name ds
apply_all-first_return ((some continue, name) ∷ ds) = apply_all-first_return ds
apply_all-first_return ((none, name) ∷ ds) = apply_all-first_return ds
