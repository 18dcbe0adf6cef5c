-- ===== src/Vm/Delete/Replies.antt =====
-- Who may delete a guest, and what a request changes before its guest is destroyed.
use atproto_market.Common.{
  String, true, false, ◌≡◌, refl, Option, none, some, ◌==◌, eq_iff, or_else, Bool-cases, inl, inr,
}
use atproto_market.Common.Dict.{get, set, has}
use atproto_market.Records.{RecordRef}
use atproto_market.Receipts.{ActiveContract}
use atproto_market.Vm.State.{Bidder}
use atproto_market.Vm.Delete.{
  Request, Started, replied, joined, started, contract_key, start, start_held, start_found,
  start_receipt, begin_delete,
}

-- A request that starts a deletion came from the author of the accept, for a contract that is there
-- and whose receipt is not being deleted; it only marks the receipt. Any other changes nothing.
abbrev pub IsBegun : Bidder → String → Bidder × Started → Type 0
IsBegun b issuer (b', started job) =
    (get b.active job.key ≡ some job.contract)
    × (job.contract.accept_author ≡ issuer)
    × (has b.terminating job.receipt_uri ≡ false)
    × ((u : String) → job.contract.receipt_uri ≡ some u → job.receipt_uri ≡ u)
    × (b' ≡ record b { terminating = set b.terminating job.receipt_uri tt })
IsBegun b issuer (b', joined uri) = (b' ≡ b) × (has b.terminating uri ≡ true)
IsBegun b issuer (b', replied r) = b' ≡ b

start-IsBegun :
    (b : Bidder) (r : Request) (ref : RecordRef) (key : String) (c : ActiveContract)
    → get b.active key ≡ some c
    → IsBegun b r.issuer_did (start b r ref key c)
unfolding start
start-IsBegun b r ref key c there = elim (Bool-cases (c.accept_author == r.issuer_did)) [
  | inr other ↦ rw other refl
  | inl author ↦ elim (Bool-cases (has b.terminating (or_else c.receipt_uri ref.uri))) [
    | inl busy ↦ rw (author, busy) (refl, busy)
    | inr free ↦
        rw (author, free)
          (there, (eq_iff c.accept_author r.issuer_did).0 author, free, (λ u e. rw e refl), refl)
  ]
]

start_held-IsBegun :
    (b : Bidder) (r : Request) (ref : RecordRef) (key : String) (o : Option ActiveContract)
    → get b.active key ≡ o
    → IsBegun b r.issuer_did (start_held b r ref key o)
unfolding start_held
start_held-IsBegun b r ref key none there = refl
start_held-IsBegun b r ref key (some c) there = start-IsBegun b r ref key c there

start_found-IsBegun :
    (b : Bidder) (r : Request) (ref : RecordRef) (o : Option String)
    → IsBegun b r.issuer_did (start_found b r ref o)
unfolding start_found
start_found-IsBegun b r ref none = refl
start_found-IsBegun b r ref (some key) = start_held-IsBegun b r ref key (get b.active key) refl

start_receipt-IsBegun :
    (b : Bidder) (r : Request) (o : Option RecordRef) → IsBegun b r.issuer_did (start_receipt b r o)
unfolding start_receipt
start_receipt-IsBegun b r none = refl
start_receipt-IsBegun b r (some ref) = start_found-IsBegun b r ref (contract_key b ref)

-- A request that starts a deletion came from the author of the accept, for a contract that is there
-- and whose receipt is not being deleted, and it only marks the receipt; one that joins a deletion,
-- whose receipt is marked, or that is replied to at once changes nothing.
pub begin_delete-IsBegun : (b : Bidder) (r : Request) → IsBegun b r.issuer_did (begin_delete b r)
unfolding begin_delete
begin_delete-IsBegun b r = start_receipt-IsBegun b r r.receipt
