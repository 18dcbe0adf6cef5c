-- ===== src/Tests/Remembered.antt =====
-- Two remembered receipts, and a third.
use atproto_market.Common.{String, true, List, [], ◌∷◌, ◌≡◌, arith}
use atproto_market.Receipts.{
  TerminatedReceipt, TerminatedReceipts, new_receipts, add, add_all, is_known,
}
use atproto_market.Receipts.Recent.{IsBounded, add_all-IsBounded, recent-is_known}

abbrev gone : TerminatedReceipt
gone = record { accept_author = "did:plc:a"; reason = "exited"; at = "t" }

abbrev three : List (String × TerminatedReceipt)
three = ("r1", gone) ∷ ("r2", gone) ∷ ("r3", gone) ∷ []

add_all-IsBounded_example : IsBounded (add_all (new_receipts 2) three)
add_all-IsBounded_example = add_all-IsBounded 2 three

-- A full memory of two, whose oldest receipt is added again.
abbrev full : TerminatedReceipts
full = record { entries = ("r1", gone) ∷ ("r2", gone) ∷ []; capacity = 2 }

recent-is_known_example : is_known (add_all (add full "r1" gone) (("r3", gone) ∷ [])) "r1" ≡ true
recent-is_known_example = recent-is_known full "r1" gone (("r3", gone) ∷ []) (omega arith)
