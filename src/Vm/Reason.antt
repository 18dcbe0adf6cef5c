-- ===== src/Vm/Reason.antt =====
-- Why a guest ended (lib/market-bidder-compute/mod.ts, `terminatedReasonOf`), with the reasons of
-- lib/common/market-common/constants.ts.
use atproto_market.Common.{
  String, ℕ, ◌+◌, Bool, true, false, not, ◌&&◌, ◌||◌, Option, none, some, List, [], ◌∷◌,
  if◌then◌else◌, eqb, codes, is_upper, is_lower, is_digit, includes, is_some,
}
use atproto_market.Common.Json.{Number, natural, negative}
use atproto_market.Receipts.{ProviderId}

-- `VM_TERMINATED_REASONS`
abbrev pub terminated_reasons : List String
terminated_reasons =
    "guest_poweroff" ∷ "vmm_exited" ∷ "oom" ∷ "host_reboot" ∷ "identity_mismatch"
    ∷ "deleted_on_request" ∷ []

pub record GuestGone : Type 0 where
  pub id : ProviderId
  pub reason : String
  pub exit_code : Option Number

pub record Termination : Type 0 where
  pub reason : String
  pub exit_code : Option Number

-- A letter without its case, as the flag `i` compares the letters of ASCII.
unfoldable pub fold_case : ℕ → ℕ
fold_case c = if is_upper c then c + 32 else c

is_word : ℕ → Bool
is_word c = is_lower c || is_upper c || is_digit c || eqb c b'_'

-- What follows the pattern at the start of the text.
after : List ℕ → List ℕ → Option (List ℕ)
unfolding fold_case
after [] cs = some cs
after (p ∷ ps) [] = none
after (p ∷ ps) (c ∷ cs) = if eqb p (fold_case c) then after ps cs else none

-- /pattern/i, for a pattern in small letters.
unfoldable pub mentions : List ℕ → List ℕ → Bool
unfolding after
mentions ps [] = is_some (after ps [])
mentions ps (c ∷ cs) = is_some (after ps (c ∷ cs)) || mentions ps cs

ends_word : Option (List ℕ) → Bool
unfolding is_word
ends_word none = false
ends_word (some []) = true
ends_word (some (c ∷ cs)) = not (is_word c)

-- /\bpattern\b/i: `inside` says that a word's character stands before.
mentions_word : Bool → List ℕ → List ℕ → Bool
unfolding ends_word after is_word
mentions_word inside ps [] = not inside && ends_word (after ps [])
mentions_word inside ps (c ∷ cs) =
    not inside && ends_word (after ps (c ∷ cs)) || mentions_word (is_word c) ps cs

-- `Number.isInteger(gone.exitCode)`
unfoldable pub integer_code : Option Number → Option Number
integer_code (some (natural n)) = some (natural n)
integer_code (some (negative n)) = some (negative n)
integer_code _ = none

is_zero : Option Number → Bool
is_zero (some (natural n)) = eqb n 0
is_zero _ = false

unfoldable pub reason_of : String → Option Number → String
unfolding mentions mentions_word is_zero includes
reason_of said code =
    let cs = codes said in
    if includes said terminated_reasons
    then said
    else if mentions_word false (codes "oom") cs || mentions (codes "out of memory") cs
    then "oom"
    else if mentions (codes "reboot") cs
    then "host_reboot"
    else if mentions (codes "identity") cs
    then "identity_mismatch"
    else if mentions (codes "exited") cs && is_zero code
    then "guest_poweroff"
    else "vmm_exited"

unfoldable pub terminated_reason_of : GuestGone → Termination
unfolding reason_of integer_code
terminated_reason_of gone =
    let code = integer_code gone.exit_code in
    record { reason = reason_of gone.reason code; exit_code = code }
