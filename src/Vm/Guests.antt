-- ===== src/Vm/Guests.antt =====
-- Guests that end by themselves, and the contracts that are restored from the store
-- (lib/market-bidder-compute/mod.ts, `releaseGoneGuest` and `restore`). The loops await inside: each
-- function is what the loop does with one entry behind an await.
use atproto_market.Common.{
  String, Bool, true, false, not, ◌||◌, Option, none, some, if◌then◌else◌, ◌==◌,
}
use atproto_market.Common.Json.{Number}
use atproto_market.Common.Dict.{get, set, has}
use atproto_market.Receipts.{ProviderId, name, numeral, ActiveContract}
use atproto_market.Vm.Reason.{GuestGone, terminated_reason_of}
use atproto_market.Vm.State.{Bidder, filled, record_termination, publish_terminated}

-- `String(id)`; `show` writes a number.
unfoldable pub id_text : (Number → String) → ProviderId → String
id_text show (name s) = s
id_text show (numeral n) = show n

-- What the loop does after an entry.
pub data Visit : Type 0 where
  next stop : Visit

unfoldable pub same_id : (Number → String) → Option ProviderId → ProviderId → Bool
unfolding id_text
same_id show none id = false
same_id show (some p) id = id_text show p == id_text show id

unfoldable pub in_flight : Bidder → Option String → Bool
in_flight b none = false
in_flight b (some uri) = has b.terminating uri

unfoldable pub end_guest :
    Bidder → String → ActiveContract → GuestGone → Option ProviderId → String → Bidder
end_guest b key c gone id now =
    let why = terminated_reason_of gone in
    publish_terminated (record_termination b key c why.reason now id) c why.reason why.exit_code now

-- The entry whose provider id was awaited. The loop stops at the guest that is gone.
unfoldable pub release_gone :
    (Number → String) → Bidder → String → ActiveContract → GuestGone → String → Bidder × Visit
unfolding same_id in_flight
release_gone show b key c gone now =
    if not (same_id show c.provider_id gone.id)
    then (b, next)
    else if not (has b.active key)
    then (b, stop)
    else if in_flight b (filled c.receipt_uri)
    then (b, stop)
    else (end_guest b key c gone c.provider_id now, stop)

-- What the provider's `adopt` gives: it fails, the guest runs, or it is gone.
pub data Adopted : Type 0 where
  not_adopted running : Adopted
  is_gone : GuestGone → Adopted

-- A contract of the store is looked at once: the flag is taken away first.
mark_seen : Bidder → String → ActiveContract → Option ActiveContract → Bidder
mark_seen b key c none = b
mark_seen b key c (some held) = record b {
  active = set b.active key (record c { restored = some false });
}

of_provider : Option String → String → Bool
of_provider none p = false
of_provider (some q) p = q == p

is_restored : Option Bool → Bool
is_restored (some true) = true
is_restored _ = false

-- `true` where the loop goes on to ask for the contract's guest.
unfoldable pub begin_restore : Bidder → String → String → ActiveContract → Bidder × Bool
unfolding mark_seen of_provider is_restored
begin_restore b provider key c =
    if not (is_restored c.restored) || not (of_provider c.provider provider)
    then (b, false)
    else (mark_seen b key c (get b.active key), has b.active key)

gone_of : Option ProviderId → Adopted → Option GuestGone
gone_of none adopted = some (record { id = name ""; reason = "vmm_exited"; exit_code = none })
gone_of (some id) (is_gone gone) = some gone
gone_of (some id) _ = none

-- Behind the provider's answer; a provider without `adopt` gives `not_adopted`.
unfoldable pub finish_restore : Bidder → String → ActiveContract → Adopted → String → Bidder
unfolding gone_of
finish_restore b key c adopted now = elim (gone_of c.provider_id adopted) [
  | none ↦ b
  | some gone ↦ end_guest b key c gone c.provider_id now
]
