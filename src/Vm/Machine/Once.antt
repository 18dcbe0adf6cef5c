-- ===== src/Vm/Machine/Once.antt =====
-- A contract ends at most once.
mod Steps
pub mod Runs
use atproto_market.Common.{
  String, Bool, true, false, ◌≡◌, ◌⊎◌, refl, sym, ap, ◌∙◌, arith, Option, none, some, List, [], ◌∷◌,
  ◌++◌, map, if◌then◌else◌, ◌==◌, ◌||◌, eq_iff, eq_refl, includes, is_empty, is_some, All,
  Bool-cases, inl, inr,
}
use atproto_market.Common.Distinct.{Distinct, append-Distinct, includes-append}
use atproto_market.Common.Dict.{Dict, get, set, delete, has, get-set, get-delete}
use atproto_market.Receipts.{ActiveContract, ContractEvent, ContractEventType}
use atproto_market.Vm.Machine.{Flight, World, Visiting}

abbrev pub is_end : ContractEventType → Bool
is_end ContractEventType.terminated = true
is_end _ = false

-- The receipts of the contracts whose end was recorded.
abbrev pub ended : List ContractEvent → List String
ended [] = []
ended (e ∷ es) = if is_end e.type then e.receipt_uri ∷ ended es else ended es

pub ended-append :
    (es : List ContractEvent) (e : ContractEvent)
    → ended (es ++ e ∷ []) ≡ ended es ++ (if is_end e.type then e.receipt_uri ∷ [] else [])
ended-append [] e = ground arith
ended-append (x ∷ es) e = ground (arith, ended-append es e)

pub ended-append_other :
    (es : List ContractEvent) (e : ContractEvent)
    → is_end e.type ≡ false
    → ended (es ++ e ∷ []) ≡ ended es
ended-append_other [] e h = ground (arith, h)
ended-append_other (x ∷ es) e h = ground (arith, ended-append_other es e h)

-- Every contract has a receipt of its own, and none of these receipts has ended; none ended twice.
pub record AreLive (active : Dict ActiveContract) (gone : List String) : Type 0 where
  pub named :
      (k : String) (c : ActiveContract)
      → get active k ≡ some c
      → (u : String) × (c.receipt_uri ≡ some u) × (is_empty u ≡ false)
  pub alone :
      (k k' u : String) (c c' : ActiveContract)
      → get active k ≡ some c
      → get active k' ≡ some c'
      → c.receipt_uri ≡ some u
      → c'.receipt_uri ≡ some u
      → k ≡ k'
  pub fresh :
      (k u : String) (c : ActiveContract)
      → get active k ≡ some c
      → c.receipt_uri ≡ some u
      → includes u gone ≡ false
  pub once : Distinct gone

still_there :
    (active : Dict ActiveContract) (key k : String) (c : ActiveContract)
    → get (delete active key) k ≡ some c
    → ((key == k) ≡ false) × (get active k ≡ some c)
still_there active key k c h = ground (arith, h, get-delete active key k)

pub removed-AreLive :
    (active : Dict ActiveContract) (gone : List String) (key u : String) (c : ActiveContract)
    → AreLive active gone
    → get active key ≡ some c
    → c.receipt_uri ≡ some u
    → AreLive (delete active key) (gone ++ u ∷ [])
unfolding includes
removed-AreLive active gone key u c live there named = record {
  named = λ k d h. live.named k d (still_there active key k d h).1;
  alone = λ k k' v d d' h h'.
      live.alone k k' v d d' (still_there active key k d h).1 (still_there active key k' d' h').1;
  fresh = λ k v d h e.
      let (other, still) = still_there active key k d h in
      let out = live.fresh k v d still e in
      elim (Bool-cases (u == v)) [
        | inl same ↦
            let named' : c.receipt_uri ≡ some v = named ∙ ap some ((eq_iff u v).0 same) in
            let twin = live.alone key k v c d there still named' e in
            absurd (ground (arith, other, twin, eq_refl k))
        | inr differ ↦ rw (includes-append v gone (u ∷ [])) (ground (arith, out, differ))
      ];
  once = append-Distinct u gone live.once (live.fresh key u c there named);
}

abbrev pub uri_of : Flight → String
uri_of f = f.job.receipt_uri

-- A deletion under way has its receipt marked; until it is done its contract is there.
abbrev pub IsFlying : Dict ActiveContract → Dict (Unit {0}) → Flight → Type 0
IsFlying active marks f =
    (has marks (uri_of f) ≡ true)
    × (f.done ≡ false
        → (get active f.job.key ≡ some f.job.contract)
          × (f.job.contract.receipt_uri ≡ some (uri_of f)))

-- An entry that was taken up is the one that is there, if one is.
abbrev pub IsSeen : Dict ActiveContract → Visiting → Type 0
IsSeen active v = (get active v.key ≡ some v.contract) ⊎ (get active v.key ≡ none)

pub record IsOnce (w : World) : Type 0 where
  pub live : AreLive w.bidder.active (ended w.bidder.changes)
  pub flying : All (IsFlying w.bidder.active w.bidder.terminating) w.flights
  pub apart : Distinct (map uri_of w.flights)
  pub seen : All (IsSeen w.bidder.active) w.visits

module _ (active : Dict ActiveContract) (marks : Dict (Unit {0})) where
  marked-IsFlying :
      (u : String) (f : Flight) → IsFlying active marks f → IsFlying active (set marks u tt) f
  marked-IsFlying u f (m, k) = (ground (arith, m, get-set marks u (uri_of f) tt), k)

  pub marked-All :
      (u : String) (fs : List Flight)
      → All (IsFlying active marks) fs
      → All (IsFlying active (set marks u tt)) fs
  marked-All u [] h = tt
  marked-All u (f ∷ fs) (h, hs) = (marked-IsFlying u f h, marked-All u fs hs)

  unmarked-IsFlying :
      (u : String) (f : Flight)
      → (uri_of f == u) ≡ false
      → IsFlying active marks f
      → IsFlying active (delete marks u) f
  unmarked-IsFlying u f other (m, k) = (
    ground
        (arith, m, other, eq_iff u (uri_of f), eq_iff (uri_of f) u, get-delete marks u (uri_of f)),
    k,
  )

  pub unmarked-All :
      (u : String) (fs : List Flight)
      → includes u (map uri_of fs) ≡ false
      → All (IsFlying active marks) fs
      → All (IsFlying active (delete marks u)) fs
  unfolding includes
  unmarked-All u [] out h = tt
  unmarked-All u (f ∷ fs) out (h, hs) =
      (unmarked-IsFlying u f (ground (arith, out)) h, unmarked-All u fs (ground (arith, out)) hs)

  -- Another contract is taken away.
  removed-IsFlying :
      (key u : String) (c : ActiveContract) (f : Flight)
      → get active key ≡ some c
      → c.receipt_uri ≡ some u
      → (uri_of f == u) ≡ false
      → IsFlying active marks f
      → IsFlying (delete active key) marks f
  removed-IsFlying key u c f there named other (m, k) = (
    m,
    λ going.
        let (held, of) = k going in
        (
          elim (Bool-cases (key == f.job.key)) [
            | inl same ↦
                let same_contract : c ≡ f.job.contract =
                  cc (there, held, (eq_iff key f.job.key).0 same) in
                absurd (
                  ground (
                    arith,
                    other,
                    named,
                    of,
                    ap (λ (d : ActiveContract). d.receipt_uri) same_contract,
                    eq_iff (uri_of f) u,
                  ))
            | inr differ ↦ ground (arith, differ, held, get-delete active key f.job.key)
          ],
          of,
        ),
  )

  pub removed-All :
      (key u : String) (c : ActiveContract) (fs : List Flight)
      → get active key ≡ some c
      → c.receipt_uri ≡ some u
      → includes u (map uri_of fs) ≡ false
      → All (IsFlying active marks) fs
      → All (IsFlying (delete active key) marks) fs
  unfolding includes
  removed-All key u c [] there named out h = tt
  removed-All key u c (f ∷ fs) there named out (h, hs) = (
    removed-IsFlying key u c f there named (ground (arith, out)) h,
    removed-All key u c fs there named (ground (arith, out)) hs,
  )

  -- A receipt that is not marked is that of no deletion under way.
  pub unmarked_out :
      (u : String) (fs : List Flight)
      → has marks u ≡ false
      → All (IsFlying active marks) fs
      → includes u (map uri_of fs) ≡ false
  unfolding includes
  unmarked_out u [] out h = refl
  unmarked_out u (f ∷ fs) out ((m, k), hs) =
      ground (arith, out, m, eq_iff (uri_of f) u, unmarked_out u fs out hs)

pub fewer_visits :
    (active : Dict ActiveContract) (key : String) (vs : List Visiting)
    → All (IsSeen active) vs
    → All (IsSeen (delete active key)) vs
fewer_visits active key [] h = tt
fewer_visits active key (v ∷ vs) (h, hs) =
    (ground (arith, h, get-delete active key v.key), fewer_visits active key vs hs)
