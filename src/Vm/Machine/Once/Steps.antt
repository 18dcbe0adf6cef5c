-- ===== src/Vm/Machine/Once/Steps.antt =====
-- Every step keeps the invariant.
use atproto_market.Common.{
  String, Bool, true, false, not, ◌||◌, ◌≡◌, refl, sym, ap, ◌∙◌, arith, Option, none, some, List,
  [], ◌∷◌, ◌++◌, map, eq_iff, includes, is_empty, is_some, All, All-append, Bool-cases, inl, inr,
}
use atproto_market.Common.Distinct.{Distinct, append-Distinct}
use atproto_market.Common.Pick.{IsPicked, IsApart}
use atproto_market.Common.Dict.{Dict, get, set, delete, get-set}
use atproto_market.Common.Json.{Number}
use atproto_market.Receipts.{ProviderId, ActiveContract, ContractEvent}
use atproto_market.Vm.Reason.{GuestGone, terminated_reason_of}
use atproto_market.Vm.State.{
  Bidder, filled, bury, contract_event, save_change, record_termination, publish_receipt,
  publish_terminated,
}
use atproto_market.Vm.Delete.{
  Job, Started, replied, joined, started, destroy, complete_delete, release_delete,
}
use atproto_market.Vm.Delete.Replies.{IsBegun}
use atproto_market.Vm.Guests.{end_guest}
use atproto_market.Vm.Machine.{Flight, World, take_off, complete, release, notice}
use atproto_market.Vm.Machine.Once.{
  ended, ended-append, ended-append_other, removed-AreLive, uri_of, IsFlying, IsSeen, IsOnce,
  marked-All, unmarked-All, removed-All, unmarked_out, fewer_visits,
}

map-append :
    (fs : List Flight) (f : Flight) → map uri_of (fs ++ f ∷ []) ≡ map uri_of fs ++ uri_of f ∷ []
map-append [] f = refl
map-append (g ∷ fs) f = ap (λ us. uri_of g ∷ us) (map-append fs f)

-- What the recorded end of a contract writes.
record_termination_lem :
    (b : Bidder) (key reason at u : String) (c : ActiveContract) (id : Option ProviderId)
    → c.receipt_uri ≡ some u
    → ((record_termination b key c reason at id).active ≡ delete b.active key)
      × ((record_termination b key c reason at id).terminating ≡ b.terminating)
      × (ended (record_termination b key c reason at id).changes ≡ ended b.changes ++ u ∷ [])
unfolding record_termination bury save_change contract_event
record_termination_lem b key reason at u c id named = elim (Bool-cases (is_empty u)) [
  | inl empty ↦ rw (named, empty) (refl, refl, ended-append b.changes _)
  | inr full ↦ rw (named, full) (refl, refl, ended-append b.changes _)
]

-- What a step may do to the parts of the bidder that the invariant speaks of.
pub record IsSame (b b' : Bidder) : Type 0 where
  pub active : b'.active ≡ b.active
  pub marks : b'.terminating ≡ b.terminating
  pub ends : ended b'.changes ≡ ended b.changes

pub record IsEnd (b b' : Bidder) (key u : String) : Type 0 where
  pub active : b'.active ≡ delete b.active key
  pub marks : b'.terminating ≡ b.terminating
  pub ends : ended b'.changes ≡ ended b.changes ++ u ∷ []

destroy-fields :
    (b : Bidder) (id : Option ProviderId)
    → ((destroy b id).active ≡ b.active)
      × ((destroy b id).terminating ≡ b.terminating)
      × ((destroy b id).changes ≡ b.changes)
unfolding destroy
destroy-fields b none = (refl, refl, refl)
destroy-fields b (some id) = (refl, refl, refl)

complete_kept :
    (b : Bidder) (job : Job) (ok : Bool) (now : String)
    → (ok || not (is_some job.contract.provider_id)) ≡ false
    → IsSame b (complete_delete b job ok now)
unfolding complete_delete save_change contract_event
complete_kept b job ok now kept =
    let (active, marks, changes) = destroy-fields b job.contract.provider_id in
    rw kept (record {
      active = active;
      marks = marks;
      ends =
          ended-append_other (destroy b job.contract.provider_id).changes _ refl ∙ ap ended changes;
    })

complete_ended :
    (b : Bidder) (job : Job) (ok : Bool) (now : String)
    → (ok || not (is_some job.contract.provider_id)) ≡ true
    → IsEnd b (complete_delete b job ok now) job.key job.receipt_uri
unfolding complete_delete
complete_ended b job ok now over =
    let (active, marks, changes) = destroy-fields b job.contract.provider_id in
    let c : ActiveContract = record job.contract { receipt_uri = some job.receipt_uri } in
    let (active', marks', ends) =
      record_termination_lem (destroy b job.contract.provider_id) job.key "deleted_on_request" now
        job.receipt_uri c job.contract.provider_id refl in
    rw over (record {
      active = active' ∙ ap (λ (m : Dict ActiveContract). delete m job.key) active;
      marks = marks' ∙ marks;
      ends = ends ∙ ap (λ (es : List ContractEvent). ended es ++ job.receipt_uri ∷ []) changes;
    })

publish-fields :
    (b : Bidder) (c : ActiveContract) (reason at : String) (code : Option Number)
    (o o' : Option String)
    → ((publish_receipt b c reason code at o o').active ≡ b.active)
      × ((publish_receipt b c reason code at o o').terminating ≡ b.terminating)
      × ((publish_receipt b c reason code at o o').changes ≡ b.changes)
unfolding publish_receipt
publish-fields b c reason at code none o' = (refl, refl, refl)
publish-fields b c reason at code (some u) none = (refl, refl, refl)
publish-fields b c reason at code (some u) (some v) = (refl, refl, refl)

pub end_guest_lem :
    (b : Bidder) (key u now : String) (c : ActiveContract) (gone : GuestGone)
    (id : Option ProviderId)
    → c.receipt_uri ≡ some u
    → IsEnd b (end_guest b key c gone id now) key u
unfolding end_guest publish_terminated
end_guest_lem b key u now c gone id named =
    let why = terminated_reason_of gone in
    let (active, marks, ends) = record_termination_lem b key why.reason now u c id named in
    let (active', marks', changes) =
      publish-fields (record_termination b key c why.reason now id) c why.reason now why.exit_code
        (filled c.receipt_uri) (filled c.receipt_cid) in
    record { active = active' ∙ active; marks = marks' ∙ marks; ends = ap ended changes ∙ ends }

-- A step that leaves the parts alone.
same-IsOnce :
    (w : World) (b' : Bidder) → IsSame w.bidder b' → IsOnce w → IsOnce (record w { bidder = b' })
same-IsOnce w b' s h = record {
  live = rw (s.active, s.ends) h.live;
  flying = rw (s.active, s.marks) h.flying;
  apart = h.apart;
  seen = rw s.active h.seen;
}

-- The end of a contract that no deletion under way is about.
pub ended-IsOnce :
    (w : World) (b' : Bidder) (key u : String) (c : ActiveContract)
    → IsEnd w.bidder b' key u
    → get w.bidder.active key ≡ some c
    → c.receipt_uri ≡ some u
    → includes u (map uri_of w.flights) ≡ false
    → IsOnce w
    → IsOnce (record w { bidder = b' })
ended-IsOnce w b' key u c e there named out h = record {
  live =
      rw (e.active, e.ends)
        (removed-AreLive w.bidder.active (ended w.bidder.changes) key u c h.live there named);
  flying =
      rw (e.active, e.marks)
        (removed-All w.bidder.active w.bidder.terminating key u c w.flights there named out
          h.flying);
  apart = h.apart;
  seen = rw e.active (fewer_visits w.bidder.active key w.visits h.seen);
}

-- A deletion takes its place among those that are under way.
landed-IsOnce :
    (w : World) (f : Flight)
    → IsFlying w.bidder.active w.bidder.terminating f
    → includes (uri_of f) (map uri_of w.flights) ≡ false
    → IsOnce w
    → IsOnce (record w { flights = w.flights ++ f ∷ [] })
landed-IsOnce w f flying out h = record {
  live = h.live;
  flying =
      All-append (IsFlying w.bidder.active w.bidder.terminating) w.flights (f ∷ []) h.flying
        (flying, tt);
  apart =
      rw (map-append w.flights f) (append-Distinct (uri_of f) (map uri_of w.flights) h.apart out);
  seen = h.seen;
}

-- A receipt is marked.
marked-IsOnce :
    (w : World) (u : String)
    → IsOnce w
    → IsOnce (record w { bidder = record w.bidder { terminating = set w.bidder.terminating u tt } })
marked-IsOnce w u h = record {
  live = h.live;
  flying = marked-All w.bidder.active w.bidder.terminating u w.flights h.flying;
  apart = h.apart;
  seen = h.seen;
}

pub take_off-IsOnce :
    (w : World) (issuer : String) (b' : Bidder) (s : Started)
    → IsBegun w.bidder issuer (b', s)
    → IsOnce w
    → IsOnce (take_off w (b', s))
unfolding take_off
take_off-IsOnce w issuer b' (replied r) begun h = rw begun h
take_off-IsOnce w issuer b' (joined u) (begun, busy) h = rw begun h
take_off-IsOnce w issuer b' (started job) (there, author, free, named, begun) h =
    let (u, has_uri, full) = h.live.named job.key job.contract there in
    let f : Flight = record { job = job; done = false } in
    let marked = marked-IsOnce w job.receipt_uri h in
    rw begun (
      landed-IsOnce
        (record w {
          bidder = record w.bidder { terminating = set w.bidder.terminating job.receipt_uri tt };
        })
        f
        (
          ground (
            arith,
            get-set w.bidder.terminating job.receipt_uri job.receipt_uri tt,
            eq_iff job.receipt_uri job.receipt_uri,
          ),
          λ going. (there, has_uri ∙ ap some (sym (named u has_uri))),
        )
        (unmarked_out w.bidder.active w.bidder.terminating job.receipt_uri w.flights free h.flying)
        marked)

-- Without one of the deletions under way.
fewer-IsOnce :
    (w : World) (others : List Flight)
    → All (IsFlying w.bidder.active w.bidder.terminating) others
    → Distinct (map uri_of others)
    → IsOnce w
    → IsOnce (record w { flights = others })
fewer-IsOnce w others flying apart h = record {
  live = h.live;
  flying = flying;
  apart = apart;
  seen = h.seen;
}

pub complete-IsOnce :
    (w : World) (ok : Bool) (now : String) (o : Option (Flight × List Flight))
    → IsPicked (IsFlying w.bidder.active w.bidder.terminating) o
    → IsApart uri_of o
    → IsOnce w
    → IsOnce (complete w ok now o)
unfolding complete
complete-IsOnce w ok now none p a h = h
complete-IsOnce w ok now (some (f, others)) ((mark, going), flying) (out, apart) h =
    let w0 = record w { flights = others } in
    let h0 = fewer-IsOnce w others flying apart h in
    let b' = complete_delete w.bidder f.job ok now in
    let landed =
      λ (marks : b'.terminating ≡ w.bidder.terminating) (kept : IsOnce (record w0 { bidder = b' })).
        landed-IsOnce (record w0 { bidder = b' }) (record f { done = true })
          (rw marks mark, λ (e : true ≡ false). absurd (cc e)) out kept in
    elim (Bool-cases f.done) [
      | inl over ↦ rw over h
      | inr running ↦ elim (Bool-cases (ok || not (is_some f.job.contract.provider_id))) [
        | inr kept ↦
            let same = complete_kept w.bidder f.job ok now kept in
            rw running (landed same.marks (same-IsOnce w0 b' same h0))
        | inl gone ↦
            let e = complete_ended w.bidder f.job ok now gone in
            let (there, named) = going running in
            rw running (
              landed e.marks
                (ended-IsOnce w0 b' f.job.key (uri_of f) f.job.contract e there named out h0))
      ]
    ]

pub release-IsOnce :
    (w : World) (o : Option (Flight × List Flight))
    → IsPicked (IsFlying w.bidder.active w.bidder.terminating) o
    → IsApart uri_of o
    → IsOnce w
    → IsOnce (release w o)
unfolding release release_delete
release-IsOnce w none p a h = h
release-IsOnce w (some (f, others)) (held, flying) (out, apart) h = elim (Bool-cases f.done) [
  | inr running ↦ rw running h
  | inl over ↦ rw over (record {
    live = h.live;
    flying = unmarked-All w.bidder.active w.bidder.terminating (uri_of f) others out flying;
    apart = apart;
    seen = h.seen;
  })
]

pub notice-IsOnce :
    (w : World) (key : String) (gone : GuestGone) (o : Option ActiveContract)
    → get w.bidder.active key ≡ o
    → IsOnce w
    → IsOnce (notice w key gone o)
unfolding notice
notice-IsOnce w key gone none there h = h
notice-IsOnce w key gone (some c) there h = record {
  live = h.live;
  flying = h.flying;
  apart = h.apart;
  seen = All-append (IsSeen w.bidder.active) w.visits _ h.seen (inl there, tt);
}
