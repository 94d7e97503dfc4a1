-- ===== src/Lead/Queue/Lease.antt =====
-- Two walkers never hold one event: the lease over histories of claims.
use backbone_events.Base.{
  ℕ, ◌+◌, ◌≤◌, ◌≡◌, refl, ◌≢◌, Option, none, some, List, [], ◌∷◌, Bool, true, false, ◌==◌, arith,
  All, not, ◌&&◌, exists_where, select_where, find_where, update_where, All-sort_by, All-take,
  Bool-cases, Option-cases, inl, inr, find_where-holds, update_where-All, find_where-All, ==_iff,
  count_where, count_where-pos, count_where_mono,
}
use backbone_events.Base.Text.{Text}
use backbone_events.Store.{Db, LeadRequestRow, Result, ok, err}
use backbone_events.Lead.Queue.{
  member, is_request_of, is_claimable, stamp, claim_row, claim_next_due_request, is_leasable,
  lease_row, try_lease_request_of_event, with_outcome, detail_fits, finish_request_by_event,
}

-- What a walker asks of the queue; the cron's claim and the officer's name their time.
pub data Call : Type 0 where
  cron_claim : (now : ℕ) → (exclude : List ℕ) → Call
  officer_claim : (now event_id : ℕ) → Call
  release : (event_id : ℕ) → (error : Option Text) → Call

abbrev pub event_of : Option LeadRequestRow → Option ℕ
event_of none = none
event_of (some q) = some q.event_id

abbrev leased : Db → Result (LeadRequestRow × Db) → Option ℕ × Db
leased db (ok (q, next)) = (some q.event_id, next)
leased db (err e) = (none, db)

-- A release that the database refuses leaves the queue as it was.
abbrev released : Db → Result Db → Db
released db (ok next) = next
released db (err e) = db

-- One call: the event that it claimed, if any, and the queue after it.
unfoldable pub call : (ℕ → ℕ) → ℕ → Call → Db → Option ℕ × Db
call request_id lease_secs (cron_claim now exclude) db =
    let (q, next) = claim_next_due_request request_id now lease_secs exclude db in
    (event_of q, next)
call request_id lease_secs (officer_claim now event_id) db =
    leased db (try_lease_request_of_event event_id now lease_secs db)
call request_id lease_secs (release event_id error) db =
    (none, released db (finish_request_by_event event_id error db))

abbrev claims : Option ℕ → List ℕ → List ℕ
claims none events = events
claims (some e) events = e ∷ events

-- The events that the calls claimed.
pub calls : (ℕ → ℕ) → ℕ → List Call → Db → List ℕ
unfolding call
calls request_id lease_secs [] db = []
calls request_id lease_secs (c ∷ cs) db =
    let (claimed, next) = call request_id lease_secs c db in
    claims claimed (calls request_id lease_secs cs next)

-- A call before the lease that began at `start` has run out, and not the release of the event itself.
abbrev pub IsWithin : ℕ → ℕ → ℕ → Call → Type 0
IsWithin event_id start lease_secs (cron_claim now exclude) = now ≤ start + lease_secs
IsWithin event_id start lease_secs (officer_claim now other) = now ≤ start + lease_secs
IsWithin event_id start lease_secs (release other error) = (other == event_id) ≡ false

abbrev pub time_of : Call → ℕ
time_of (cron_claim now exclude) = now
time_of (officer_claim now event_id) = now
time_of (release event_id error) = 0

-- Every row of the event carries the stamp.
abbrev IsHeld : ℕ → ℕ → LeadRequestRow → Type 0
IsHeld event_id start q = (q.event_id == event_id) ≡ true → q.claimed_at ≡ some start

module _ (event_id start : ℕ) where
  -- An update that stamps rows of the event, and no others, at its start.
  stamp-IsHeld :
      (other now : ℕ) (reqs : List LeadRequestRow)
      → ((other == event_id) ≡ true → now ≡ start)
      → All (IsHeld event_id start) reqs
      → All (IsHeld event_id start) (update_where (is_request_of other) (stamp now) reqs)
  stamp-IsHeld other now reqs same =
      update_where-All (IsHeld event_id start) (is_request_of other) (stamp now)
        (λ x held hit mine. ground (arith, same)) reqs

  stamped :
      (reqs : List LeadRequestRow)
      → All (IsHeld event_id start) (update_where (is_request_of event_id) (stamp start) reqs)
  stamped [] = tt
  stamped (q ∷ reqs) = (λ mine. ground arith, stamped reqs)

  absent-IsHeld :
      (reqs : List LeadRequestRow)
      → count_where (is_request_of event_id) reqs ≡ 0
      → (p : LeadRequestRow → Bool)
      → ((q : LeadRequestRow) → p q ≡ true → is_request_of event_id q ≡ true)
      → All (IsHeld event_id start) (update_where p (stamp start) reqs)
  absent-IsHeld [] none_there p sub = tt
  absent-IsHeld (q ∷ reqs) none_there p sub =
      (λ mine. ground (arith, sub q), absent-IsHeld reqs (ground arith) p sub)

  leased-IsHeld :
      (lease_secs : ℕ) (reqs : List LeadRequestRow) {q : LeadRequestRow}
      → count_where (is_request_of event_id) reqs ≤ 1
      → find_where (is_leasable event_id start lease_secs) reqs ≡ some q
      → All
          (IsHeld event_id start)
          (update_where (is_leasable event_id start lease_secs) (stamp start) reqs)
  leased-IsHeld lease_secs [] unique found = absurd (ground arith)
  leased-IsHeld lease_secs (x ∷ reqs) {q} unique found =
      elim (Bool-cases (is_leasable event_id start lease_secs x)) [
        | inl hit ↦ (
          λ mine. ground arith,
          absent-IsHeld reqs (ground arith) (is_leasable event_id start lease_secs)
              (λ r h. ground arith),
        )
        | inr miss ↦ (
          λ mine. ground (
            arith,
            count_where-pos (is_leasable event_id start lease_secs) reqs {a = q},
            count_where_mono (is_leasable event_id start lease_secs) (is_request_of event_id)
                (λ r h. ground arith) reqs,
          ),
          leased-IsHeld lease_secs reqs {q = q} (ground arith) (ground arith),
        )
      ]

  -- While the lease lasts the cron's claim picks no row of the event.
  abbrev IsOther : LeadRequestRow → Type 0
  IsOther q = (q.event_id == event_id) ≡ false

  claimable-IsOther :
      (now lease_secs : ℕ) (exclude : List ℕ) (reqs : List LeadRequestRow)
      → now ≤ start + lease_secs
      → All (IsHeld event_id start) reqs
      → All IsOther (select_where (is_claimable now lease_secs exclude) reqs)
  claimable-IsOther now lease_secs exclude [] h held = tt
  claimable-IsOther now lease_secs exclude (q ∷ reqs) h held =
      let rest = claimable-IsOther now lease_secs exclude reqs h held.1 in
      elim (Bool-cases (is_claimable now lease_secs exclude q)) [
        | inl picked ↦ rw picked (ground (arith, held.0), rest)
        | inr passed ↦ rw passed rest
      ]

  claim_row-other :
      (now : ℕ) (due : List LeadRequestRow) (db : Db)
      → All IsOther due
      → All (IsHeld event_id start) db.lead_requests
      → (event_of (claim_row now due db).0 ≢ some event_id)
        × All (IsHeld event_id start) (claim_row now due db).1.lead_requests
  claim_row-other now [] db others held = (λ e. cc e, held)
  claim_row-other now (q ∷ due) db others held = (
    λ e. ground (arith, others.0),
    stamp-IsHeld q.event_id now db.lead_requests (λ same. ground (arith, others.0)) held,
  )

  lease_kept :
      (other now lease_secs : ℕ) (db : Db)
      → now ≤ start + lease_secs
      → All (IsHeld event_id start) db.lead_requests
      → let out = leased db (try_lease_request_of_event other now lease_secs db) in
        (out.0 ≢ some event_id) × All (IsHeld event_id start) out.1.lead_requests
  unfolding try_lease_request_of_event
  lease_kept other now lease_secs db h held =
      elim (Option-cases (find_where (is_leasable other now lease_secs) db.lead_requests)) [
        | inl none_free ↦ rw (leased, none_free) (λ e. cc e, held)
        | inr (q, free) ↦
            rw (leased, free)
              (
                λ e. ground (
                  arith,
                  find_where-holds (is_leasable other now lease_secs) db.lead_requests free,
                  find_where-All (IsHeld event_id start) (is_leasable other now lease_secs)
                      db.lead_requests held free,
                ),
                update_where-All (IsHeld event_id start) (is_leasable other now lease_secs)
                    (stamp now) (λ x was hit mine. ground (arith, was)) db.lead_requests held,
              )
      ]

  call-other :
      (request_id : ℕ → ℕ) (lease_secs : ℕ) (c : Call) (db : Db)
      → IsWithin event_id start lease_secs c
      → All (IsHeld event_id start) db.lead_requests
      → ((call request_id lease_secs c db).0 ≢ some event_id)
        × All (IsHeld event_id start) (call request_id lease_secs c db).1.lead_requests
  unfolding call claim_next_due_request finish_request_by_event
  call-other request_id lease_secs (cron_claim now exclude) db h held =
      claim_row-other now _ db
        (All-take IsOther 1 _ (
          All-sort_by IsOther _ _
            (claimable-IsOther now lease_secs exclude db.lead_requests h held)))
        held
  call-other request_id lease_secs (officer_claim now other) db h held =
      lease_kept other now lease_secs db h held
  call-other request_id lease_secs (release other error) db h held =
      elim (Bool-cases
        (exists_where (is_request_of other) db.lead_requests && not (detail_fits error))) [
          | inl refused ↦ rw refused (λ e. cc e, held)
          | inr fits ↦ rw fits (
            λ e. cc e,
            update_where-All (IsHeld event_id start) (is_request_of other) (with_outcome error)
                (λ x was hit mine. ground (arith, h)) db.lead_requests held,
          )
        ]

  member-claims :
      (claimed : Option ℕ) (events : List ℕ)
      → claimed ≢ some event_id
      → member event_id events ≡ false
      → member event_id (claims claimed events) ≡ false
  member-claims none events apart h = h
  member-claims (some e) events apart h = ground (arith, ==_iff event_id e)

  calls-other :
      (request_id : ℕ → ℕ) (lease_secs : ℕ) (cs : List Call) (db : Db)
      → All (IsWithin event_id start lease_secs) cs
      → All (IsHeld event_id start) db.lead_requests
      → member event_id (calls request_id lease_secs cs db) ≡ false
  unfolding calls
  calls-other request_id lease_secs [] db within held = refl
  calls-other request_id lease_secs (c ∷ cs) db within held =
      let (apart, kept) = call-other request_id lease_secs c db within.0 held in
      member-claims _ _ apart (calls-other request_id lease_secs cs _ within.1 kept)

-- The call that claims an event stamps its row.
call-IsHeld :
    (request_id : ℕ → ℕ) (lease_secs : ℕ) (c : Call) (db : Db) {event_id : ℕ}
    → count_where (is_request_of event_id) db.lead_requests ≤ 1
    → (call request_id lease_secs c db).0 ≡ some event_id
    → All (IsHeld event_id (time_of c)) (call request_id lease_secs c db).1.lead_requests
unfolding call claim_next_due_request try_lease_request_of_event
call-IsHeld request_id lease_secs (release other error) db unique h = absurd (ground arith)
call-IsHeld request_id lease_secs (cron_claim now exclude) db {event_id} unique h = claimed_row _ h
  where
    claimed_row :
        (due : List LeadRequestRow)
        → event_of (claim_row now due db).0 ≡ some event_id
        → All (IsHeld event_id now) (claim_row now due db).1.lead_requests
    claimed_row [] e = absurd (ground arith)
    claimed_row (q ∷ due) e =
        let same : q.event_id ≡ event_id = ground arith in
        rw same (stamped event_id now db.lead_requests)
call-IsHeld request_id lease_secs (officer_claim now other) db {event_id} unique h =
    leased_row (find_where (is_leasable other now lease_secs) db.lead_requests) refl h
  where
    leased_row :
        (found : Option LeadRequestRow)
        → find_where (is_leasable other now lease_secs) db.lead_requests ≡ found
        → (leased db (lease_row found other now lease_secs db)).0 ≡ some event_id
        → All
            (IsHeld event_id now)
            (leased db (lease_row found other now lease_secs db)).1.lead_requests
    leased_row none f e = absurd (ground arith)
    leased_row (some q) f e =
        let same : other ≡ event_id =
          ground (arith, find_where-holds (is_leasable other now lease_secs) db.lead_requests f) in
        rw same
          (leased-IsHeld event_id now lease_secs db.lead_requests {q = q} unique (rw same at f))

-- After a claim of an event, by the cron or by the officer, no call claims the event again before
-- the lease has run out: whatever claims at most `lease_secs` seconds after the first one and whatever
-- releases of other events follow, in any order. An event has at most one row in the queue.
pub lease-excludes :
    (request_id : ℕ → ℕ) (lease_secs : ℕ) (c : Call) (cs : List Call) (db : Db) {event_id : ℕ}
    → count_where (is_request_of event_id) db.lead_requests ≤ 1
    → (call request_id lease_secs c db).0 ≡ some event_id
    → All (IsWithin event_id (time_of c) lease_secs) cs
    → member event_id (calls request_id lease_secs cs (call request_id lease_secs c db).1) ≡ false
lease-excludes request_id lease_secs c cs db {event_id} unique claimed within =
    calls-other event_id (time_of c) request_id lease_secs cs _ within
      (call-IsHeld request_id lease_secs c db unique claimed)
