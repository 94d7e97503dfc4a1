-- ===== src/Lead/Queue.antt =====
-- The generation queue of lead_command_repository.rs: arm, claim, lease and finish. A walker holds a
-- row by the time stamp of its claim, for `lease_secs` seconds at most.
pub mod Lease
use backbone_events.Base.{
  ℕ, ◌+◌, ◌≤◌, ◌≡◌, Option, none, some, List, [], ◌∷◌, ◌++◌, Bool, true, false, not, ◌&&◌, ◌||◌,
  ◌==◌, leb, ltb, is_some, if◌then◌else◌, length, take, find_where, select_where, exists_where,
  update_where, sort_by,
}
use backbone_events.Base.Text.{Text}
use backbone_events.Store.{
  Db, LeadRequestRow, Result, ok, err, EventError, DbError, refuse_if, ◌>>◌,
}
use backbone_events.Seat.{upsert_request}

abbrev pub member : ℕ → List ℕ → Bool
member a [] = false
member a (x ∷ xs) = (a == x) || member a xs

abbrev pub is_request_of : ℕ → LeadRequestRow → Bool
is_request_of event_id q = q.event_id == event_id

unfoldable pub arm_request : ℕ → Db → Db
arm_request event_id db = record db { lead_requests = upsert_request event_id db.lead_requests }

-- claimed_at IS NULL OR claimed_at < now() - make_interval(secs => lease_secs)
abbrev pub is_free : ℕ → ℕ → Option ℕ → Bool
is_free now lease_secs none = true
is_free now lease_secs (some claimed) = ltb (claimed + lease_secs) now

abbrev pub is_claimable : ℕ → ℕ → List ℕ → LeadRequestRow → Bool
is_claimable now lease_secs exclude q =
    not q.done && is_free now lease_secs q.claimed_at && not (member q.event_id exclude)

abbrev pub stamp : ℕ → LeadRequestRow → LeadRequestRow
stamp now q = record q { claimed_at = some now }

abbrev pub claim_row : ℕ → List LeadRequestRow → Db → Option LeadRequestRow × Db
claim_row now [] db = (none, db)
claim_row now (due ∷ rest) db = (
  some (stamp now due),
  record db {
    lead_requests = update_where (is_request_of due.event_id) (stamp now) db.lead_requests;
  },
)

-- `request_id` gives the id that the row of an event was stored under; the claim goes in its order.
unfoldable pub claim_next_due_request : (ℕ → ℕ) → ℕ → ℕ → List ℕ → Db → Option LeadRequestRow × Db
claim_next_due_request request_id now lease_secs exclude db =
    claim_row now
      (take 1 (
        sort_by (λ (q r : LeadRequestRow). leb (request_id q.event_id) (request_id r.event_id))
          (select_where (is_claimable now lease_secs exclude) db.lead_requests)))
      db

abbrev pub is_leasable : ℕ → ℕ → ℕ → LeadRequestRow → Bool
is_leasable event_id now lease_secs q =
    is_request_of event_id q && is_free now lease_secs q.claimed_at

-- No lease was taken: the row is held, or there is none.
abbrev pub lease_refusal : ℕ → Db → EventError
lease_refusal event_id db =
    if exists_where (is_request_of event_id) db.lead_requests
    then EventError.lead_request_busy event_id
    else EventError.lead_request_not_found event_id

abbrev pub lease_row : Option LeadRequestRow → ℕ → ℕ → ℕ → Db → Result (LeadRequestRow × Db)
lease_row none event_id now lease_secs db = err (lease_refusal event_id db)
lease_row (some q) event_id now lease_secs db = ok (
  stamp now q,
  record db {
    lead_requests = update_where (is_leasable event_id now lease_secs) (stamp now) db.lead_requests;
  },
)

unfoldable pub try_lease_request_of_event : ℕ → ℕ → ℕ → Db → Result (LeadRequestRow × Db)
try_lease_request_of_event event_id now lease_secs db =
    lease_row (find_where (is_leasable event_id now lease_secs) db.lead_requests) event_id now
      lease_secs db

-- SET done = error.is_none(), error_detail = error, claimed_at = NULL
abbrev pub with_outcome : Option Text → LeadRequestRow → LeadRequestRow
with_outcome error q = record q {
  done = not (is_some error);
  error_detail = error;
  claimed_at = none;
}

-- CHECK (char_length(error_detail) <= 500)
abbrev pub detail_fits : Option Text → Bool
detail_fits none = true
detail_fits (some reason) = leb (length reason) 500

-- The update of the rows that meet the test; the CHECK refuses it where there is such a row.
abbrev pub finish_where : (LeadRequestRow → Bool) → Option Text → Db → Result Db
finish_where hit error db =
    refuse_if (exists_where hit db.lead_requests && not (detail_fits error))
      (EventError.database DbError.check_violation)
    >> ok (record db { lead_requests = update_where hit (with_outcome error) db.lead_requests })

unfoldable pub finish_request : (ℕ → ℕ) → ℕ → Option Text → Db → Result Db
finish_request request_id id error db =
    finish_where (λ (q : LeadRequestRow). request_id q.event_id == id) error db

unfoldable pub finish_request_by_event : ℕ → Option Text → Db → Result Db
finish_request_by_event event_id error db = finish_where (is_request_of event_id) error db

unfoldable pub find_request_of_event : ℕ → Db → Option LeadRequestRow
find_request_of_event event_id db = find_where (is_request_of event_id) db.lead_requests
