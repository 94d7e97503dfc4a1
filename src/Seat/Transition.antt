-- ===== src/Seat/Transition.antt =====
-- The state verbs of src/infrastructure/persistence/seat_repository.rs (`transition`): the update,
-- the seat head of a row that enters the counting domain, the arms, the audit row.
pub mod Effect
pub mod Repeat
use backbone_events.Base.{
  ℕ, Option, none, some, List, Bool, true, false, not, ◌&&◌, ◌||◌, ◌==◌, if◌then◌else◌,
  update_where,
}
use backbone_events.Store.{
  Db, record_audit, EventRow, RegistrationRow, RegistrationState, AuditEvent, EventError, Result,
  ok, err, ◌>>=◌, ◌>>◌, ok_or, refuse_if,
}
use backbone_events.Seat.{
  Env, same_state, is_holding, seats_taken_without, is_exhausted, find_event, find_row,
  arm_after_sub, LeadAxis, arm_lead,
}

-- CASE WHEN $2 = 'done' AND r.date_closed IS NULL THEN now() ELSE r.date_closed END
abbrev pub closing_date : ℕ → RegistrationState → Option ℕ → Option ℕ
closing_date now RegistrationState.draft closed = closed
closing_date now RegistrationState.opened closed = closed
closing_date now RegistrationState.done none = some now
closing_date now RegistrationState.done (some t) = some t
closing_date now RegistrationState.cancel closed = closed

abbrev pub set_state : ℕ → RegistrationState → RegistrationRow → RegistrationRow
set_state now to r = record r { state = to; date_closed = closing_date now to r.date_closed }

-- state IN ('draft','cancel'): the states outside the counting domain.
abbrev pub is_waiting : RegistrationState → Bool
is_waiting s = same_state s RegistrationState.draft || same_state s RegistrationState.cancel

abbrev pub takes_seat : RegistrationRow → RegistrationState → Bool
takes_seat prev to = prev.active && is_holding to && is_waiting prev.state

-- THE SEAT-HEAD: the event row is locked and the other rows are counted.
unfoldable pub seat_head : RegistrationRow → Db → Result (Unit {0})
seat_head r db = do
  event ← ok_or (find_event r.event_id db) EventError.event_not_found
  refuse_if
      (is_exhausted event (seats_taken_without r.id r.event_id r.event_slot_id db.registrations))
      (EventError.event_seats_exhausted r.event_id)

abbrev pub axis_of : RegistrationState → LeadAxis
axis_of RegistrationState.draft = LeadAxis.at_confirm
axis_of RegistrationState.opened = LeadAxis.at_confirm
axis_of RegistrationState.done = LeadAxis.at_done
axis_of RegistrationState.cancel = LeadAxis.at_confirm

-- The mail arm, the lead arm and the audit row, each under its own test.
unfoldable pub after_transition : Env → RegistrationRow → RegistrationState → Option ℕ → Db → Db
unfolding arm_after_sub arm_lead
after_transition env prev to actor db =
    let armed =
      if prev.active && same_state to RegistrationState.opened && is_waiting prev.state
      then arm_after_sub (λ e. e == prev.event_id) env.sql_now db
      else db in
    let queued =
      if prev.active && is_holding to && not (same_state prev.state to)
      then arm_lead (axis_of to) prev.event_id armed
      else armed in
    if same_state prev.state to
    then queued
    else record_audit actor (AuditEvent.registration_state_changed prev.id prev.state to) queued

-- The result is the state before, the state after, and `active`.
unfoldable pub transition :
    Env
    → ℕ
    → RegistrationState
    → Option ℕ
    → Db
    → Result ((RegistrationState × RegistrationState × Bool) × Db)
unfolding seat_head after_transition
transition env id to actor db = do
  prev ← ok_or (find_row id db.registrations) EventError.registration_not_found
  let staged = record db {
    registrations =
        update_where (λ (r : RegistrationRow). r.id == id) (set_state env.sql_now to)
          db.registrations;
  }
  if takes_seat prev to then seat_head prev staged else ok tt
  ok ((prev.state, to, prev.active), after_transition env prev to actor staged)
