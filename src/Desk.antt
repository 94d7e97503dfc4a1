-- ===== src/Desk.antt =====
-- The registration desk (src/application/service/desk_service.rs): one scan of a barcode.
pub mod Scan
mod Examples
use backbone_events.Base.{
  ℕ, Option, none, some, Bool, true, false, not, ◌||◌, ◌==◌, leb, if◌then◌else◌,
}
use backbone_events.Base.Text.{Text, trim}
use backbone_events.Store.{
  Db, EventRow, RegistrationRow, RegistrationState, KanbanState, EventError, Result, ok, err, ◌>>=◌,
  ◌>>◌, ok_or, refuse_if,
}
use backbone_events.Seat.{Env, find_event, same_state}
use backbone_events.Seat.Transition.{transition}
use backbone_events.Seat.Reads.{find_by_barcode, find_registration}

-- `.filter(|r| r.active)`
abbrev pub if_active : Option RegistrationRow → Option RegistrationRow
if_active none = none
if_active (some r) = if r.active then some r else none

abbrev pub is_wound_up : KanbanState → Bool
is_wound_up KanbanState.normal = false
is_wound_up KanbanState.done = true
is_wound_up KanbanState.blocked = false
is_wound_up KanbanState.cancel = true

-- The event is done, cancelled, or past its end.
abbrev pub is_over : ℕ → EventRow → Bool
is_over now event = is_wound_up event.kanban_state || leb event.date_end now

-- The frozen branch order of the desk verb; the last step is the one write.
pub register_attendee :
    Env
    → Text
    → ℕ
    → Option ℕ
    → Db
    → Result ((RegistrationRow × RegistrationState × RegistrationState) × Db)
register_attendee env barcode event_id actor db = do
  reg ←
      ok_or (if_active (find_by_barcode (trim barcode) db.registrations))
        EventError.desk_invalid_ticket
  refuse_if (same_state reg.state RegistrationState.cancel) EventError.desk_canceled_registration
  refuse_if (same_state reg.state RegistrationState.draft) EventError.desk_unconfirmed_registration
  event ← ok_or (find_event event_id db) EventError.event_not_found
  refuse_if (is_over env.utc_now event) EventError.desk_not_ongoing_event
  refuse_if (not (reg.event_id == event_id)) EventError.desk_need_manual_confirmation
  refuse_if (same_state reg.state RegistrationState.done) EventError.desk_already_registered
  moved ← transition env reg.id RegistrationState.done actor db
  refreshed ← find_registration reg.id moved.1
  ok ((refreshed, moved.0.0, moved.0.1), moved.1)
