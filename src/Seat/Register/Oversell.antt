-- ===== src/Seat/Register/Oversell.antt =====
-- A registration for a single-slot event whose command names a slot (seat_repository.rs, lines
-- 265-302).
use backbone_events.Base.{ℕ, ◌<◌, ◌≡◌, refl, Option, none, some, false, arith}
use backbone_events.Store.{Db, EventRow, RegistrationRow, ok}
use backbone_events.Seat.{Env, RegisterCommand, seats_taken, is_cancelled, find_event}
use backbone_events.Seat.Register.{
  resolve_slot, check_ticket, insert_registration, born_row, after_insert, register,
}
use backbone_events.Seat.Register.Inversion.{register_core-succeeds}
use backbone_events.Seat.Register.Effect.{register_core-seats_taken}

resolve_named :
    (cmd : RegisterCommand) (event : EventRow) (db : Db) {slot : ℕ}
    → event.is_multi_slots ≡ false
    → cmd.event_slot_id ≡ some slot
    → resolve_slot cmd event db ≡ ok (some slot)
unfolding resolve_slot
resolve_named cmd event db single named = ground arith

check_untiered :
    (now event_id : ℕ) (ticket : Option ℕ) (db : Db)
    → ticket ≡ none
    → check_ticket now event_id ticket db ≡ ok tt
unfolding check_ticket
check_untiered now event_id none db e = refl
check_untiered now event_id (some t) db e = cc

module _ (env : Env) (cmd : RegisterCommand) (db : Db) (event : EventRow) (slot : ℕ) (inserted : Db)
    (found : find_event cmd.event_id db ≡ some event)
    (live : is_cancelled event.kanban_state ≡ false) (single : event.is_multi_slots ≡ false)
    (named : cmd.event_slot_id ≡ some slot) (untiered : cmd.event_ticket_id ≡ none)
    (fits : insert_registration env (born_row env cmd (some slot) none) db ≡ ok inserted)
    (room : seats_taken cmd.event_id (some slot) db.registrations < event.seats_max) where
  register_named :
      register env cmd db
      ≡ ok (
        born_row env cmd (some slot) none,
        after_insert env cmd none (born_row env cmd (some slot) none) inserted,
      )
  unfolding register
  register_named =
      register_core-succeeds env cmd none db event (some slot) inserted found live
        (resolve_named cmd event db single named)
        (check_untiered env.utc_now cmd.event_id cmd.event_ticket_id db untiered) (ground arith)
        fits

  -- Where a full single-slot event has a slot with room, a registration that names the slot, is
  -- otherwise acceptable, and has no ticket succeeds, and the event then has more seats taken than
  -- it is limited to.
  pub register-oversells :
      seats_taken cmd.event_id none db.registrations ≡ event.seats_max
      → (row : RegistrationRow) × (db' : Db) × (register env cmd db ≡ ok (row, db'))
        × (event.seats_max < seats_taken cmd.event_id none db'.registrations)
  unfolding register born_row
  register-oversells full = (
    _,
    _,
    register_named,
    ground (arith, register_core-seats_taken env cmd none db cmd.event_id none register_named),
  )
