-- ===== src/Seat/Register.antt =====
-- The register transaction of src/infrastructure/persistence/seat_repository.rs: the checks in their
-- order, the insert with the constraints of the registrations table, the two arms, the audit row.
pub mod Inversion
pub mod Effect
pub mod Oversell
use backbone_events.Base.{
  ℕ, ◌+◌, ◌-◌, ◌≡◌, refl, Option, none, some, List, [], ◌∷◌, Bool, true, false, not, ◌&&◌, ◌||◌,
  ltb, leb, ◌==◌, if◌then◌else◌, is_some, map_option, find_where, exists_where,
}
use backbone_events.Base.Text.{Text, text_eq}
use backbone_events.Store.{
  Db, record_audit, EventRow, SlotRow, TicketRow, RegistrationRow, RegistrationState, AuditEvent,
  EventError, DbError, Result, ok, err, ◌>>=◌, ◌>>◌, ok_or, refuse_if,
}
use backbone_events.Seat.{
  Env, RegisterCommand, SaleLink, same_state, is_cancelled, seats_taken, is_exhausted, find_event,
  arm_after_sub, LeadAxis, arm_lead,
}
use backbone_events.Seat.Barcode.{mint_barcode, is_barcode}

abbrev pub slot_belongs : ℕ → ℕ → Db → Bool
slot_belongs slot event_id db =
    exists_where (λ (s : SlotRow). s.id == slot && s.event_id == event_id) db.slots

abbrev pub ticket_belongs : ℕ → ℕ → TicketRow → Bool
ticket_belongs ticket event_id t = t.id == ticket && t.event_id == event_id

-- The slot that the registration is booked and counted under.
unfoldable pub resolve_slot : RegisterCommand → EventRow → Db → Result (Option ℕ)
resolve_slot cmd event db =
    if event.is_multi_slots
    then ok_or cmd.event_slot_id (EventError.event_slot_required cmd.event_id) >>= (λ slot.
      refuse_if (not (slot_belongs slot cmd.event_id db)) (EventError.event_slot_not_of_event slot)
      >> ok (some slot))
    else ok cmd.event_slot_id

abbrev after_end : ℕ → Option ℕ → Bool
after_end now none = false
after_end now (some end) = ltb end now

abbrev before_start : ℕ → Option ℕ → Bool
before_start now none = false
before_start now (some start) = ltb now start

-- `shut`: the ticket's sale window, read at the time of the call.
abbrev pub is_shut : ℕ → TicketRow → Bool
is_shut now t = before_start now t.start_sale_datetime || after_end now t.end_sale_datetime

unfoldable pub check_ticket : ℕ → ℕ → Option ℕ → Db → Result (Unit {0})
check_ticket now event_id none db = ok tt
check_ticket now event_id (some ticket) db = do
  t ←
      ok_or (find_where (ticket_belongs ticket event_id) db.tickets)
        (EventError.event_ticket_not_of_event ticket)
  refuse_if (is_shut now t) (EventError.event_sale_window_closed ticket)

-- event.assert_registration_belonging, the trigger before an insert.
abbrev pub slot_fits : Option ℕ → ℕ → Db → Bool
slot_fits none event_id db = true
slot_fits (some slot) event_id db = slot_belongs slot event_id db

abbrev pub ticket_fits : Option ℕ → ℕ → Db → Bool
ticket_fits none event_id db = true
ticket_fits (some ticket) event_id db = exists_where (ticket_belongs ticket event_id) db.tickets

abbrev pub slot_named : EventRow → Option ℕ → Bool
slot_named e slot = not e.is_multi_slots || is_some slot

unfoldable pub belongs : RegistrationRow → Db → Bool
belongs r db =
    exists_where (λ (e : EventRow). e.id == r.event_id && slot_named e r.event_slot_id) db.events
    && slot_fits r.event_slot_id r.event_id db
    && ticket_fits r.event_ticket_id r.event_id db

-- INSERT INTO event.registrations, with the trigger, the checks and the two unique indexes.
unfoldable pub insert_registration : Env → RegistrationRow → Db → Result Db
unfolding belongs
insert_registration env r db = do
  refuse_if (not (belongs r db)) (EventError.database DbError.raised_exception)
  refuse_if (not (is_barcode r.barcode && env.text_checks r))
      (EventError.database DbError.check_violation)
  refuse_if
      (exists_where (λ (x : RegistrationRow). x.id == r.id || text_eq x.barcode r.barcode)
        db.registrations)
      (EventError.database DbError.unique_violation)
  ok (record db { registrations = r ∷ db.registrations })

abbrev pub born_state : Option SaleLink → RegistrationState
born_state none = RegistrationState.opened
born_state (some link) = link.initial_state

unfoldable pub born_row : Env → RegisterCommand → Option ℕ → Option SaleLink → RegistrationRow
born_row env cmd slot_id link = record {
  id = env.new_id;
  event_id = cmd.event_id;
  event_slot_id = slot_id;
  event_ticket_id = cmd.event_ticket_id;
  name = cmd.name;
  email = cmd.email;
  phone = cmd.phone;
  company_name = cmd.company_name;
  partner_id = cmd.partner_id;
  state = born_state link;
  date_closed = none;
  sale_order_id = map_option (λ (l : SaleLink). l.sale_order_id) link;
  sale_order_state = map_option (λ (l : SaleLink). l.sale_order_state) link;
  sale_status = map_option (λ (l : SaleLink). l.sale_status) link;
  active = true;
  barcode = mint_barcode env.random_bytes;
  created_at = env.sql_now;
}

-- What follows the insert inside the transaction: the two arms and the audit row.
pub after_insert : Env → RegisterCommand → Option SaleLink → RegistrationRow → Db → Db
unfolding arm_after_sub arm_lead
after_insert env cmd link row db =
    let armed =
      if same_state (born_state link) RegistrationState.opened
      then arm_after_sub (λ e. e == cmd.event_id) env.sql_now db
      else db in
    let queued =
      if cmd.lead_rule_skip then armed else arm_lead LeadAxis.at_register cmd.event_id armed in
    record_audit cmd.actor
      (AuditEvent.registration_created row.id cmd.event_id cmd.email (born_state link)
        (is_some link))
      queued

-- The one register head, over the caller's transaction.
unfoldable pub register_core :
    Env → RegisterCommand → Option SaleLink → Db → Result (RegistrationRow × Db)
register_core env cmd link db = do
  event ← ok_or (find_event cmd.event_id db) EventError.event_not_found
  refuse_if (is_cancelled event.kanban_state)
      (EventError.validation "event is cancelled — registrations refused")
  slot_id ← resolve_slot cmd event db
  check_ticket env.utc_now cmd.event_id cmd.event_ticket_id db
  refuse_if (is_exhausted event (seats_taken cmd.event_id slot_id db.registrations))
      (EventError.event_seats_exhausted cmd.event_id)
  inserted ← insert_registration env (born_row env cmd slot_id link) db
  ok (
    born_row env cmd slot_id link,
    after_insert env cmd link (born_row env cmd slot_id link) inserted,
  )

-- `register` and `register_sale_linked`: the head in a transaction of its own.
pub register : Env → RegisterCommand → Db → Result (RegistrationRow × Db)
unfolding register_core
register env cmd db = register_core env cmd none db

pub register_sale_linked : Env → RegisterCommand → SaleLink → Db → Result (RegistrationRow × Db)
unfolding register_core
register_sale_linked env cmd link db = register_core env cmd (some link) db
