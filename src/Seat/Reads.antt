-- ===== src/Seat/Reads.antt =====
-- The reads over the counting domain (seat_repository.rs and application/service/seat_service.rs),
-- and the one verb that fills in identity fields.
pub mod Agreement
use backbone_events.Base.{
  ℕ, ◌-◌, ◌^◌, ◌≡◌, refl, Option, none, some, List, Bool, true, false, not, ◌&&◌, ◌||◌, ltb, ◌==◌,
  if◌then◌else◌, coalesce, find_where, update_where,
}
use backbone_events.Base.Text.{Text, text_eq}
use backbone_events.Store.{
  Db, record_audit, EventRow, RegistrationRow, AuditEvent, EventError, Result, ok, err, ◌>>=◌,
  ok_or,
}
use backbone_events.Seat.{seats_taken, find_event, find_row}

pub record SeatCounts : Type 0 where
  pub limited : Bool
  pub capacity : ℕ
  pub taken : ℕ

abbrev pub i64_max : ℕ
i64_max = 2 ^ 63 - 1

-- `(capacity - taken).max(0)` on i64 is subtraction that stops at 0.
pub available : SeatCounts → ℕ
available c = if not c.limited || c.capacity == 0 then i64_max else c.capacity - c.taken

unfoldable pub seat_counts : ℕ → Option ℕ → Db → Result SeatCounts
seat_counts event_id slot_id db = do
  event ← ok_or (find_event event_id db) EventError.event_not_found
  ok (record {
    limited = event.seats_limited;
    capacity = event.seats_max;
    taken = seats_taken event_id slot_id db.registrations;
  })

pub record SeatAvailability : Type 0 where
  pub event_id : ℕ
  pub event_slot_id : Option ℕ
  pub limited : Bool
  pub capacity : ℕ
  pub taken : ℕ
  pub available : Option ℕ

pub from_counts : ℕ → Option ℕ → SeatCounts → SeatAvailability
unfolding available
from_counts event_id slot_id c = record {
  event_id = event_id;
  event_slot_id = slot_id;
  limited = c.limited;
  capacity = c.capacity;
  taken = c.taken;
  available = if c.limited && ltb 0 c.capacity then some (available c) else none;
}

pub availability : ℕ → Option ℕ → Db → Result SeatAvailability
unfolding seat_counts from_counts
availability event_id slot_id db = do
  event ← ok_or (find_event event_id db) EventError.event_not_found
  counts ← seat_counts event_id slot_id db
  ok (from_counts event_id slot_id counts)

abbrev pub find_by_barcode : Text → List RegistrationRow → Option RegistrationRow
find_by_barcode barcode regs = find_where (λ (r : RegistrationRow). text_eq r.barcode barcode) regs

abbrev pub find_registration : ℕ → Db → Result RegistrationRow
find_registration id db = ok_or (find_row id db.registrations) EventError.registration_not_found

-- The columns that sync_from_partner sets; `name` is NOT NULL, so its COALESCE never fills it.
abbrev pub fill_identity : ℕ → Option Text → Option Text → RegistrationRow → RegistrationRow
fill_identity partner phone company r = record r {
  partner_id = coalesce r.partner_id (some partner);
  phone = coalesce r.phone phone;
  company_name = coalesce r.company_name company;
}

pub sync_from_partner :
    ℕ → ℕ → Option Text → Option Text → Option Text → Option ℕ → Db → Result (RegistrationRow × Db)
sync_from_partner id partner name phone company actor db = do
  r ←
      ok_or (find_where (λ (x : RegistrationRow). x.id == id && x.active) db.registrations)
        EventError.registration_not_found
  ok (
    fill_identity partner phone company r,
    record_audit actor (AuditEvent.registration_updated id partner) (record db {
      registrations =
          update_where (λ (x : RegistrationRow). x.id == id && x.active)
            (fill_identity partner phone company) db.registrations;
    }),
  )
