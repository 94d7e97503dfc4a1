-- ===== src/Booths.antt =====
-- The booth verbs (src/infrastructure/persistence/booth_command_repository.rs): create, patch and
-- delete of booths, the booking lifecycle, the confirm transaction, the release, the paid latch.
pub mod Soundness
pub mod Bookings
pub mod Exclusivity
mod Examples
use backbone_events.Base.{
  ℕ, ◌+◌, ◌≡◌, refl, Option, none, some, List, [], ◌∷◌, Bool, true, false, not, ◌&&◌, ◌||◌, ◌==◌,
  ltb, if◌then◌else◌, is_value, is_some, coalesce, count_where, find_where, exists_where,
  update_where, delete_where,
}
use backbone_events.Base.Text.{Text}
use backbone_events.Store.{
  Db, record_audit, EventRow, BoothRow, BoothBookingRow, BoothState, BookingStatus, AuditEvent,
  EventError, DbError, Result, ok, err, ◌>>=◌, ◌>>◌, ok_or, refuse_if,
}
use backbone_events.Seam.{on_line, latch}

-- What a call reads from outside the tables: the fresh uuid and the declared checks on the texts.
pub record BoothEnv : Type 0 where
  pub new_id : ℕ
  pub booth_checks : BoothRow → Bool
  pub booking_checks : BoothBookingRow → Bool

-- The partner and contact columns that a booth and a booking share.
pub record Contact : Type 0 where
  pub partner_id : Option ℕ
  pub contact_name : Option Text
  pub contact_email : Option Text
  pub contact_phone : Option Text

abbrev pub is_booth : ℕ → BoothRow → Bool
is_booth id b = b.id == id

abbrev pub is_booking : ℕ → BoothBookingRow → Bool
is_booking id k = k.id == id

abbrev pub is_available : BoothState → Bool
is_available BoothState.available = true
is_available BoothState.unavailable = false

abbrev pub is_confirmed : BookingStatus → Bool
is_confirmed BookingStatus.pending = false
is_confirmed BookingStatus.confirmed = true

abbrev pub of_booth : ℕ → BoothBookingRow → Bool
of_booth booth k = k.event_booth_id == booth

-- status = 'confirmed', under the booth: the rows of the index booths_confirmed_exclusivity.
abbrev pub confirmed_for : ℕ → BoothBookingRow → Bool
confirmed_for booth k = k.event_booth_id == booth && is_confirmed k.status

-- Fill-if-empty (EBT-4).
abbrev pub fill_contact : Contact → BoothRow → BoothRow
fill_contact c b = record b {
  partner_id = coalesce b.partner_id c.partner_id;
  contact_name = coalesce b.contact_name c.contact_name;
  contact_email = coalesce b.contact_email c.contact_email;
  contact_phone = coalesce b.contact_phone c.contact_phone;
}

pub new_booth : BoothEnv → ℕ → ℕ → Text → BoothRow
new_booth env event_id category name = record {
  id = env.new_id;
  event_id = event_id;
  booth_category_id = category;
  name = name;
  state = BoothState.available;
  partner_id = none;
  contact_name = none;
  contact_email = none;
  contact_phone = none;
  sale_order_line_id = none;
  is_paid = false;
}

pub create_booth : BoothEnv → ℕ → ℕ → Text → Option ℕ → Db → Result (BoothRow × Db)
create_booth env event_id category name actor db = do
  refuse_if (not (env.booth_checks (new_booth env event_id category name)))
      (EventError.database DbError.check_violation)
  refuse_if (exists_where (is_booth env.new_id) db.booths)
      (EventError.database DbError.unique_violation)
  refuse_if
      (not (
        exists_where (λ (e : EventRow). e.id == event_id) db.events
        && exists_where (λ c. c == category) db.booth_categories))
      (EventError.validation "booth create refused — event or category does not resolve")
  ok (
    new_booth env event_id category name,
    record_audit actor (AuditEvent.booth_created env.new_id event_id)
        (record db { booths = new_booth env event_id category name ∷ db.booths }),
  )

abbrev pub or_stored {ℓ} : {A : Type ℓ} → Option A → A → A
or_stored none stored = stored
or_stored (some a) stored = a

-- Name and category are set, the contact family is filled if empty.
abbrev pub patched : Option Text → Option ℕ → Contact → BoothRow → BoothRow
patched name category c b = fill_contact c (record b {
  name = or_stored name b.name;
  booth_category_id = or_stored category b.booth_category_id;
})

abbrev pub category_resolves : Option ℕ → Db → Bool
category_resolves none db = true
category_resolves (some category) db = exists_where (λ c. c == category) db.booth_categories

pub patch_booth :
    BoothEnv → ℕ → Option Text → Option ℕ → Contact → Option ℕ → Db → Result (BoothRow × Db)
patch_booth env booth_id name category c actor db = do
  b ← ok_or (find_where (is_booth booth_id) db.booths) (EventError.booth_not_found booth_id)
  refuse_if (not (env.booth_checks (patched name category c b)))
      (EventError.database DbError.check_violation)
  refuse_if (not (category_resolves category db))
      (EventError.database DbError.foreign_key_violation)
  ok (
    patched name category c b,
    record_audit actor (AuditEvent.booth_updated booth_id) (record db {
      booths = update_where (is_booth booth_id) (patched name category c) db.booths;
    }),
  )

pub delete_booth : ℕ → Option ℕ → Db → Result (Unit {0} × Db)
delete_booth booth_id actor db = do
  b ← ok_or (find_where (is_booth booth_id) db.booths) (EventError.booth_not_found booth_id)
  refuse_if (is_some b.sale_order_line_id) (EventError.booth_delete_refused_sale_linked booth_id)
  refuse_if (ltb 0 (count_where (of_booth booth_id) db.bookings))
      (EventError.validation "booth delete refused — booking rows exist (release first)")
  ok (
    tt,
    record_audit actor (AuditEvent.booth_deleted booth_id)
        (record db { booths = delete_where (is_booth booth_id) db.booths }),
  )

-- The booking of another event's booth on the same line (EBS-4).
abbrev pub crosses : ℕ → ℕ → Db → BoothBookingRow → Bool
crosses line event_id db k =
    is_value line k.sale_order_line_id
    && exists_where (λ (b : BoothRow). b.id == k.event_booth_id && not (b.event_id == event_id))
        db.booths

pub check_line : Option ℕ → ℕ → Db → Result (Unit {0})
check_line none event_id db = ok tt
check_line (some line) event_id db =
    refuse_if (exists_where (crosses line event_id db) db.bookings)
      (EventError.booth_booking_line_cross_event line)

-- UNIQUE (sale_order_line_id, event_booth_id): NULL lines do not collide.
abbrev pub same_line : Option ℕ → Option ℕ → Bool
same_line none other = false
same_line (some line) other = is_value line other

pub new_booking : BoothEnv → ℕ → Option ℕ → Contact → BoothBookingRow
new_booking env booth line c = record {
  id = env.new_id;
  event_booth_id = booth;
  sale_order_line_id = line;
  status = BookingStatus.pending;
  partner_id = c.partner_id;
  contact_name = c.contact_name;
  contact_email = c.contact_email;
  contact_phone = c.contact_phone;
}

-- Both unique indexes are reported as the loud loser (`map_exclusivity`).
pub create_booking :
    BoothEnv → ℕ → Option ℕ → Contact → Option ℕ → Db → Result (BoothBookingRow × Db)
unfolding check_line
create_booking env booth line c actor db = do
  b ← ok_or (find_where (is_booth booth) db.booths) (EventError.booth_not_found booth)
  check_line line b.event_id db
  refuse_if (not (env.booking_checks (new_booking env booth line c)))
      (EventError.database DbError.check_violation)
  refuse_if
      (exists_where
        (λ (k : BoothBookingRow).
          k.id == env.new_id || (same_line line k.sale_order_line_id && k.event_booth_id == booth))
        db.bookings)
      (EventError.booth_already_confirmed booth)
  ok (
    new_booking env booth line c,
    record_audit actor (AuditEvent.booth_booking_created booth env.new_id)
        (record db { bookings = new_booking env booth line c ∷ db.bookings }),
  )

abbrev pub confirm_row : BoothBookingRow → BoothBookingRow
confirm_row k = record k { status = BookingStatus.confirmed }

abbrev pub contact_of : BoothBookingRow → Contact
contact_of k = record {
  partner_id = k.partner_id;
  contact_name = k.contact_name;
  contact_email = k.contact_email;
  contact_phone = k.contact_phone;
}

-- The five booth writes of a confirm.
abbrev pub occupied : BoothBookingRow → BoothRow → BoothRow
occupied k b = fill_contact (contact_of k) (record b {
  state = BoothState.unavailable;
  sale_order_line_id = coalesce b.sale_order_line_id k.sale_order_line_id;
})

-- CONFIRM: the pre-check, the flip against the partial unique index, the booth writes.
pub confirm_booking : ℕ → Option ℕ → Db → Result ((BoothBookingRow × BoothRow) × Db)
confirm_booking booking_id actor db = do
  k ←
      ok_or (find_where (is_booking booking_id) db.bookings)
        (EventError.booth_booking_not_found booking_id)
  b ←
      ok_or (find_where (is_booth k.event_booth_id) db.booths)
        (EventError.booth_booking_not_found booking_id)
  refuse_if (not (is_available b.state)) (EventError.booth_already_confirmed k.event_booth_id)
  refuse_if (is_confirmed k.status) (EventError.database DbError.row_not_found)
  refuse_if (exists_where (confirmed_for k.event_booth_id) db.bookings)
      (EventError.booth_already_confirmed k.event_booth_id)
  ok (
    (confirm_row k, occupied k b),
    record_audit actor (AuditEvent.booth_confirmed k.event_booth_id booking_id) (record db {
      bookings = update_where (is_booking booking_id) confirm_row db.bookings;
      booths = update_where (is_booth k.event_booth_id) (occupied k) db.booths;
    }),
  )

abbrev pub freed : BoothRow → BoothRow
freed b = record b { state = BoothState.available }

abbrev pub is_occupied : ℕ → BoothRow → Bool
is_occupied id b = b.id == id && not (is_available b.state)

-- RELEASE: the bookings go, the booth is available again; a booth that was not taken is refused.
pub release_booth : ℕ → Option ℕ → Db → Result (BoothRow × Db)
release_booth booth_id actor db = do
  b ← ok_or (find_where (is_occupied booth_id) db.booths) (EventError.booth_not_found booth_id)
  ok (
    freed b,
    record_audit actor (AuditEvent.booth_released booth_id) (record db {
      bookings = delete_where (of_booth booth_id) db.bookings;
      booths = update_where (is_occupied booth_id) freed db.booths;
    }),
  )

abbrev pub is_pending : ℕ → BoothBookingRow → Bool
is_pending id k = k.id == id && not (is_confirmed k.status)

pub delete_booking : ℕ → Option ℕ → Db → Result (Unit {0} × Db)
delete_booking booking_id actor db = do
  refuse_if (not (exists_where (is_pending booking_id) db.bookings))
      (EventError.booth_booking_not_found booking_id)
  ok (
    tt,
    record_audit actor (AuditEvent.booth_booking_deleted booking_id)
        (record db { bookings = delete_where (is_pending booking_id) db.bookings }),
  )

pub mark_booths_paid : List ℕ → Db → ℕ × Db
mark_booths_paid lines db = (
  count_where (λ (b : BoothRow). on_line lines b && not b.is_paid) db.booths,
  record db {
    booths = update_where (λ (b : BoothRow). on_line lines b && not b.is_paid) latch db.booths;
  },
)
