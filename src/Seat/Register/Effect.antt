-- ===== src/Seat/Register/Effect.antt =====
-- The tables after a registration, and the seats (seat_repository.rs, `register_core`).
use backbone_events.Base.{
  ℕ, ◌+◌, ◌≤◌, ◌<◌, ◌≡◌, refl, ap, Option, some, true, false, ◌&&◌, ◌==◌, exists_where-or_count,
  ◌∷◌, arith, count_where, if◌then◌else◌, update_where, one_if,
}
use backbone_events.Base.Text.{text_eq}
use backbone_events.Store.{Db, EventRow, RegistrationRow, RegistrationState, MailRow, ok}
use backbone_events.Seat.{
  Env, RegisterCommand, SaleLink, seats_taken, holds_seat, is_exhausted, find_event, same_state,
  is_after_sub, arm_mail, arm_lead, LeadAxis,
}
use backbone_events.Seat.Register.{resolve_slot, born_state, born_row, after_insert, register_core}
use backbone_events.Seat.Register.Inversion.{register_core-Registered, insert_registration-Inserted}

arm_lead-mails : (a : LeadAxis) (e : ℕ) (db : Db) → (arm_lead a e db).mails ≡ db.mails
unfolding arm_lead
arm_lead-mails a e db = ground arith

after_insert-registrations :
    (env : Env) (cmd : RegisterCommand) (link : Option SaleLink) (row : RegistrationRow) (db : Db)
    → (after_insert env cmd link row db).registrations ≡ db.registrations
unfolding after_insert
after_insert-registrations env cmd link row db = ground arith

after_insert-events :
    (env : Env) (cmd : RegisterCommand) (link : Option SaleLink) (row : RegistrationRow) (db : Db)
    → (after_insert env cmd link row db).events ≡ db.events
unfolding after_insert
after_insert-events env cmd link row db = ground arith

after_insert-mails :
    (env : Env) (cmd : RegisterCommand) (link : Option SaleLink) (row : RegistrationRow) (db : Db)
    → (after_insert env cmd link row db).mails ≡ (
        if same_state (born_state link) RegistrationState.opened
        then update_where
            (λ (m : MailRow). m.event_id == cmd.event_id && is_after_sub m.interval_kind)
            (arm_mail env.sql_now)
            db.mails
        else db.mails)
unfolding after_insert
after_insert-mails env cmd link row db = ground arith

-- A successful registration adds exactly the returned row, and touches no event.
pub register_core-rows :
    (env : Env) (cmd : RegisterCommand) (link : Option SaleLink) (db : Db) {row : RegistrationRow}
    {db' : Db}
    → register_core env cmd link db ≡ ok (row, db')
    → (db'.registrations ≡ row ∷ db.registrations) × (db'.events ≡ db.events)
register_core-rows env cmd link db h =
    let r = register_core-Registered env cmd link db h in
    let i = insert_registration-Inserted env _ db r.insertion in
    (
      cc (
        r.returned,
        ap (λ (d : Db). d.registrations) r.effect,
        ap (λ (d : Db). d.registrations) i.result,
        after_insert-registrations env cmd link (born_row env cmd r.slot_id link) r.inserted,
      ),
      cc (
        ap (λ (d : Db). d.events) r.effect,
        ap (λ (d : Db). d.events) i.result,
        after_insert-events env cmd link (born_row env cmd r.slot_id link) r.inserted,
      ),
    )

-- The seat count after a registration is the one before it and the new row, under every key.
pub register_core-seats_taken :
    (env : Env) (cmd : RegisterCommand) (link : Option SaleLink) (db : Db) {row : RegistrationRow}
    {db' : Db} (event_id : ℕ) (slot : Option ℕ)
    → register_core env cmd link db ≡ ok (row, db')
    → seats_taken event_id slot db'.registrations
      ≡ one_if (holds_seat event_id slot row) + seats_taken event_id slot db.registrations
unfolding seats_taken
register_core-seats_taken env cmd link db event_id slot h =
    rw (register_core-rows env cmd link db h).0

-- The row of a successful registration: the command's event, the resolved slot, the born state.
pub register_core-row :
    (env : Env) (cmd : RegisterCommand) (link : Option SaleLink) (db : Db) {row : RegistrationRow}
    {db' : Db}
    → register_core env cmd link db ≡ ok (row, db')
    → (row.event_id ≡ cmd.event_id) × (row.state ≡ born_state link) × (row.id ≡ env.new_id)
unfolding born_row
register_core-row env cmd link db h =
    let r = register_core-Registered env cmd link db h in
    (
      ap (λ (x : RegistrationRow). x.event_id) r.returned,
      ap (λ (x : RegistrationRow). x.state) r.returned,
      ap (λ (x : RegistrationRow). x.id) r.returned,
    )

-- The count that is compared with the limit is made under the row's own event and slot.
pub register_core-room :
    (env : Env) (cmd : RegisterCommand) (link : Option SaleLink) (db : Db) {row : RegistrationRow}
    {db' : Db} (event : EventRow)
    → register_core env cmd link db ≡ ok (row, db')
    → find_event cmd.event_id db ≡ some event
    → is_exhausted event (seats_taken cmd.event_id row.event_slot_id db.registrations) ≡ false
unfolding born_row
register_core-room env cmd link db event h found =
    let r = register_core-Registered env cmd link db h in
    let same : event ≡ r.event = cc (found, r.found) in
    let slot = ap (λ (x : RegistrationRow). x.event_slot_id) r.returned in rw (same, slot) r.room

-- After a successful registration the event, counted as the registration was counted, is within its
-- limit: whenever the event is limited to a positive number of seats, no more are taken.
pub register_core-le-seats_max :
    (env : Env) (cmd : RegisterCommand) (link : Option SaleLink) (db : Db) {row : RegistrationRow}
    {db' : Db} (event : EventRow)
    → register_core env cmd link db ≡ ok (row, db')
    → find_event cmd.event_id db ≡ some event
    → event.seats_limited ≡ true
    → 0 < event.seats_max
    → seats_taken cmd.event_id row.event_slot_id db'.registrations ≤ event.seats_max
register_core-le-seats_max env cmd link db {row} event h found limited positive = ground (
  arith,
  register_core-room env cmd link db event h found,
  register_core-seats_taken env cmd link db cmd.event_id row.event_slot_id h,
)

-- A slot is named by every row of a multi-slot event, and is a slot of that event.
pub register_core-slot :
    (env : Env) (cmd : RegisterCommand) (link : Option SaleLink) (db : Db) {row : RegistrationRow}
    {db' : Db} (event : EventRow)
    → register_core env cmd link db ≡ ok (row, db')
    → find_event cmd.event_id db ≡ some event
    → (row.event_slot_id ≡ cmd.event_slot_id)
unfolding born_row resolve_slot
register_core-slot env cmd link db event h found =
    let r = register_core-Registered env cmd link db h in
    let slot = ap (λ (x : RegistrationRow). x.event_slot_id) r.returned in
    ground (arith, slot, r.resolved)

-- The new row's id was not in the table.
pub register_core-fresh :
    (env : Env) (cmd : RegisterCommand) (link : Option SaleLink) (db : Db) {row : RegistrationRow}
    {db' : Db}
    → register_core env cmd link db ≡ ok (row, db')
    → count_where (λ (r : RegistrationRow). r.id == row.id) db.registrations ≡ 0
register_core-fresh env cmd link db {row} h =
    let r = register_core-Registered env cmd link db h in
    let i = insert_registration-Inserted env _ db r.insertion in
    rw r.returned (
      exists_where-or_count _ (λ x. text_eq x.barcode (born_row env cmd r.slot_id link).barcode)
        db.registrations i.unique)

-- The tables that a registration does not write.
abbrev pub SameTables : Db → Db → Type 0
SameTables db db' =
    (db'.seam_inbox ≡ db.seam_inbox) × (db'.booths ≡ db.booths) × (db'.bookings ≡ db.bookings)

after_insert-SameTables :
    (env : Env) (cmd : RegisterCommand) (link : Option SaleLink) (row : RegistrationRow) (db : Db)
    → SameTables db (after_insert env cmd link row db)
unfolding after_insert
after_insert-SameTables env cmd link row db = (ground arith, ground arith, ground arith)

pub register_core-SameTables :
    (env : Env) (cmd : RegisterCommand) (link : Option SaleLink) (db : Db) {row : RegistrationRow}
    {db' : Db}
    → register_core env cmd link db ≡ ok (row, db')
    → SameTables db db'
register_core-SameTables env cmd link db h =
    let r = register_core-Registered env cmd link db h in
    let i = insert_registration-Inserted env _ db r.insertion in
    rw r.effect (rw i.result (after_insert-SameTables env cmd link _ _))

-- A row registered with a sale linkage is born with it.
pub register_core-link :
    (env : Env) (cmd : RegisterCommand) (link : SaleLink) (db : Db) {row : RegistrationRow}
    {db' : Db}
    → register_core env cmd (some link) db ≡ ok (row, db')
    → (row.sale_order_id ≡ some link.sale_order_id)
      × (row.sale_order_state ≡ some link.sale_order_state)
      × (row.sale_status ≡ some link.sale_status)
      × (row.state ≡ link.initial_state)
      × (row.active ≡ true)
unfolding born_row
register_core-link env cmd link db h =
    let r = register_core-Registered env cmd (some link) db h in
    rw r.returned (refl, refl, refl, refl, refl)

-- The schedulers after a registration: those of the event armed if the row is born open, and
-- untouched if it is born in any other state.
pub register_core-mails :
    (env : Env) (cmd : RegisterCommand) (link : Option SaleLink) (db : Db) {row : RegistrationRow}
    {db' : Db}
    → register_core env cmd link db ≡ ok (row, db')
    → db'.mails ≡ (
        if same_state row.state RegistrationState.opened
        then update_where
            (λ (m : MailRow). m.event_id == cmd.event_id && is_after_sub m.interval_kind)
            (arm_mail env.sql_now)
            db.mails
        else db.mails)
unfolding born_row
register_core-mails env cmd link db h =
    let r = register_core-Registered env cmd link db h in
    let i = insert_registration-Inserted env _ db r.insertion in
    rw r.returned (rw r.effect (rw i.result (after_insert-mails env cmd link _ _)))
