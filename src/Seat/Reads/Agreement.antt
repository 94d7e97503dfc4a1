-- ===== src/Seat/Reads/Agreement.antt =====
-- The availability read beside the register verb (seat_repository.rs, `seat_counts` and
-- `register_core`).
use backbone_events.Base.{ℕ, ◌<◌, ◌≡◌, ◌↔◌, Option, some, true, arith}
use backbone_events.Store.{
  Db, EventRow, RegistrationRow, EventError, ok, ok_or, ok_or-eq-ok, >>=-eq-ok,
}
use backbone_events.Seat.{Env, RegisterCommand, SaleLink, find_event, seats_taken, is_exhausted}
use backbone_events.Seat.Register.{register_core}
use backbone_events.Seat.Register.Effect.{register_core-room}
use backbone_events.Seat.Reads.{SeatCounts, seat_counts, available}

seat_counts-event :
    (event_id : ℕ) (slot : Option ℕ) (db : Db) {c : SeatCounts}
    → seat_counts event_id slot db ≡ ok c
    → (event : EventRow) × (find_event event_id db ≡ some event)
      × (c ≡ record {
        limited = event.seats_limited;
        capacity = event.seats_max;
        taken = seats_taken event_id slot db.registrations;
      })
unfolding seat_counts
seat_counts-event event_id slot db h =
    let (event, found, h1) =
      >>=-eq-ok (ok_or (find_event event_id db) EventError.event_not_found) _ h in
    (event, ok_or-eq-ok _ _ found, cc h1)

-- The availability that is read is 0 exactly when the count guard of the verb would refuse.
pub available-zero_iff :
    (event_id : ℕ) (slot : Option ℕ) (db : Db) (event : EventRow) {c : SeatCounts}
    → seat_counts event_id slot db ≡ ok c
    → find_event event_id db ≡ some event
    → (available c ≡ 0) ↔ (is_exhausted event (seats_taken event_id slot db.registrations) ≡ true)
unfolding available
available-zero_iff event_id slot db event {c} h found =
    let (e, at, counts) = seat_counts-event event_id slot db h in
    let same : e ≡ event = cc (at, found) in ground (arith, counts, same)

-- Whoever was registered had read a positive availability under the slot of the new row.
pub register-available_pos :
    (env : Env) (cmd : RegisterCommand) (link : Option SaleLink) (db : Db) {row : RegistrationRow}
    {db' : Db} {c : SeatCounts}
    → register_core env cmd link db ≡ ok (row, db')
    → seat_counts cmd.event_id row.event_slot_id db ≡ ok c
    → 0 < available c
register-available_pos env cmd link db {row} {c = c} h counts =
    let (event, found, _) = seat_counts-event cmd.event_id row.event_slot_id db counts in
    ground (
      arith,
      register_core-room env cmd link db event h found,
      available-zero_iff cmd.event_id row.event_slot_id db event counts found,
    )
