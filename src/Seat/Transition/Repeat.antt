-- ===== src/Seat/Transition/Repeat.antt =====
-- State verbs that are called again, and the cancel verb (seat_repository.rs, `transition`).
use backbone_events.Base.{
  ℕ, ◌+◌, ◌≤◌, ◌≡◌, refl, Option, some, Bool, true, false, ◌&&◌, ◌==◌, arith, count_where,
  update_where, one_if, update_where-settled, find_where-update_one, count_where-update_same,
}
use backbone_events.Store.{Db, RegistrationRow, RegistrationState, ok}
use backbone_events.Seat.{Env, seats_taken, holds_seat, find_row}
use backbone_events.Seat.Transition.{closing_date, set_state, after_transition, transition}
use backbone_events.Seat.Transition.Effect.{
  transition-Moved, transition-rows, transition-seats_taken,
}

-- A state verb on a row that already has the state is not refused and writes nothing: no row, no
-- arm, no audit entry. (`done` on a row with no closing date still stamps it, hence the condition.)
pub transition-settled :
    (env : Env) (id : ℕ) (to : RegistrationState) (actor : Option ℕ) (db : Db) (r : RegistrationRow)
    → find_row id db.registrations ≡ some r
    → count_where (λ (x : RegistrationRow). x.id == id) db.registrations ≤ 1
    → r.state ≡ to
    → closing_date env.sql_now to r.date_closed ≡ r.date_closed
    → transition env id to actor db ≡ ok ((to, to, r.active), db)
unfolding transition after_transition
transition-settled env id to actor db r found unique settled closed =
    let same : set_state env.sql_now to r ≡ r = ground arith in
    let rows =
      update_where-settled (λ (x : RegistrationRow). x.id == id) (set_state env.sql_now to)
        db.registrations found unique same in
    rw (found, rows) (ground arith)

-- Confirming twice is confirming once: after a successful confirm, a second one, by whomever and at
-- whatever time, succeeds and leaves the database exactly as the first one left it.
pub confirm_twice :
    (env again : Env) (id : ℕ) (actor other : Option ℕ) (db : Db)
    {result : RegistrationState × RegistrationState × Bool} {db' : Db}
    → count_where (λ (x : RegistrationRow). x.id == id) db.registrations ≤ 1
    → transition env id RegistrationState.opened actor db ≡ ok (result, db')
    → transition again id RegistrationState.opened other db'
      ≡ ok ((RegistrationState.opened, RegistrationState.opened, result.2), db')
confirm_twice env again id actor other db {result} {db'} unique h =
    let m = transition-Moved env id RegistrationState.opened actor db h in
    let rows = (transition-rows env id RegistrationState.opened actor db h).0 in
    let now_open = set_state env.sql_now RegistrationState.opened m.prev in
    let found : find_row id db'.registrations ≡ some now_open = rw rows (
      find_where-update_one _ (set_state env.sql_now RegistrationState.opened) (λ r. refl)
        db.registrations m.found) in
    let still : count_where (λ (x : RegistrationRow). x.id == id) db'.registrations ≤ 1 = rw rows (
      rw
        (count_where-update_same (λ (x : RegistrationRow). x.id == id) (λ x. x.id == id)
          (set_state env.sql_now RegistrationState.opened) (λ r. refl) db.registrations)
        unique) in
    rw m.outcome (
      transition-settled again id RegistrationState.opened other db' now_open found still refl refl)

-- Cancelling is never refused for want of seats: on a stored row it succeeds, and under every key the
-- row's seat, if it held one, is free again.
pub cancel-frees :
    (env : Env) (id : ℕ) (actor : Option ℕ) (db : Db) (r : RegistrationRow)
    → find_row id db.registrations ≡ some r
    → count_where (λ (x : RegistrationRow). x.id == id) db.registrations ≤ 1
    → (db' : Db) × (transition env id RegistrationState.cancel actor db
        ≡ ok ((r.state, RegistrationState.cancel, r.active), db'))
      × ((event_id : ℕ) (slot : Option ℕ)
          → seats_taken event_id slot db'.registrations + one_if (holds_seat event_id slot r)
            ≡ seats_taken event_id slot db.registrations)
cancel-frees env id actor db r found unique = (_, moved, freed)
  where
    moved :
        transition env id RegistrationState.cancel actor db
        ≡ ok (
          (r.state, RegistrationState.cancel, r.active),
          after_transition env r RegistrationState.cancel actor (record db {
            registrations =
                update_where
                  (λ (x : RegistrationRow). x.id == id)
                  (set_state env.sql_now RegistrationState.cancel)
                  db.registrations;
          }),
        )
    moved = unfold transition in rw found (ground arith)

    freed :
        (event_id : ℕ) (slot : Option ℕ)
        → seats_taken event_id slot
              (after_transition env r RegistrationState.cancel actor (record db {
                registrations =
                    update_where
                      (λ (x : RegistrationRow). x.id == id)
                      (set_state env.sql_now RegistrationState.cancel)
                      db.registrations;
              })).registrations
            + one_if (holds_seat event_id slot r)
          ≡ seats_taken event_id slot db.registrations
    freed event_id slot = ground (
      arith,
      transition-seats_taken env id RegistrationState.cancel actor db r found unique event_id slot
          moved,
    )

and_false : (b : Bool) → ((b && true) && false) ≡ false
and_false false = refl
and_false true = refl

-- An open row is moved to done without a seat head, and the call succeeds.
pub open-transition :
    (env : Env) (r : RegistrationRow) (actor : Option ℕ) (db : Db)
    → find_row r.id db.registrations ≡ some r
    → r.state ≡ RegistrationState.opened
    → (db' : Db) × (transition env r.id RegistrationState.done actor db
        ≡ ok ((RegistrationState.opened, RegistrationState.done, r.active), db'))
unfolding transition
open-transition env r actor db found state = (
  after_transition env r RegistrationState.done actor (record db {
    registrations =
        update_where (λ (x : RegistrationRow). x.id == r.id)
          (set_state env.sql_now RegistrationState.done) db.registrations;
  }),
  rw found (rw state (rw (and_false r.active) refl)),
)
