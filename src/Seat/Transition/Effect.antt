-- ===== src/Seat/Transition/Effect.antt =====
-- The tables after a state verb, and the seats (seat_repository.rs, `transition`).
use backbone_events.Base.{
  ℕ, ◌+◌, ◌≤◌, ◌≡◌, refl, ap, ◌∙◌, Option, some, Bool, true, false, ◌==◌, arith, count_where,
  if◌then◌else◌, update_where, one_if, find_where-holds, count_where-update_one,
  count_where-without_one, count_where-outside_update, subst,
}
use backbone_events.Store.{
  Db, EventRow, RegistrationRow, RegistrationState, ok, ok_or, ok_or-eq-ok, >>=-eq-ok,
}
use backbone_events.Seat.{
  Env, seats_taken, seats_taken_without, holds_seat, is_exhausted, find_event, find_row,
}
use backbone_events.Seat.Register.Effect.{SameTables}
use backbone_events.Seat.Transition.{set_state, takes_seat, seat_head, after_transition, transition}

pub record Moved (env : Env) (id : ℕ) (to : RegistrationState) (actor : Option ℕ) (db : Db)
    (result : RegistrationState × RegistrationState × Bool) (db' : Db) : Type 0 where
  pub prev : RegistrationRow
  pub found : find_row id db.registrations ≡ some prev
  pub outcome : result ≡ (prev.state, to, prev.active)
  pub head :
      takes_seat prev to ≡ true
      → seat_head prev (record db {
        registrations =
            update_where
              (λ (r : RegistrationRow). r.id == id)
              (set_state env.sql_now to)
              db.registrations;
      })
        ≡ ok tt
  pub effect :
      db'
      ≡ after_transition env prev to actor (record db {
        registrations =
            update_where
              (λ (r : RegistrationRow). r.id == id)
              (set_state env.sql_now to)
              db.registrations;
      })

pub transition-Moved :
    (env : Env) (id : ℕ) (to : RegistrationState) (actor : Option ℕ) (db : Db)
    {result : RegistrationState × RegistrationState × Bool} {db' : Db}
    → transition env id to actor db ≡ ok (result, db')
    → Moved env id to actor db result db'
unfolding transition
transition-Moved env id to actor db h =
    let staged : Db = record db {
      registrations =
          update_where (λ (r : RegistrationRow). r.id == id) (set_state env.sql_now to)
            db.registrations;
    } in
    let (prev, found, h1) = >>=-eq-ok (ok_or (find_row id db.registrations) _) _ h in
    let (u, head, h2) =
      >>=-eq-ok (if takes_seat prev to then seat_head prev staged else ok tt) _ h1 in
    record {
      prev = prev;
      found = ok_or-eq-ok _ _ found;
      outcome = cc h2;
      head = λ takes. rw takes at head;
      effect = cc h2;
    }

after_transition-registrations :
    (env : Env) (prev : RegistrationRow) (to : RegistrationState) (actor : Option ℕ) (db : Db)
    → (after_transition env prev to actor db).registrations ≡ db.registrations
unfolding after_transition
after_transition-registrations env prev to actor db = ground arith

after_transition-events :
    (env : Env) (prev : RegistrationRow) (to : RegistrationState) (actor : Option ℕ) (db : Db)
    → (after_transition env prev to actor db).events ≡ db.events
unfolding after_transition
after_transition-events env prev to actor db = ground arith

-- A successful transition changes the state and the closing date of the named row, and nothing else
-- of the registrations and events.
pub transition-rows :
    (env : Env) (id : ℕ) (to : RegistrationState) (actor : Option ℕ) (db : Db)
    {result : RegistrationState × RegistrationState × Bool} {db' : Db}
    → transition env id to actor db ≡ ok (result, db')
    → (db'.registrations
        ≡ update_where
            (λ (r : RegistrationRow). r.id == id)
            (set_state env.sql_now to)
            db.registrations)
      × (db'.events ≡ db.events)
transition-rows env id to actor db h =
    let m = transition-Moved env id to actor db h in
    (
      ap (λ (d : Db). d.registrations) m.effect
          ∙ after_transition-registrations env m.prev to actor _,
      ap (λ (d : Db). d.events) m.effect ∙ after_transition-events env m.prev to actor _,
    )

module _ (env : Env) (id : ℕ) (to : RegistrationState) (actor : Option ℕ) (db : Db)
    (prev : RegistrationRow) (found : find_row id db.registrations ≡ some prev)
    (unique : count_where (λ (r : RegistrationRow). r.id == id) db.registrations ≤ 1) where
  -- The seat count under a key moves by the transitioned row alone.
  pub transition-seats_taken :
      {result : RegistrationState × RegistrationState × Bool} {db' : Db} (event_id : ℕ)
      (slot : Option ℕ)
      → transition env id to actor db ≡ ok (result, db')
      → seats_taken event_id slot db'.registrations + one_if (holds_seat event_id slot prev)
        ≡ seats_taken event_id slot db.registrations
          + one_if (holds_seat event_id slot (set_state env.sql_now to prev))
  unfolding seats_taken
  transition-seats_taken event_id slot h = rw (transition-rows env id to actor db h).0 (
      count_where-update_one (holds_seat event_id slot) (λ r. r.id == id) (set_state env.sql_now to)
        db.registrations found unique)

  -- The head's count leaves out exactly the row under transition, staged or not.
  seats_taken_without-staged :
      (event_id : ℕ) (slot : Option ℕ)
      → seats_taken_without id event_id slot (
            update_where
              (λ (r : RegistrationRow). r.id == id)
              (set_state env.sql_now to)
              db.registrations)
          + one_if (holds_seat event_id slot prev)
        ≡ seats_taken event_id slot db.registrations
  unfolding seats_taken_without seats_taken
  seats_taken_without-staged event_id slot = omega (
    arith,
    count_where-outside_update (holds_seat event_id slot) (λ r. r.id == id)
        (set_state env.sql_now to) (λ r. refl) db.registrations,
    count_where-without_one (holds_seat event_id slot) (λ r. r.id == id) db.registrations found
        unique,
  )

  -- A transition that takes a seat has found room for it under the row's own event and slot.
  pub transition-room :
      {result : RegistrationState × RegistrationState × Bool} {db' : Db} (event : EventRow)
      → transition env id to actor db ≡ ok (result, db')
      → takes_seat prev to ≡ true
      → find_event prev.event_id db ≡ some event
      → is_exhausted event (seats_taken prev.event_id prev.event_slot_id db.registrations) ≡ false
  unfolding seat_head
  transition-room event h takes on_event =
      let m = transition-Moved env id to actor db h in
      let same : m.prev ≡ prev = cc (m.found, found) in
      let head =
        subst
          (λ (p : RegistrationRow).
            takes_seat p to ≡ true
            → seat_head p (record db {
              registrations =
                  update_where (λ (r : RegistrationRow). r.id == id) (set_state env.sql_now to)
                    db.registrations;
            })
              ≡ ok tt)
          same m.head takes in
      ground (
        arith,
        head,
        find_where-holds (λ (r : RegistrationRow). r.id == id) db.registrations {a = prev} found,
        seats_taken_without-staged prev.event_id prev.event_slot_id,
      )

after_transition-SameTables :
    (env : Env) (prev : RegistrationRow) (to : RegistrationState) (actor : Option ℕ) (db : Db)
    → SameTables db (after_transition env prev to actor db)
unfolding after_transition
after_transition-SameTables env prev to actor db = (ground arith, ground arith, ground arith)

pub transition-SameTables :
    (env : Env) (id : ℕ) (to : RegistrationState) (actor : Option ℕ) (db : Db)
    {result : RegistrationState × RegistrationState × Bool} {db' : Db}
    → transition env id to actor db ≡ ok (result, db')
    → SameTables db db'
transition-SameTables env id to actor db h =
    let m = transition-Moved env id to actor db h in
    rw m.effect (after_transition-SameTables env m.prev to actor _)
