-- ===== src/Desk/Scan.antt =====
-- Scans at the desk (desk_service.rs, `register_attendee`).
use backbone_events.Base.{
  ℕ, ◌≡◌, refl, sym, ap, ◌∙◌, Option, none, some, true, false, not, ◌==◌, if◌then◌else◌, arith,
  update_where, find_where-update_one, find_where-update_keeps, inl, inr, Bool-cases, ==_refl,
}
use backbone_events.Base.Text.{Text, trim, text_eq}
use backbone_events.Store.{
  Db, EventRow, RegistrationRow, RegistrationState, EventError, ok, err, ok_or, refuse_if,
  >>=-eq-ok, ok_or-eq-ok, refuse_if-eq-ok, ok-injective,
}
use backbone_events.Seat.{Env, find_event, find_row, same_state}
use backbone_events.Seat.Transition.{transition, set_state}
use backbone_events.Seat.Transition.Effect.{transition-rows, transition-Moved}
use backbone_events.Seat.Transition.Repeat.{open-transition}
use backbone_events.Seat.Reads.{find_by_barcode, find_registration}
use backbone_events.Desk.{if_active, is_over, register_attendee}

module _ (env : Env) (barcode : Text) (event_id : ℕ) (actor : Option ℕ) (db : Db)
    (r : RegistrationRow) (event : EventRow)
    (scanned : find_by_barcode (trim barcode) db.registrations ≡ some r)
    (keyed : find_row r.id db.registrations ≡ some r) (active : r.active ≡ true)
    (state : r.state ≡ RegistrationState.opened) (found : find_event event_id db ≡ some event)
    (ongoing : is_over env.utc_now event ≡ false) (own : r.event_id ≡ event_id) where
  -- The scan of an active, open registration's barcode at its own ongoing event succeeds: the row is
  -- returned as done, with the closing date filled in, and no other registration is written.
  pub register_attendee-admits :
      (db' : Db) × (register_attendee env barcode event_id actor db
        ≡ ok (
          (
            set_state env.sql_now RegistrationState.done r,
            RegistrationState.opened,
            RegistrationState.done,
          ),
          db',
        ))
      × (db'.registrations
          ≡ update_where
              (λ (x : RegistrationRow). x.id == r.id)
              (set_state env.sql_now RegistrationState.done)
              db.registrations)
      × (db'.events ≡ db.events)
  unfolding register_attendee
  register_attendee-admits =
      let (db', moved) = open-transition env r actor db keyed state in
      let (rows, events) = transition-rows env r.id RegistrationState.done actor db moved in
      let seen : find_row r.id db'.registrations
          ≡ some (set_state env.sql_now RegistrationState.done r) =
        rw rows (
          find_where-update_one (λ (x : RegistrationRow). x.id == r.id)
            (set_state env.sql_now RegistrationState.done) (λ x. refl) db.registrations keyed) in
      (db', ground (arith, moved, seen), rows, events)

  module _ (again : Env) (other : Option ℕ) (still : is_over again.utc_now event ≡ false) where
    -- The scan of an active, open registration's barcode at its own ongoing event succeeds once: a second
    -- scan of the same code, at the database that the first one left and while the event is ongoing at
    -- the second scan's clock, is refused as already registered.
    pub register_attendee-once :
        (db' : Db) × (register_attendee env barcode event_id actor db
          ≡ ok (
            (
              set_state env.sql_now RegistrationState.done r,
              RegistrationState.opened,
              RegistrationState.done,
            ),
            db',
          ))
        × (register_attendee again barcode event_id other db'
            ≡ err EventError.desk_already_registered)
    unfolding register_attendee
    register_attendee-once =
        let (db', admitted, rows, events) = register_attendee-admits in
        let seen : find_by_barcode (trim barcode) db'.registrations
            ≡ some (set_state env.sql_now RegistrationState.done r) =
          rw rows (rescanned ∙ ap some (rw (==_refl r.id) refl)) in
        let event_kept : find_event event_id db' ≡ some event = rw events found in
        (
          db',
          admitted,
          rw seen (rw active (rw event_kept (rw still (rw own (rw (==_refl event_id) refl))))),
        )
      where
        rescanned :
            find_by_barcode (trim barcode) (
              update_where
                (λ (x : RegistrationRow). x.id == r.id)
                (set_state env.sql_now RegistrationState.done)
                db.registrations)
            ≡ some (if r.id == r.id then set_state env.sql_now RegistrationState.done r else r)
        rescanned =
            find_where-update_keeps (λ (x : RegistrationRow). text_eq x.barcode (trim barcode))
              (λ (x : RegistrationRow). x.id == r.id) (set_state env.sql_now RegistrationState.done)
              (λ x. refl) db.registrations scanned

if_active-eq-some :
    (o : Option RegistrationRow) {r : RegistrationRow}
    → if_active o ≡ some r
    → (o ≡ some r) × (r.active ≡ true)
if_active-eq-some none h = absurd (ground arith)
if_active-eq-some (some x) {r} h = elim (Bool-cases x.active) [
  | inl yes_active ↦ let e : some x ≡ some r = rw (← h) (rw yes_active refl) in (e, ground arith)
  | inr inactive ↦ absurd (ground arith)
]

open_state :
    (s : RegistrationState)
    → same_state s RegistrationState.cancel ≡ false
    → same_state s RegistrationState.draft ≡ false
    → same_state s RegistrationState.done ≡ false
    → s ≡ RegistrationState.opened
open_state RegistrationState.draft c d e = absurd (ground arith)
open_state RegistrationState.opened c d e = refl
open_state RegistrationState.done c d e = absurd (ground arith)
open_state RegistrationState.cancel c d e = absurd (ground arith)

equal_ids : {a b : ℕ} → not (a == b) ≡ false → a ≡ b
equal_ids {a} {b} h = ground arith

-- Every scan that succeeds moved an active, open row of the scanned, ongoing event to done, under
-- the exact trimmed barcode, and wrote no other registration.
pub register_attendee-moves_open :
    (env : Env) (barcode : Text) (event_id : ℕ) (actor : Option ℕ) (db : Db) (row : RegistrationRow)
    (before after : RegistrationState) (db' : Db)
    → register_attendee env barcode event_id actor db ≡ ok ((row, before, after), db')
    → (r : RegistrationRow) × (event : EventRow) × (find_by_barcode (trim barcode) db.registrations
        ≡ some r)
      × (r.active ≡ true)
      × (r.state ≡ RegistrationState.opened)
      × (r.event_id ≡ event_id)
      × (find_event event_id db ≡ some event)
      × (is_over env.utc_now event ≡ false)
      × (after ≡ RegistrationState.done)
      × (db'.registrations
          ≡ update_where
              (λ (x : RegistrationRow). x.id == r.id)
              (set_state env.sql_now RegistrationState.done)
              db.registrations)
unfolding register_attendee
register_attendee-moves_open env barcode event_id actor db row before after db' h =
    let (r, scanned, h1) =
      >>=-eq-ok (ok_or (if_active (find_by_barcode (trim barcode) db.registrations)) _) _ h in
    let (u, kept, h2) =
      >>=-eq-ok (refuse_if (same_state r.state RegistrationState.cancel) _) _ h1 in
    let (v, confirmed, h3) =
      >>=-eq-ok (refuse_if (same_state r.state RegistrationState.draft) _) _ h2 in
    let (event, found, h4) = >>=-eq-ok (ok_or (find_event event_id db) _) _ h3 in
    let (w, ongoing, h5) = >>=-eq-ok (refuse_if (is_over env.utc_now event) _) _ h4 in
    let (x, own, h6) = >>=-eq-ok (refuse_if (not (r.event_id == event_id)) _) _ h5 in
    let (y, waiting, h7) =
      >>=-eq-ok (refuse_if (same_state r.state RegistrationState.done) _) _ h6 in
    let (moved, moves, h8) = >>=-eq-ok (transition env r.id RegistrationState.done actor db) _ h7 in
    let (refreshed, reads, h9) = >>=-eq-ok (find_registration r.id moved.1) _ h8 in
    let (here, active) = if_active-eq-some _ (ok_or-eq-ok _ _ scanned) in
    let end = ok-injective h9 in
    (
      r,
      event,
      here,
      active,
      open_state r.state (refuse_if-eq-ok _ _ kept) (refuse_if-eq-ok _ _ confirmed)
          (refuse_if-eq-ok _ _ waiting),
      equal_ids (refuse_if-eq-ok _ _ own),
      ok_or-eq-ok _ _ found,
      refuse_if-eq-ok _ _ ongoing,
      ap (λ p. p.0.2) (sym end)
          ∙ ap (λ p. p.1) (transition-Moved env r.id RegistrationState.done actor db moves).outcome,
      ap (λ p. p.1.registrations) (sym end)
          ∙ (transition-rows env r.id RegistrationState.done actor db moves).0,
    )
