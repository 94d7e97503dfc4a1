-- ===== src/Seat/Register/Inversion.antt =====
-- The steps of a registration that succeeded (seat_repository.rs, `register_core`).
use backbone_events.Base.{
  ℕ, ◌≡◌, Option, some, true, false, not, ◌&&◌, ◌||◌, ◌==◌, exists_where, ◌∷◌, arith,
}
use backbone_events.Store.{
  Db, EventRow, RegistrationRow, EventError, ok, err, ok_or, refuse_if, >>=-eq-ok, ok_or-eq-ok,
  refuse_if-eq-ok,
}
use backbone_events.Base.Text.{text_eq}
use backbone_events.Seat.{
  Env, RegisterCommand, SaleLink, is_cancelled, seats_taken, is_exhausted, find_event,
}
use backbone_events.Seat.Barcode.{is_barcode}
use backbone_events.Seat.Register.{
  resolve_slot, check_ticket, belongs, insert_registration, born_row, after_insert, register_core,
}

pub record Registered (env : Env) (cmd : RegisterCommand) (link : Option SaleLink) (db : Db)
    (row : RegistrationRow) (db' : Db) : Type 0 where
  pub event : EventRow
  pub slot_id : Option ℕ
  pub inserted : Db
  pub found : find_event cmd.event_id db ≡ some event
  pub live : is_cancelled event.kanban_state ≡ false
  pub resolved : resolve_slot cmd event db ≡ ok slot_id
  pub on_sale : check_ticket env.utc_now cmd.event_id cmd.event_ticket_id db ≡ ok tt
  pub room : is_exhausted event (seats_taken cmd.event_id slot_id db.registrations) ≡ false
  pub insertion : insert_registration env (born_row env cmd slot_id link) db ≡ ok inserted
  pub returned : row ≡ born_row env cmd slot_id link
  pub effect : db' ≡ after_insert env cmd link (born_row env cmd slot_id link) inserted

pub register_core-Registered :
    (env : Env) (cmd : RegisterCommand) (link : Option SaleLink) (db : Db) {row : RegistrationRow}
    {db' : Db}
    → register_core env cmd link db ≡ ok (row, db')
    → Registered env cmd link db row db'
unfolding register_core
register_core-Registered env cmd link db h =
    let (event, found, h1) = >>=-eq-ok (ok_or (find_event cmd.event_id db) _) _ h in
    let (u, live, h2) = >>=-eq-ok (refuse_if (is_cancelled event.kanban_state) _) _ h1 in
    let (slot_id, resolved, h3) = >>=-eq-ok (resolve_slot cmd event db) _ h2 in
    let (v, on_sale, h4) =
      >>=-eq-ok (check_ticket env.utc_now cmd.event_id cmd.event_ticket_id db) _ h3 in
    let (w, room, h5) =
      >>=-eq-ok
        (refuse_if (is_exhausted event (seats_taken cmd.event_id slot_id db.registrations)) _) _
        h4 in
    let (inserted, insertion, h6) =
      >>=-eq-ok (insert_registration env (born_row env cmd slot_id link) db) _ h5 in
    record {
      event = event;
      slot_id = slot_id;
      inserted = inserted;
      found = ok_or-eq-ok _ _ found;
      live = refuse_if-eq-ok _ _ live;
      resolved = resolved;
      on_sale = on_sale;
      room = refuse_if-eq-ok _ _ room;
      insertion = insertion;
      returned = cc h6;
      effect = cc h6;
    }

-- The steps are enough: a registration whose checks all pass succeeds, with this row and database.
pub register_core-succeeds :
    (env : Env) (cmd : RegisterCommand) (link : Option SaleLink) (db : Db) (event : EventRow)
    (slot_id : Option ℕ) (inserted : Db)
    → find_event cmd.event_id db ≡ some event
    → is_cancelled event.kanban_state ≡ false
    → resolve_slot cmd event db ≡ ok slot_id
    → check_ticket env.utc_now cmd.event_id cmd.event_ticket_id db ≡ ok tt
    → is_exhausted event (seats_taken cmd.event_id slot_id db.registrations) ≡ false
    → insert_registration env (born_row env cmd slot_id link) db ≡ ok inserted
    → register_core env cmd link db
      ≡ ok (
        born_row env cmd slot_id link,
        after_insert env cmd link (born_row env cmd slot_id link) inserted,
      )
unfolding register_core
register_core-succeeds env cmd link db event slot_id inserted found live resolved on_sale room
      insertion =
    rw found (rw live (rw resolved (rw on_sale (rw room (rw insertion)))))

-- The refusal at capacity: it is what a full event answers, whatever else is wrong after it.
pub register_core-exhausted :
    (env : Env) (cmd : RegisterCommand) (link : Option SaleLink) (db : Db) (event : EventRow)
    (slot_id : Option ℕ)
    → find_event cmd.event_id db ≡ some event
    → is_cancelled event.kanban_state ≡ false
    → resolve_slot cmd event db ≡ ok slot_id
    → check_ticket env.utc_now cmd.event_id cmd.event_ticket_id db ≡ ok tt
    → is_exhausted event (seats_taken cmd.event_id slot_id db.registrations) ≡ true
    → register_core env cmd link db ≡ err (EventError.event_seats_exhausted cmd.event_id)
unfolding register_core
register_core-exhausted env cmd link db event slot_id found live resolved on_sale full =
    rw found (rw live (rw resolved (rw on_sale (rw full))))

-- The constraints that an inserted row has met, and the table after it.
pub record Inserted (env : Env) (r : RegistrationRow) (db : Db) (db' : Db) : Type 0 where
  pub fits : belongs r db ≡ true
  pub unique :
      exists_where
        (λ (x : RegistrationRow). x.id == r.id || text_eq x.barcode r.barcode)
        db.registrations
      ≡ false
  pub result : db' ≡ record db { registrations = r ∷ db.registrations }

pub insert_registration-Inserted :
    (env : Env) (r : RegistrationRow) (db : Db) {db' : Db}
    → insert_registration env r db ≡ ok db'
    → Inserted env r db db'
unfolding insert_registration
insert_registration-Inserted env r db h =
    let (a, fits, h1) = >>=-eq-ok (refuse_if (not (belongs r db)) _) _ h in
    let (b, shape, h2) =
      >>=-eq-ok (refuse_if (not (is_barcode r.barcode && env.text_checks r)) _) _ h1 in
    let (c, unique, h3) =
      >>=-eq-ok
        (refuse_if
          (exists_where (λ (x : RegistrationRow). x.id == r.id || text_eq x.barcode r.barcode)
            db.registrations)
          _)
        _ h2 in
    record {
      fits = ground (arith, refuse_if-eq-ok (not (belongs r db)) _ fits);
      unique = refuse_if-eq-ok _ _ unique;
      result = cc h3;
    }
