-- ===== src/Booths/Bookings.antt =====
-- The tables of booths and bookings under the verbs of a booking (booth_command_repository.rs: create,
-- confirm, release, withdraw, and the paid latch).
use backbone_events.Base.{
  ℕ, ◌≡◌, refl, sym, ap, inl, inr, Option, some, List, ◌∷◌, true, false, not, ◌&&◌, ◌||◌, ◌==◌,
  Bool-cases, not-false, count_where, find_where, exists_where, update_where, delete_where,
  find_where-holds, exists_where-or_count, count_where-update_one, count_where-update_same,
  count_where-delete_none, count_where-delete_all, count_where-delete_le, arith,
}
use backbone_events.Store.{
  Db, BoothRow, BoothBookingRow, ok, >>=-eq-ok, ok_or, ok_or-eq-ok, refuse_if, refuse_if-eq-ok,
  ok-injective,
}
use backbone_events.Seam.{on_line, latch}
use backbone_events.Booths.{
  BoothEnv, Contact, is_booth, is_booking, is_available, is_confirmed, of_booth, confirmed_for,
  is_occupied, is_pending, same_line, new_booking, create_booking, check_line, confirm_row,
  occupied, confirm_booking, freed, release_booth, delete_booking, mark_booths_paid,
}
use backbone_events.Booths.Soundness.{
  IsConsistent, written, update_where-clears, update_where-apart,
}

pub create_booking-IsConsistent :
    (env : BoothEnv) (booth : ℕ) (line : Option ℕ) (c : Contact) (actor : Option ℕ) (db : Db)
    (row : BoothBookingRow) (db' : Db)
    → create_booking env booth line c actor db ≡ ok (row, db')
    → IsConsistent db.booths db.bookings
    → IsConsistent db'.booths db'.bookings
unfolding create_booking new_booking
create_booking-IsConsistent env booth line c actor db row db' h sound =
    let (b, found, h1) = >>=-eq-ok (ok_or (find_where (is_booth booth) db.booths) _) _ h in
    let (u, one_event, h2) = >>=-eq-ok (check_line line b.event_id db) _ h1 in
    let (v, checked, h3) =
      >>=-eq-ok (refuse_if (not (env.booking_checks (new_booking env booth line c))) _) _ h2 in
    let (w, fresh, h4) =
      >>=-eq-ok
        (refuse_if
          (exists_where
            (λ (k : BoothBookingRow).
              k.id == env.new_id
              || (same_line line k.sale_order_line_id && k.event_booth_id == booth))
            db.bookings)
          _)
        _ h3 in
    let absent : count_where (is_booking env.new_id) db.bookings ≡ 0 =
      exists_where-or_count (is_booking env.new_id)
        (λ k. same_line line k.sale_order_line_id && k.event_booth_id == booth) db.bookings
        (refuse_if-eq-ok _ _ fresh) in
    written db' db.booths (new_booking env booth line c ∷ db.bookings) (cc h4) (cc h4) (record {
      booth_key = sound.booth_key;
      booking_key = λ id. ground (arith, sound.booking_key id);
      agrees = λ id. ground (arith, sound.agrees id);
    })

-- The tables after the writes of a confirm.
flipped-IsConsistent :
    (booking : ℕ) (k : BoothBookingRow) (b : BoothRow) {booths : List BoothRow}
    {bookings : List BoothBookingRow}
    → find_where (is_booking booking) bookings ≡ some k
    → find_where (is_booth k.event_booth_id) booths ≡ some b
    → is_available b.state ≡ true
    → is_confirmed k.status ≡ false
    → IsConsistent booths bookings
    → IsConsistent
        (update_where (is_booth k.event_booth_id) (occupied k) booths)
        (update_where (is_booking booking) confirm_row bookings)
flipped-IsConsistent booking k b {booths} {bookings} found at vacant pending sound =
    let keyed : (b.id == k.event_booth_id) ≡ true =
      find_where-holds (is_booth k.event_booth_id) booths at in
    record {
      booth_key = λ id.
          rw
            (count_where-update_same (is_booth id) (is_booth k.event_booth_id) (occupied k)
              (λ b. refl) booths)
            (sound.booth_key id);
      booking_key = λ id.
          rw
            (count_where-update_same (is_booking id) (is_booking booking) confirm_row (λ b. refl)
              bookings)
            (sound.booking_key id);
      agrees = λ id. ground (
        arith,
        sound.agrees id,
        count_where-update_one (confirmed_for id) (is_booking booking) confirm_row bookings found
            (sound.booking_key booking),
        count_where-update_one (is_occupied id) (is_booth k.event_booth_id) (occupied k) booths at
            (sound.booth_key k.event_booth_id),
      );
    }

-- What a successful confirm found and wrote.
pub record Confirmed (booking : ℕ) (db : Db) (rows : BoothBookingRow × BoothRow) (db' : Db)
    : Type 0 where
  pub k : BoothBookingRow
  pub b : BoothRow
  pub found : find_where (is_booking booking) db.bookings ≡ some k
  pub at : find_where (is_booth k.event_booth_id) db.booths ≡ some b
  pub vacant : is_available b.state ≡ true
  pub pending : is_confirmed k.status ≡ false
  pub alone : exists_where (confirmed_for k.event_booth_id) db.bookings ≡ false
  pub outcome : rows ≡ (confirm_row k, occupied k b)
  pub booths : db'.booths ≡ update_where (is_booth k.event_booth_id) (occupied k) db.booths
  pub bookings : db'.bookings ≡ update_where (is_booking booking) confirm_row db.bookings

pub confirm_booking-Confirmed :
    (booking : ℕ) (actor : Option ℕ) (db : Db) (rows : BoothBookingRow × BoothRow) (db' : Db)
    → confirm_booking booking actor db ≡ ok (rows, db')
    → Confirmed booking db rows db'
unfolding confirm_booking
confirm_booking-Confirmed booking actor db rows db' h =
    let (k, found, h1) = >>=-eq-ok (ok_or (find_where (is_booking booking) db.bookings) _) _ h in
    let (b, at, h2) = >>=-eq-ok (ok_or (find_where (is_booth k.event_booth_id) db.booths) _) _ h1 in
    let (u, vacant, h3) = >>=-eq-ok (refuse_if (not (is_available b.state)) _) _ h2 in
    let (v, pending, h4) = >>=-eq-ok (refuse_if (is_confirmed k.status) _) _ h3 in
    let (w, alone, h5) =
      >>=-eq-ok (refuse_if (exists_where (confirmed_for k.event_booth_id) db.bookings) _) _ h4 in
    let free : not (is_available b.state) ≡ false = refuse_if-eq-ok _ _ vacant in
    let written_rows = ok-injective h5 in
    record {
      k = k;
      b = b;
      found = ok_or-eq-ok _ _ found;
      at = ok_or-eq-ok _ _ at;
      vacant = not-false free;
      pending = refuse_if-eq-ok _ _ pending;
      alone = refuse_if-eq-ok _ _ alone;
      outcome = ap (λ p. p.0) (sym written_rows);
      booths = ap (λ p. p.1.booths) (sym written_rows);
      bookings = ap (λ p. p.1.bookings) (sym written_rows);
    }

pub confirm_booking-IsConsistent :
    (booking : ℕ) (actor : Option ℕ) (db : Db) (rows : BoothBookingRow × BoothRow) (db' : Db)
    → confirm_booking booking actor db ≡ ok (rows, db')
    → IsConsistent db.booths db.bookings
    → IsConsistent db'.booths db'.bookings
confirm_booking-IsConsistent booking actor db rows db' h sound =
    let m = confirm_booking-Confirmed booking actor db rows db' h in
    written db' _ _ m.booths m.bookings
      (flipped-IsConsistent booking m.k m.b m.found m.at m.vacant m.pending sound)

pub release_booth-IsConsistent :
    (booth : ℕ) (actor : Option ℕ) (db : Db) (row : BoothRow) (db' : Db)
    → release_booth booth actor db ≡ ok (row, db')
    → IsConsistent db.booths db.bookings
    → IsConsistent db'.booths db'.bookings
unfolding release_booth
release_booth-IsConsistent booth actor db row db' h sound =
    let (b, found, h1) = >>=-eq-ok (ok_or (find_where (is_occupied booth) db.booths) _) _ h in
    written db' (update_where (is_occupied booth) freed db.booths)
      (delete_where (of_booth booth) db.bookings) (cc h1) (cc h1)
      (record {
        booth_key = λ id.
            rw
              (count_where-update_same (is_booth id) (is_occupied booth) freed (λ b. refl)
                db.booths)
              (sound.booth_key id);
        booking_key = λ id. ground (
          arith,
          sound.booking_key id,
          count_where-delete_le (is_booking id) (of_booth booth) db.bookings,
        );
        agrees = λ id. elim (Bool-cases (booth == id)) [
          | inl same ↦ ground (
            arith,
            count_where-delete_all (confirmed_for id) (of_booth booth) (λ k. ground arith)
                db.bookings,
            update_where-clears (is_occupied id) (is_occupied booth) freed (λ b. ground arith)
                (λ b. ground arith) db.booths,
          )
          | inr other ↦ ground (
            arith,
            sound.agrees id,
            count_where-delete_none (confirmed_for id) (of_booth booth) (λ k. ground arith)
                db.bookings,
            update_where-apart (is_occupied id) (is_occupied booth) freed (λ b. ground arith)
                db.booths,
          )
        ];
      })

pub delete_booking-IsConsistent :
    (booking : ℕ) (actor : Option ℕ) (db : Db) (row : Unit {0}) (db' : Db)
    → delete_booking booking actor db ≡ ok (row, db')
    → IsConsistent db.booths db.bookings
    → IsConsistent db'.booths db'.bookings
unfolding delete_booking
delete_booking-IsConsistent booking actor db row db' h sound =
    let (u, found, h1) =
      >>=-eq-ok (refuse_if (not (exists_where (is_pending booking) db.bookings)) _) _ h in
    written db' db.booths (delete_where (is_pending booking) db.bookings) (cc h1) (cc h1) (record {
      booth_key = sound.booth_key;
      booking_key = λ id. ground (
        arith,
        sound.booking_key id,
        count_where-delete_le (is_booking id) (is_pending booking) db.bookings,
      );
      agrees = λ id. ground (
        arith,
        sound.agrees id,
        count_where-delete_none (confirmed_for id) (is_pending booking) (λ k. ground arith)
            db.bookings,
      );
    })

pub mark_booths_paid-IsConsistent :
    (lines : List ℕ) (db : Db)
    → IsConsistent db.booths db.bookings
    → IsConsistent (mark_booths_paid lines db).1.booths (mark_booths_paid lines db).1.bookings
unfolding mark_booths_paid
mark_booths_paid-IsConsistent lines db sound = record {
  booth_key = λ id.
      rw
        (count_where-update_same (is_booth id) (λ (b : BoothRow). on_line lines b && not b.is_paid)
          latch (λ b. refl) db.booths)
        (sound.booth_key id);
  booking_key = sound.booking_key;
  agrees = λ id.
      rw
        (count_where-update_same (is_occupied id)
          (λ (b : BoothRow). on_line lines b && not b.is_paid) latch (λ b. refl) db.booths)
        (sound.agrees id);
}
