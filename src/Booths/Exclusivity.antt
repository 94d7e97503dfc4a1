-- ===== src/Booths/Exclusivity.antt =====
-- Histories of booth verbs, the second confirm of a booth, and the delete and release of a booth
-- (booth_command_repository.rs).
use backbone_events.Base.{
  ℕ, ◌≤◌, ◌≡◌, refl, ap, find_where-update_one, find_where-update_other, ◌∙◌, Option, none, some,
  List, [], ◌∷◌, false, ◌==◌, ltb, is_some, count_where, find_where, delete_where,
  count_where-delete_none, count_where-delete_all, count_where_mono, arith,
}
use backbone_events.Base.Text.{Text}
use backbone_events.Store.{
  Db, BoothRow, BoothBookingRow, EventError, Result, ok, err, >>=-eq-ok, ok_or, ok_or-eq-ok,
  refuse_if, refuse_if-eq-ok,
}
use backbone_events.Booths.{
  BoothEnv, Contact, is_booth, is_booking, of_booth, confirmed_for, is_occupied, create_booth,
  patch_booth, delete_booth, create_booking, confirm_row, occupied, confirm_booking, freed,
  release_booth, delete_booking, mark_booths_paid,
}
use backbone_events.Booths.Soundness.{
  IsConsistent, update_where-clears, update_where-apart, create_booth-IsConsistent,
  patch_booth-IsConsistent, delete_booth-IsConsistent,
}
use backbone_events.Booths.Bookings.{
  confirm_booking-Confirmed, create_booking-IsConsistent, confirm_booking-IsConsistent,
  release_booth-IsConsistent, delete_booking-IsConsistent, mark_booths_paid-IsConsistent,
}

-- The calls of the booth verbs, with what each reads from outside the tables.
pub data BoothCall : Type 0 where
  creates : BoothEnv → (event category : ℕ) → Text → Option ℕ → BoothCall
  patches : BoothEnv → (booth : ℕ) → Option Text → Option ℕ → Contact → Option ℕ → BoothCall
  deletes : (booth : ℕ) → Option ℕ → BoothCall
  books : BoothEnv → (booth : ℕ) → Option ℕ → Contact → Option ℕ → BoothCall
  confirms : (booking : ℕ) → Option ℕ → BoothCall
  releases : (booth : ℕ) → Option ℕ → BoothCall
  unbooks : (booking : ℕ) → Option ℕ → BoothCall
  pays : List ℕ → BoothCall

-- A refused verb leaves the database as it was.
abbrev pub kept {ℓ} : {A : Type ℓ} → Result (A × Db) → Db → Db
kept (ok out) db = out.1
kept (err e) db = db

pub call : BoothCall → Db → Db
call (creates env event category name actor) db =
    kept (create_booth env event category name actor db) db
call (patches env booth name category c actor) db =
    kept (patch_booth env booth name category c actor db) db
call (deletes booth actor) db = kept (delete_booth booth actor db) db
call (books env booth line c actor) db = kept (create_booking env booth line c actor db) db
call (confirms booking actor) db = kept (confirm_booking booking actor db) db
call (releases booth actor) db = kept (release_booth booth actor db) db
call (unbooks booking actor) db = kept (delete_booking booking actor db) db
call (pays lines) db = (mark_booths_paid lines db).1

pub calls : List BoothCall → Db → Db
calls [] db = db
calls (c ∷ cs) db = calls cs (call c db)

-- The tables of a database are consistent.
pub record IsSound (db : Db) : Type 0 where
  pub tables : IsConsistent db.booths db.bookings

-- A step that leaves the tables consistent in every success does so in every case.
kept-IsSound {ℓ} :
    {A : Type ℓ} (r : Result (A × Db)) (db : Db)
    → IsSound db
    → ((a : A) (db' : Db) → r ≡ ok (a, db') → IsConsistent db'.booths db'.bookings)
    → IsSound (kept r db)
kept-IsSound (ok (a, db')) db sound after = record { tables = after a db' refl }
kept-IsSound (err e) db sound after = sound

call-IsSound : (c : BoothCall) (db : Db) → IsSound db → IsSound (call c db)
unfolding call
call-IsSound (creates env event category name actor) db v =
    kept-IsSound _ db v
      λ a db' h. create_booth-IsConsistent env event category name actor db a db' h v.tables
call-IsSound (patches env booth name category c actor) db v =
    kept-IsSound _ db v
      λ a db' h. patch_booth-IsConsistent env booth name category c actor db a db' h v.tables
call-IsSound (deletes booth actor) db v =
    kept-IsSound _ db v λ a db' h. delete_booth-IsConsistent booth actor db a db' h v.tables
call-IsSound (books env booth line c actor) db v =
    kept-IsSound _ db v
      λ a db' h. create_booking-IsConsistent env booth line c actor db a db' h v.tables
call-IsSound (confirms booking actor) db v =
    kept-IsSound _ db v λ a db' h. confirm_booking-IsConsistent booking actor db a db' h v.tables
call-IsSound (releases booth actor) db v =
    kept-IsSound _ db v λ a db' h. release_booth-IsConsistent booth actor db a db' h v.tables
call-IsSound (unbooks booking actor) db v =
    kept-IsSound _ db v λ a db' h. delete_booking-IsConsistent booking actor db a db' h v.tables
call-IsSound (pays lines) db v = record { tables = mark_booths_paid-IsConsistent lines db v.tables }

-- Every history of booth verbs, refused ones included, keeps booth and booking keys unique and the
-- confirmed bookings of each booth as many as its occupied rows.
pub calls-IsSound : (cs : List BoothCall) (db : Db) → IsSound db → IsSound (calls cs db)
unfolding calls
calls-IsSound [] db v = v
calls-IsSound (c ∷ cs) db v = calls-IsSound cs (call c db) (call-IsSound c db v)

occupied-le-booths :
    (id : ℕ) (booths : List BoothRow)
    → count_where (is_occupied id) booths ≤ count_where (is_booth id) booths
occupied-le-booths id booths =
    count_where_mono (is_occupied id) (is_booth id) (λ b. ground arith) booths

-- From a sound database, after every history of booth verbs, a booth has at most one confirmed
-- booking, and it has one exactly when its row is unavailable.
pub calls-exclusive :
    (cs : List BoothCall) (db : Db) (id : ℕ)
    → IsSound db
    → (count_where (confirmed_for id) (calls cs db).bookings ≤ 1)
      × (count_where (confirmed_for id) (calls cs db).bookings
          ≡ count_where (is_occupied id) (calls cs db).booths)
calls-exclusive cs db id v =
    let after : IsSound (calls cs db) = calls-IsSound cs db v in
    (
      ground (
        arith,
        after.tables.agrees id,
        after.tables.booth_key id,
        occupied-le-booths id (calls cs db).booths,
      ),
      after.tables.agrees id,
    )

-- Two bookings of one booth: once the first is confirmed, the confirm of the second is refused with
-- the booth's id, if the second stands in the table and is another row than the first.
pub confirm_booking-loser :
    (first second : ℕ) (actor other : Option ℕ) (db : Db) (k : BoothBookingRow)
    (rows : BoothBookingRow × BoothRow) (db' : Db)
    → confirm_booking first actor db ≡ ok (rows, db')
    → find_where (is_booking second) db.bookings ≡ some k
    → (second == first) ≡ false
    → k.event_booth_id ≡ rows.0.event_booth_id
    → confirm_booking second other db' ≡ err (EventError.booth_already_confirmed k.event_booth_id)
unfolding confirm_booking
confirm_booking-loser first second actor other db k rows db' h found apart same =
    let m = confirm_booking-Confirmed first actor db rows db' h in
    let same_booth : k.event_booth_id ≡ m.k.event_booth_id =
      same ∙ ap (λ r. r.0.event_booth_id) m.outcome in
    let second_found : find_where (is_booking second) db'.bookings ≡ some k = rw m.bookings (
      find_where-update_other (is_booking second) (is_booking first) confirm_row (λ x. ground arith)
        (λ x h. refl) db.bookings
      ∙ found) in
    let booth_found : find_where (is_booth k.event_booth_id) db'.booths ≡ some (occupied m.k m.b) =
      rw m.booths (
        rw same_booth (
          find_where-update_one (is_booth m.k.event_booth_id) (occupied m.k) (λ x. refl) db.booths
            m.at)) in
    rw second_found (rw booth_found refl)

-- A booth is deleted only when no booking names it and no sale line claims it, and then exactly its
-- row goes: nothing else of the booths and no booking.
pub delete_booth-fenced :
    (booth : ℕ) (actor : Option ℕ) (db db' : Db)
    → delete_booth booth actor db ≡ ok (tt, db')
    → (count_where (of_booth booth) db.bookings ≡ 0)
      × (db'.bookings ≡ db.bookings)
      × (db'.booths ≡ delete_where (is_booth booth) db.booths)
      × ((b : BoothRow) × (find_where (is_booth booth) db.booths ≡ some b)
          × (b.sale_order_line_id ≡ none))
unfolding delete_booth
delete_booth-fenced booth actor db db' h =
    let (b, found, h1) = >>=-eq-ok (ok_or (find_where (is_booth booth) db.booths) _) _ h in
    let (v, unsold, h2) = >>=-eq-ok (refuse_if (is_some b.sale_order_line_id) _) _ h1 in
    let (w, unbooked, h3) =
      >>=-eq-ok (refuse_if (ltb 0 (count_where (of_booth booth) db.bookings)) _) _ h2 in
    let free : ltb 0 (count_where (of_booth booth) db.bookings) ≡ false =
      refuse_if-eq-ok _ _ unbooked in
    let open_line : is_some b.sale_order_line_id ≡ false = refuse_if-eq-ok _ _ unsold in
    (ground arith, cc h3, cc h3, (b, ok_or-eq-ok _ _ found, ground arith))

-- The release of an occupied booth succeeds, takes away all its bookings, and leaves it with no
-- occupied row; any other booth keeps its occupied rows and its confirmed bookings.
pub release_booth-frees :
    (booth other : ℕ) (actor : Option ℕ) (db : Db) {b : BoothRow}
    → find_where (is_occupied booth) db.booths ≡ some b
    → (booth == other) ≡ false
    → (db' : Db) × (release_booth booth actor db ≡ ok (freed b, db'))
      × (count_where (of_booth booth) db'.bookings ≡ 0)
      × (count_where (is_occupied booth) db'.booths ≡ 0)
      × (count_where (confirmed_for other) db'.bookings
          ≡ count_where (confirmed_for other) db.bookings)
      × (count_where (is_occupied other) db'.booths ≡ count_where (is_occupied other) db.booths)
unfolding release_booth
release_booth-frees booth other actor db {b} found apart = (
  kept (release_booth booth actor db) db,
  rw found,
  rw found (count_where-delete_all (of_booth booth) (of_booth booth) (λ k h. h) db.bookings),
  rw found (
      update_where-clears (is_occupied booth) (is_occupied booth) freed (λ b h. h)
        (λ b. ground arith) db.booths),
  rw found (
      count_where-delete_none (confirmed_for other) (of_booth booth) (λ k. ground arith)
        db.bookings),
  rw found (
      update_where-apart (is_occupied other) (is_occupied booth) freed (λ b. ground arith)
        db.booths),
)
