-- ===== src/Booths/Soundness.antt =====
-- The tables of booths and bookings under the verbs of a booth (booth_command_repository.rs: create,
-- patch, delete).
use backbone_events.Base.{
  ℕ, ◌≤◌, ◌≡◌, refl, inl, inr, Option, List, [], ◌∷◌, Bool, true, false, not, ◌&&◌, ◌==◌, ltb,
  is_some, Bool-cases, count_where, find_where, exists_where, update_where, delete_where,
  exists_where-count, count_where-update_same, count_where-delete_none, count_where-delete_all,
  count_where-delete_le, count_where_mono, arith,
}
use backbone_events.Base.Text.{Text}
use backbone_events.Store.{
  Db, EventRow, BoothRow, BoothBookingRow, ok, >>=-eq-ok, ok_or, refuse_if, refuse_if-eq-ok,
}
use backbone_events.Booths.{
  BoothEnv, Contact, is_booth, is_booking, of_booth, confirmed_for, is_occupied, new_booth,
  create_booth, patched, patch_booth, delete_booth, category_resolves,
}

-- Primary keys are unique, and the confirmed bookings of a booth are as many as its occupied rows.
pub record IsConsistent (booths : List BoothRow) (bookings : List BoothBookingRow) : Type 0 where
  pub booth_key : (id : ℕ) → count_where (is_booth id) booths ≤ 1
  pub booking_key : (id : ℕ) → count_where (is_booking id) bookings ≤ 1
  pub agrees :
      (id : ℕ) → count_where (confirmed_for id) bookings ≡ count_where (is_occupied id) booths

pub written :
    (db' : Db) (booths : List BoothRow) (bookings : List BoothBookingRow)
    → db'.booths ≡ booths
    → db'.bookings ≡ bookings
    → IsConsistent booths bookings
    → IsConsistent db'.booths db'.bookings
written db' booths bookings same_booths same_bookings c = rw same_booths (rw same_bookings c)

pub update_where-clears {ℓ} :
    {A : Type ℓ} (p q : A → Bool) (f : A → A)
    → ((x : A) → p x ≡ true → q x ≡ true)
    → ((x : A) → q x ≡ true → p (f x) ≡ false)
    → (xs : List A) → count_where p (update_where q f xs) ≡ 0
update_where-clears p q f within clears [] = refl
update_where-clears p q f within clears (x ∷ xs) =
    ground (arith, within x, clears x, update_where-clears p q f within clears xs)

pub update_where-apart {ℓ} :
    {A : Type ℓ} (p q : A → Bool) (f : A → A)
    → ((x : A) → q x ≡ true → p (f x) ≡ p x)
    → (xs : List A) → count_where p (update_where q f xs) ≡ count_where p xs
update_where-apart p q f same [] = refl
update_where-apart p q f same (x ∷ xs) = ground (arith, same x, update_where-apart p q f same xs)

pub create_booth-IsConsistent :
    (env : BoothEnv) (event category : ℕ) (name : Text) (actor : Option ℕ) (db : Db)
    (row : BoothRow) (db' : Db)
    → create_booth env event category name actor db ≡ ok (row, db')
    → IsConsistent db.booths db.bookings
    → IsConsistent db'.booths db'.bookings
unfolding create_booth new_booth
create_booth-IsConsistent env event category name actor db row db' h sound =
    let (u, checked, h1) =
      >>=-eq-ok (refuse_if (not (env.booth_checks (new_booth env event category name))) _) _ h in
    let (v, fresh, h2) =
      >>=-eq-ok (refuse_if (exists_where (is_booth env.new_id) db.booths) _) _ h1 in
    let (w, resolved, h3) =
      >>=-eq-ok
        (refuse_if
          (not (
            exists_where (λ (e : EventRow). e.id == event) db.events
            && exists_where (λ c. c == category) db.booth_categories))
          _)
        _ h2 in
    let absent : count_where (is_booth env.new_id) db.booths ≡ 0 =
      exists_where-count (is_booth env.new_id) db.booths (refuse_if-eq-ok _ _ fresh) in
    written db' (new_booth env event category name ∷ db.booths) (db.bookings) (cc h3) (cc h3)
      (record {
        booth_key = λ id. ground (arith, sound.booth_key id);
        booking_key = sound.booking_key;
        agrees = λ id. ground (arith, sound.agrees id);
      })

pub patch_booth-IsConsistent :
    (env : BoothEnv) (booth : ℕ) (name : Option Text) (category : Option ℕ) (c : Contact)
    (actor : Option ℕ) (db : Db) (row : BoothRow) (db' : Db)
    → patch_booth env booth name category c actor db ≡ ok (row, db')
    → IsConsistent db.booths db.bookings
    → IsConsistent db'.booths db'.bookings
unfolding patch_booth
patch_booth-IsConsistent env booth name category c actor db row db' h sound =
    let (b, found, h1) = >>=-eq-ok (ok_or (find_where (is_booth booth) db.booths) _) _ h in
    let (v, checked, h2) =
      >>=-eq-ok (refuse_if (not (env.booth_checks (patched name category c b))) _) _ h1 in
    let (w, resolved, h3) = >>=-eq-ok (refuse_if (not (category_resolves category db)) _) _ h2 in
    written db' (update_where (is_booth booth) (patched name category c) db.booths) (db.bookings)
      (cc h3) (cc h3)
      (record {
        booth_key = λ id.
            rw
              (count_where-update_same (is_booth id) (is_booth booth) (patched name category c)
                (λ b. refl) db.booths)
              (sound.booth_key id);
        booking_key = sound.booking_key;
        agrees = λ id.
            rw
              (count_where-update_same (is_occupied id) (is_booth booth) (patched name category c)
                (λ b. refl) db.booths)
              (sound.agrees id);
      })

pub delete_booth-IsConsistent :
    (booth : ℕ) (actor : Option ℕ) (db : Db) (row : Unit {0}) (db' : Db)
    → delete_booth booth actor db ≡ ok (row, db')
    → IsConsistent db.booths db.bookings
    → IsConsistent db'.booths db'.bookings
unfolding delete_booth
delete_booth-IsConsistent booth actor db row db' h sound =
    let (b, found, h1) = >>=-eq-ok (ok_or (find_where (is_booth booth) db.booths) _) _ h in
    let (v, unsold, h2) = >>=-eq-ok (refuse_if (is_some b.sale_order_line_id) _) _ h1 in
    let (w, unbooked, h3) =
      >>=-eq-ok (refuse_if (ltb 0 (count_where (of_booth booth) db.bookings)) _) _ h2 in
    let none_left : ltb 0 (count_where (of_booth booth) db.bookings) ≡ false =
      refuse_if-eq-ok _ _ unbooked in
    let none_confirmed : count_where (confirmed_for booth) db.bookings
        ≤ count_where (of_booth booth) db.bookings =
      count_where_mono (confirmed_for booth) (of_booth booth) (λ k. ground arith) db.bookings in
    written db' (delete_where (is_booth booth) db.booths) (db.bookings) (cc h3) (cc h3) (record {
      booth_key = λ id. ground (
        arith,
        sound.booth_key id,
        count_where-delete_le (is_booth id) (is_booth booth) db.booths,
      );
      booking_key = sound.booking_key;
      agrees = λ id. elim (Bool-cases (booth == id)) [
        | inl same ↦ ground (
          arith,
          count_where-delete_all (is_occupied id) (is_booth booth) (λ b. ground arith) db.booths,
        )
        | inr other ↦ ground (
          arith,
          sound.agrees id,
          count_where-delete_none (is_occupied id) (is_booth booth) (λ b. ground arith) db.booths,
        )
      ];
    })
