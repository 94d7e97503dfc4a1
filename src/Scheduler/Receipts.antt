-- ===== src/Scheduler/Receipts.antt =====
-- The receipts after a lazy materialization (scheduler_repository.rs, `materialize_receipts`).
use backbone_events.Base.{
  ℕ, zero, suc, ◌+◌, ◌≤◌, ◌≡◌, refl, List, [], ◌∷◌, ◌++◌, map, Bool, true, false, ◌&&◌, ◌==◌, leb,
  arith, Bool-cases, inl, inr, length, take, count_where, select_where, exists_where,
  exists_where-count, sort_by, insert_by, ==_refl, count_where_mono,
}
use backbone_events.Store.{Db, RegistrationRow, MailRow}
use backbone_events.Scheduler.{
  Host, is_receipt_of, lacks_receipt, new_receipt, missing_receipts, materialize_receipts,
}

module _ {ℓ} {A : Type ℓ} where
  count_where-append :
      (p : A → Bool) (xs ys : List A)
      → count_where p (xs ++ ys) ≡ count_where p xs + count_where p ys
  count_where-append p [] ys = omega arith
  count_where-append p (x ∷ xs) ys = ground (arith, count_where-append p xs ys)

  count_where-insert_by :
      (p : A → Bool) (before : A → A → Bool) (x : A) (xs : List A)
      → count_where p (insert_by before x xs) ≡ count_where p (x ∷ xs)
  count_where-insert_by p before x [] = refl
  count_where-insert_by p before x (y ∷ ys) = ground (arith, count_where-insert_by p before x ys)

  count_where-sort_by :
      (p : A → Bool) (before : A → A → Bool) (xs : List A)
      → count_where p (sort_by before xs) ≡ count_where p xs
  count_where-sort_by p before [] = refl
  count_where-sort_by p before (x ∷ xs) =
      ground (
        arith,
        count_where-insert_by p before x (sort_by before xs),
        count_where-sort_by p before xs,
      )

  count_where-take :
      (p : A → Bool) (n : ℕ) (xs : List A) → count_where p (take n xs) ≤ count_where p xs
  count_where-take p zero xs = omega arith
  count_where-take p (suc n) [] = omega arith
  count_where-take p (suc n) (x ∷ xs) = ground (arith, count_where-take p n xs)

  count_where-select_where :
      (p q : A → Bool) (xs : List A)
      → count_where p (select_where q xs) ≡ count_where (λ x. p x && q x) xs
  count_where-select_where p q [] = refl
  count_where-select_where p q (x ∷ xs) = ground (arith, count_where-select_where p q xs)

  count_where-none : (p : A → Bool) → ((x : A) → p x ≡ false) → (xs : List A) → count_where p xs ≡ 0
  count_where-none p misses [] = refl
  count_where-none p misses (x ∷ xs) = ground (arith, misses x, count_where-none p misses xs)

  length-take : (n : ℕ) (xs : List A) → length (take n xs) ≤ n
  length-take zero xs = omega arith
  length-take (suc n) [] = omega arith
  length-take (suc n) (x ∷ xs) = omega (arith, length-take n xs)

abbrev has_id : ℕ → RegistrationRow → Bool
has_id id r = r.id == id

created :
    (host : Host) (scheduler : MailRow) (id : ℕ) (rs : List RegistrationRow)
    → count_where (is_receipt_of scheduler.id id) (map (new_receipt host scheduler) rs)
      ≡ count_where (has_id id) rs
created host scheduler id [] = refl
created host scheduler id (r ∷ rs) =
    ground (arith, ==_refl scheduler.id, created host scheduler id rs)

-- A registration that has a receipt is not among the missing.
missing-none :
    (scheduler : MailRow) (id : ℕ) (db : Db)
    → exists_where (is_receipt_of scheduler.id id) db.receipts ≡ true
    → (r : RegistrationRow) → (has_id id r && lacks_receipt scheduler db r) ≡ false
missing-none scheduler id db has r = elim (Bool-cases (r.id == id)) [
  | inl here ↦
      let same : r.id ≡ id = ground (arith, here) in
      let taken : exists_where (is_receipt_of scheduler.id r.id) db.receipts ≡ true = rw same has in
      ground (arith, taken)
  | inr elsewhere ↦ rw elsewhere refl
]

missing-le :
    (scheduler : MailRow) (cap id : ℕ) (db : Db)
    → count_where (has_id id) (missing_receipts scheduler cap db)
      ≤ count_where (λ r. has_id id r && lacks_receipt scheduler db r) db.registrations
unfolding missing_receipts
missing-le scheduler cap id db = omega (
  arith,
  count_where-take (has_id id) cap (
      sort_by (λ (a : RegistrationRow) b. leb a.id b.id)
        (select_where (lacks_receipt scheduler db) db.registrations)),
  count_where-sort_by (has_id id) (λ (a : RegistrationRow) b. leb a.id b.id)
      (select_where (lacks_receipt scheduler db) db.registrations),
  count_where-select_where (has_id id) (lacks_receipt scheduler db) db.registrations,
)

-- UNIQUE (scheduler_id, registration_id) stands: where a registration's id is unique and it has one
-- receipt of the scheduler at most, it still has one at most after a materialization. A pass creates
-- no more receipts than its cap.
pub materialize_receipts_unique :
    (host : Host) (scheduler : MailRow) (cap id : ℕ) (db : Db)
    → count_where (λ (r : RegistrationRow). r.id == id) db.registrations ≤ 1
    → count_where (is_receipt_of scheduler.id id) db.receipts ≤ 1
    → (count_where
          (is_receipt_of scheduler.id id)
          (materialize_receipts host scheduler cap db).1.receipts
        ≤ 1)
      × ((materialize_receipts host scheduler cap db).0 ≤ cap)
unfolding materialize_receipts missing_receipts
materialize_receipts_unique host scheduler cap id db keyed single =
    let missing = missing_receipts scheduler cap db in
    let total =
      count_where-append (is_receipt_of scheduler.id id) (map (new_receipt host scheduler) missing)
        db.receipts in
    let new = created host scheduler id missing in
    let bound = missing-le scheduler cap id db in
    (
      elim (Bool-cases (exists_where (is_receipt_of scheduler.id id) db.receipts)) [
        | inl has ↦ omega (
          arith,
          total,
          new,
          bound,
          single,
          count_where-none (λ r. has_id id r && lacks_receipt scheduler db r)
              (missing-none scheduler id db has) db.registrations,
        )
        | inr lacks ↦ omega (
          arith,
          total,
          new,
          bound,
          keyed,
          exists_where-count (is_receipt_of scheduler.id id) db.receipts lacks,
          count_where_mono (λ r. has_id id r && lacks_receipt scheduler db r) (has_id id)
              (λ r. ground arith) db.registrations,
        )
      ],
      length-take cap (
          sort_by (λ (a : RegistrationRow) b. leb a.id b.id)
            (select_where (lacks_receipt scheduler db) db.registrations)),
    )
