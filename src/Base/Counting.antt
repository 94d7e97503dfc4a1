-- ===== src/Base/Counting.antt =====
-- Counts over a table in which a key is unique: what an update, an insert or a delete of the keyed
-- row does to the count of any other test.
use backbone_events.Base.Tests.{if◌then◌else◌, Bool-cases}
use backbone_events.Base.Lists.{
  count_where, find_where, update_where, delete_where, select_where, length,
}
use Prim.Native.Nat.{ℕ, ◌+◌, ◌≤◌, ◌<◌}
use mathlib.Core.Path.{◌≡◌, refl}
use mathlib.Core.Bool.{Bool, true, false, not, ◌&&◌}
use mathlib.Core.List.{List, [], ◌∷◌}
use mathlib.Core.Option.{some}
use mathlib.Core.Logic.{inl, inr}
use native.Mathlib.Omega.{arith}

abbrev pub one_if : Bool → ℕ
one_if b = if b then 1 else 0

module _ {ℓ} {A : Type ℓ} where
  pub update_where-absent :
      (q : A → Bool) (f : A → A) (xs : List A) → count_where q xs ≡ 0 → update_where q f xs ≡ xs
  update_where-absent q f [] h = refl
  update_where-absent q f (x ∷ xs) h = ground (arith, update_where-absent q f xs)

  pub count_where-without_absent :
      (p q : A → Bool) (xs : List A)
      → count_where q xs ≡ 0
      → count_where (λ x. p x && not (q x)) xs ≡ count_where p xs
  count_where-without_absent p q [] h = refl
  count_where-without_absent p q (x ∷ xs) h = ground (arith, count_where-without_absent p q xs)

  -- One keyed row is changed: the count moves by that row alone.
  pub count_where-update_one :
      (p q : A → Bool) (f : A → A) (xs : List A) {a : A}
      → find_where q xs ≡ some a
      → count_where q xs ≤ 1
      → count_where p (update_where q f xs) + one_if (p a) ≡ count_where p xs + one_if (p (f a))
  count_where-update_one p q f [] h u = absurd (ground arith)
  count_where-update_one p q f (x ∷ xs) {a} h u = elim (Bool-cases (q x)) [
    | inl hit ↦ ground (arith, update_where-absent q f xs)
    | inr miss ↦ ground (arith, count_where-update_one p q f xs {a = a})
  ]

  -- The count without the keyed row.
  pub count_where-without_one :
      (p q : A → Bool) (xs : List A) {a : A}
      → find_where q xs ≡ some a
      → count_where q xs ≤ 1
      → count_where (λ x. p x && not (q x)) xs + one_if (p a) ≡ count_where p xs
  count_where-without_one p q [] h u = absurd (ground arith)
  count_where-without_one p q (x ∷ xs) {a} h u = elim (Bool-cases (q x)) [
    | inl hit ↦ ground (arith, count_where-without_absent p q xs)
    | inr miss ↦ ground (arith, count_where-without_one p q xs {a = a})
  ]

  -- An update that keeps a test keeps its count.
  pub count_where-update_same :
      (p q : A → Bool) (f : A → A)
      → ((x : A) → p (f x) ≡ p x)
      → (xs : List A) → count_where p (update_where q f xs) ≡ count_where p xs
  count_where-update_same p q f same [] = refl
  count_where-update_same p q f same (x ∷ xs) =
      ground (arith, same x, count_where-update_same p q f same xs)

  -- Rows that an update may only bring under the test.
  pub count_where_mono :
      (p q : A → Bool)
      → ((x : A) → p x ≡ true → q x ≡ true)
      → (xs : List A) → count_where p xs ≤ count_where q xs
  count_where_mono p q sub [] = omega arith
  count_where_mono p q sub (x ∷ xs) = ground (arith, sub x, count_where_mono p q sub xs)

  -- Rows that meet two tests, counted by the first and moved under a third by the update.
  pub count_where-update_gain :
      (p q : A → Bool) (f : A → A)
      → ((x : A) → q x ≡ true → p (f x) ≡ true)
      → ((x : A) → q x ≡ true → p x ≡ false)
      → (xs : List A) → count_where p (update_where q f xs) ≡ count_where p xs + count_where q xs
  count_where-update_gain p q f brings fresh [] = refl
  count_where-update_gain p q f brings fresh (x ∷ xs) =
      ground (arith, brings x, fresh x, count_where-update_gain p q f brings fresh xs)

  pub length-select_where :
      (p : A → Bool) (xs : List A) → length (select_where p xs) ≡ count_where p xs
  length-select_where p [] = refl
  length-select_where p (x ∷ xs) = ground (arith, length-select_where p xs)

  pub count_where-delete_none :
      (p q : A → Bool)
      → ((x : A) → q x ≡ true → p x ≡ false)
      → (xs : List A) → count_where p (delete_where q xs) ≡ count_where p xs
  count_where-delete_none p q apart [] = refl
  count_where-delete_none p q apart (x ∷ xs) =
      ground (arith, apart x, count_where-delete_none p q apart xs)

  pub count_where-delete_all :
      (p q : A → Bool)
      → ((x : A) → p x ≡ true → q x ≡ true)
      → (xs : List A) → count_where p (delete_where q xs) ≡ 0
  count_where-delete_all p q sub [] = refl
  count_where-delete_all p q sub (x ∷ xs) = ground (arith, sub x, count_where-delete_all p q sub xs)

  pub count_where-delete_le :
      (p q : A → Bool) (xs : List A) → count_where p (delete_where q xs) ≤ count_where p xs
  count_where-delete_le p q [] = omega arith
  count_where-delete_le p q (x ∷ xs) = ground (arith, count_where-delete_le p q xs)

  pub count_where-pos :
      (p : A → Bool) (xs : List A) {a : A} → find_where p xs ≡ some a → 0 < count_where p xs
  count_where-pos p [] h = absurd (ground arith)
  count_where-pos p (x ∷ xs) {a} h = ground (arith, count_where-pos p xs {a = a})

  -- The rows outside an update are counted as before.
  pub count_where-outside_update :
      (p q : A → Bool) (f : A → A)
      → ((x : A) → q (f x) ≡ q x)
      → (xs : List A)
      → count_where (λ x. p x && not (q x)) (update_where q f xs)
        ≡ count_where (λ x. p x && not (q x)) xs
  count_where-outside_update p q f same [] = refl
  count_where-outside_update p q f same (x ∷ xs) =
      ground (arith, same x, count_where-outside_update p q f same xs)

  -- An update that writes the keyed row as it was changes nothing.
  pub update_where-settled :
      (q : A → Bool) (f : A → A) (xs : List A) {a : A}
      → find_where q xs ≡ some a
      → count_where q xs ≤ 1
      → f a ≡ a
      → update_where q f xs ≡ xs
  update_where-settled q f [] h u e = refl
  update_where-settled q f (x ∷ xs) {a} h u e = elim (Bool-cases (q x)) [
    | inl hit ↦ ground (arith, update_where-absent q f xs)
    | inr miss ↦ ground (arith, update_where-settled q f xs {a = a})
  ]

  -- The keyed row is found again after an update that keeps the key.
  pub find_where-update_one :
      (q : A → Bool) (f : A → A)
      → ((x : A) → q (f x) ≡ q x)
      → (xs : List A) {a : A} → find_where q xs ≡ some a
      → find_where q (update_where q f xs) ≡ some (f a)
  find_where-update_one q f same [] h = absurd (ground arith)
  find_where-update_one q f same (x ∷ xs) {a} h =
      ground (arith, same x, find_where-update_one q f same xs {a = a})

  -- A row that an update does not touch is found as before.
  pub find_where-update_other :
      (p q : A → Bool) (f : A → A)
      → ((x : A) → p x ≡ true → q x ≡ false)
      → ((x : A) → q x ≡ true → p (f x) ≡ p x)
      → (xs : List A) → find_where p (update_where q f xs) ≡ find_where p xs
  find_where-update_other p q f apart same [] = refl
  find_where-update_other p q f apart same (x ∷ xs) =
      ground (arith, apart x, same x, find_where-update_other p q f apart same xs)

  -- The first row under a test, after an update that keeps the test.
  pub find_where-update_keeps :
      (p q : A → Bool) (f : A → A)
      → ((x : A) → p (f x) ≡ p x)
      → (xs : List A) {a : A} → find_where p xs ≡ some a
      → find_where p (update_where q f xs) ≡ some (if q a then f a else a)
  find_where-update_keeps p q f same [] h = absurd (ground arith)
  find_where-update_keeps p q f same (x ∷ xs) {a} h =
      ground (arith, same x, find_where-update_keeps p q f same xs {a = a})
