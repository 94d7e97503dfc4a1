-- ===== src/Base/Lists.antt =====
-- Tables as lists: rows counted, found, updated and deleted by a Boolean test.
use Prim.Native.Nat.{ℕ, zero, suc, ◌+◌}
use mathlib.Core.Path.{◌≡◌, refl, ap}
use mathlib.Core.Logic.{inl, inr}
use mathlib.Core.Bool.{Bool, true, false, ◌||◌}
use mathlib.Core.List.{List, [], ◌∷◌, ◌++◌, map}
use mathlib.Core.Option.{Option, none, some}
use native.Mathlib.Omega.{arith}
use backbone_events.Base.Tests.{if◌then◌else◌, Bool-cases}

module _ {ℓ} {A : Type ℓ} where
  abbrev pub length : List A → ℕ
  length [] = 0
  length (x ∷ xs) = suc (length xs)

  pub length-append : (xs ys : List A) → length (xs ++ ys) ≡ length xs + length ys
  length-append [] ys = omega arith
  length-append (x ∷ xs) ys = omega (arith, length-append xs ys)

  abbrev pub take : ℕ → List A → List A
  take zero xs = []
  take (suc n) [] = []
  take (suc n) (x ∷ xs) = x ∷ take n xs

  -- SELECT count(*) ... WHERE p
  abbrev pub count_where : (A → Bool) → List A → ℕ
  count_where p [] = 0
  count_where p (x ∷ xs) = (if p x then 1 else 0) + count_where p xs

  -- SELECT ... WHERE p, the first row.
  abbrev pub find_where : (A → Bool) → List A → Option A
  find_where p [] = none
  find_where p (x ∷ xs) = if p x then some x else find_where p xs

  -- SELECT ... WHERE p
  abbrev pub select_where : (A → Bool) → List A → List A
  select_where p [] = []
  select_where p (x ∷ xs) = if p x then x ∷ select_where p xs else select_where p xs

  -- EXISTS (SELECT 1 ... WHERE p)
  abbrev pub exists_where : (A → Bool) → List A → Bool
  exists_where p [] = false
  exists_where p (x ∷ xs) = p x || exists_where p xs

  -- UPDATE ... SET f WHERE p
  abbrev pub update_where : (A → Bool) → (A → A) → List A → List A
  update_where p f [] = []
  update_where p f (x ∷ xs) = (if p x then f x else x) ∷ update_where p f xs

  -- DELETE ... WHERE p
  abbrev pub delete_where : (A → Bool) → List A → List A
  delete_where p [] = []
  delete_where p (x ∷ xs) = if p x then delete_where p xs else x ∷ delete_where p xs

  abbrev pub All {κ} : (A → Type κ) → List A → Type κ
  All P [] = Unit
  All P (x ∷ xs) = P x × All P xs

  -- The row of a table that a lookup found satisfies the lookup's test.
  pub find_where-holds :
      (p : A → Bool) (xs : List A) {a : A} → find_where p xs ≡ some a → p a ≡ true
  find_where-holds p [] h = absurd (ground arith)
  find_where-holds p (x ∷ xs) {a} h = ground (arith, find_where-holds p xs {a = a})

  pub find_where-All {κ} :
      (P : A → Type κ) (p : A → Bool) (xs : List A) {a : A}
      → All P xs
      → find_where p xs ≡ some a
      → P a
  find_where-All P p [] all h = absurd (ground arith)
  find_where-All P p (x ∷ xs) {a} all h = elim (Bool-cases (p x)) [
    | inl hit ↦ ground (arith, all.0)
    | inr miss ↦ find_where-All P p xs all.1 (ground arith)
  ]

  pub update_where-All {κ} :
      (P : A → Type κ) (p : A → Bool) (f : A → A)
      → ((x : A) → P x → p x ≡ true → P (f x))
      → (xs : List A) → All P xs
      → All P (update_where p f xs)
  update_where-All P p f keep [] all = tt
  update_where-All P p f keep (x ∷ xs) all = elim (Bool-cases (p x)) [
    | inl hit ↦ (rw hit (keep x all.0 hit), update_where-All P p f keep xs all.1)
    | inr miss ↦ (rw miss all.0, update_where-All P p f keep xs all.1)
  ]

  pub delete_where-All {κ} :
      (P : A → Type κ) (p : A → Bool) (xs : List A) → All P xs → All P (delete_where p xs)
  delete_where-All P p [] all = tt
  delete_where-All P p (x ∷ xs) all = elim (Bool-cases (p x)) [
    | inl hit ↦ rw hit (delete_where-All P p xs all.1)
    | inr miss ↦ rw miss (all.0, delete_where-All P p xs all.1)
  ]

  pub length-update_where :
      (p : A → Bool) (f : A → A) (xs : List A) → length (update_where p f xs) ≡ length xs
  length-update_where p f [] = refl
  length-update_where p f (x ∷ xs) = ap suc (length-update_where p f xs)

  pub exists_where-count :
      (p : A → Bool) (xs : List A) → exists_where p xs ≡ false → count_where p xs ≡ 0
  exists_where-count p [] h = refl
  exists_where-count p (x ∷ xs) h = ground (arith, exists_where-count p xs)

  pub exists_where-or_count :
      (p q : A → Bool) (xs : List A)
      → exists_where (λ x. p x || q x) xs ≡ false
      → count_where p xs ≡ 0
  exists_where-or_count p q [] h = refl
  exists_where-or_count p q (x ∷ xs) h = ground (arith, exists_where-or_count p q xs)

  -- Two tables with the same rows in the same order, each related to its counterpart.
  pub data Rows {ι κ} {B : Type ι} (R : A → B → Type κ) : List A → List B → Type (ℓ ⊔ ι ⊔ κ) where
    no_rows : Rows R [] []
    row :
        {x : A} {y : B} {xs : List A} {ys : List B}
        → R x y
        → Rows R xs ys
        → Rows R (x ∷ xs) (y ∷ ys)

  pub Rows-same {κ} : (R : A → A → Type κ) → ((x : A) → R x x) → (xs : List A) → Rows R xs xs
  Rows-same R same [] = no_rows
  Rows-same R same (x ∷ xs) = row (same x) (Rows-same R same xs)

  pub Rows-trans {κ} :
      (R : A → A → Type κ)
      → ((x y z : A) → R x y → R y z → R x z)
      → {xs ys zs : List A} → Rows R xs ys
      → Rows R ys zs
      → Rows R xs zs
  Rows-trans R trans no_rows no_rows = no_rows
  Rows-trans R trans (row {x = x} {y = y} h hs) (row {y = z} k ks) =
      row (trans x y z h k) (Rows-trans R trans hs ks)

  pub Rows-map {κ} :
      (R : A → A → Type κ) (f : A → A)
      → ((x : A) → R x (f x))
      → (xs : List A) → Rows R xs (map f xs)
  Rows-map R f all [] = no_rows
  Rows-map R f all (x ∷ xs) = row (all x) (Rows-map R f all xs)

  pub Rows-update_where {κ} :
      (R : A → A → Type κ) (p : A → Bool) (f : A → A)
      → ((x : A) → p x ≡ false → R x x)
      → ((x : A) → p x ≡ true → R x (f x))
      → (xs : List A) → Rows R xs (update_where p f xs)
  Rows-update_where R p f same hit [] = no_rows
  Rows-update_where R p f same hit (x ∷ xs) = elim (Bool-cases (p x)) [
    | inl yes_hit ↦ rw yes_hit (row (hit x yes_hit) (Rows-update_where R p f same hit xs))
    | inr miss ↦ rw miss (row (same x miss) (Rows-update_where R p f same hit xs))
  ]
