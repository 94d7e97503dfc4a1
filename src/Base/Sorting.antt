-- ===== src/Base/Sorting.antt =====
-- ORDER BY and LIMIT: insertion into an ordered list, and what all the rows keep.
use backbone_events.Base.Tests.{if◌then◌else◌, Bool-cases}
use backbone_events.Base.Lists.{All, take}
use Prim.Native.Nat.{ℕ, zero, suc}
use mathlib.Core.Bool.{Bool}
use mathlib.Core.List.{List, [], ◌∷◌}
use mathlib.Core.Logic.{inl, inr}

module _ {ℓ} {A : Type ℓ} where
  abbrev pub insert_by : (A → A → Bool) → A → List A → List A
  insert_by before x [] = x ∷ []
  insert_by before x (y ∷ ys) =
      let rest = insert_by before x ys in if before x y then x ∷ y ∷ ys else y ∷ rest

  -- ORDER BY
  abbrev pub sort_by : (A → A → Bool) → List A → List A
  sort_by before [] = []
  sort_by before (x ∷ xs) = insert_by before x (sort_by before xs)

  pub All-insert_by {κ} :
      (P : A → Type κ) (before : A → A → Bool) (x : A) (xs : List A)
      → P x
      → All P xs
      → All P (insert_by before x xs)
  All-insert_by P before x [] p all = (p, tt)
  All-insert_by P before x (y ∷ ys) p all = elim (Bool-cases (before x y)) [
    | inl first ↦ rw first (p, (all.0, all.1))
    | inr later ↦ rw later (all.0, All-insert_by P before x ys p all.1)
  ]

  pub All-sort_by {κ} :
      (P : A → Type κ) (before : A → A → Bool) (xs : List A) → All P xs → All P (sort_by before xs)
  All-sort_by P before [] all = tt
  All-sort_by P before (x ∷ xs) all =
      All-insert_by P before x (sort_by before xs) all.0 (All-sort_by P before xs all.1)

  pub All-take {κ} : (P : A → Type κ) (n : ℕ) (xs : List A) → All P xs → All P (take n xs)
  All-take P zero xs all = tt
  All-take P (suc n) [] all = tt
  All-take P (suc n) (x ∷ xs) all = (all.0, All-take P n xs all.1)
