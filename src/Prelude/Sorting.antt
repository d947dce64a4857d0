-- ===== src/Prelude/Sorting.antt =====
-- Sums over lists, and Python's stable `sorted` as an insertion sort.
use Prim.Native.Nat.{ℕ, suc, ◌+◌}
use mathlib.Core.Path.{◌≡◌, refl}
use mathlib.Core.Logic.{inl, inr}
use mathlib.Core.Bool.{Bool, true, false}
use mathlib.Core.List.{List, [], ◌∷◌, ◌++◌}
use native.Mathlib.Omega.{arith}
use unit_test_agent.Prelude.Tests.{if◌then◌else◌, Bool-cases}
use unit_test_agent.Prelude.Lists.{All, All-imp, length}

module _ {ℓ} {A : Type ℓ} where
  -- `sum(f(x) for x in xs)`
  abbrev pub sum_by : (A → ℕ) → List A → ℕ
  sum_by f [] = 0
  sum_by f (x ∷ xs) = f x + sum_by f xs

  pub sum_by-append : (f : A → ℕ) (xs ys : List A) → sum_by f (xs ++ ys) ≡ sum_by f xs + sum_by f ys
  sum_by-append f [] ys = omega arith
  sum_by-append f (x ∷ xs) ys = omega (arith, sum_by-append f xs ys)

  -- In front of the first element that does not come before it.
  abbrev pub insert_by : (A → A → Bool) → A → List A → List A
  insert_by le x [] = x ∷ []
  insert_by le x (y ∷ ys) = let rest = insert_by le x ys in if le x y then x ∷ y ∷ ys else y ∷ rest

  -- `sorted(xs, key=…)`, where `le x y` tells that the key of y is not below the key of x
  abbrev pub sort_by : (A → A → Bool) → List A → List A
  sort_by le [] = []
  sort_by le (x ∷ xs) = insert_by le x (sort_by le xs)

  pub sum_by-insert_by :
      (f : A → ℕ) (le : A → A → Bool) (x : A) (ys : List A)
      → sum_by f (insert_by le x ys) ≡ f x + sum_by f ys
  sum_by-insert_by f le x [] = refl
  sum_by-insert_by f le x (y ∷ ys) = elim (Bool-cases (le x y)) [
    | inl h ↦ rw h
    | inr h ↦ rw h (omega (arith, sum_by-insert_by f le x ys))
  ]

  pub sum_by-sort_by :
      (f : A → ℕ) (le : A → A → Bool) (xs : List A) → sum_by f (sort_by le xs) ≡ sum_by f xs
  sum_by-sort_by f le [] = refl
  sum_by-sort_by f le (x ∷ xs) =
      omega (arith, sum_by-insert_by f le x (sort_by le xs), sum_by-sort_by f le xs)

  length-sum_by : (xs : List A) → sum_by (λ x. 1) xs ≡ length xs
  length-sum_by [] = refl
  length-sum_by (x ∷ xs) = omega (arith, length-sum_by xs)

  pub length-sort_by : (le : A → A → Bool) (xs : List A) → length (sort_by le xs) ≡ length xs
  length-sort_by le xs =
      omega (arith, sum_by-sort_by (λ x. 1) le xs, length-sum_by (sort_by le xs), length-sum_by xs)

  pub length-insert_by :
      (le : A → A → Bool) (x : A) (ys : List A) → length (insert_by le x ys) ≡ suc (length ys)
  length-insert_by le x ys = omega (
    arith,
    sum_by-insert_by (λ x. 1) le x ys,
    length-sum_by (insert_by le x ys),
    length-sum_by ys,
  )

  pub All-insert_by {κ} :
      (P : A → Type κ) (le : A → A → Bool) (x : A) (ys : List A)
      → P x
      → All P ys
      → All P (insert_by le x ys)
  All-insert_by P le x [] p all = (p, tt)
  All-insert_by P le x (y ∷ ys) p all = elim (Bool-cases (le x y)) [
    | inl h ↦ rw h (p, all)
    | inr h ↦ rw h (all.0, All-insert_by P le x ys p all.1)
  ]

  pub All-sort_by {κ} :
      (P : A → Type κ) (le : A → A → Bool) (xs : List A) → All P xs → All P (sort_by le xs)
  All-sort_by P le [] all = tt
  All-sort_by P le (x ∷ xs) all =
      All-insert_by P le x (sort_by le xs) all.0 (All-sort_by P le xs all.1)

  -- Each element is before or level with all that follow it.
  abbrev pub Ordered : (A → A → Bool) → List A → Type 0
  Ordered le [] = Unit
  Ordered le (x ∷ xs) = All (λ y. le x y ≡ true) xs × Ordered le xs

  module _ (le : A → A → Bool) (total : (x y : A) → le x y ≡ false → le y x ≡ true)
      (trans : (x y z : A) → le x y ≡ true → le y z ≡ true → le x z ≡ true) where
    insert_by-Ordered : (x : A) (ys : List A) → Ordered le ys → Ordered le (insert_by le x ys)
    insert_by-Ordered x [] o = (tt, tt)
    insert_by-Ordered x (y ∷ ys) o = elim (Bool-cases (le x y)) [
      | inl h ↦ rw h ((h, All-imp ys (λ z k. trans x y z h k) o.0), o)
      | inr h ↦
          rw h (
            All-insert_by (λ z. le y z ≡ true) le x ys (total x y h) o.0,
            insert_by-Ordered x ys o.1,
          )
    ]

    pub sort_by-Ordered : (xs : List A) → Ordered le (sort_by le xs)
    sort_by-Ordered [] = tt
    sort_by-Ordered (x ∷ xs) = insert_by-Ordered x (sort_by le xs) (sort_by-Ordered xs)
