-- ===== src/Prelude/Lists.antt =====
-- Lists under Python's tests: membership, sets as lists, dictionaries as association lists.
use Prim.Native.Nat.{ℕ, suc, ◌+◌}
use mathlib.Core.Path.{◌≡◌, refl}
use mathlib.Core.Logic.{◌↔◌, inl, inr}
use mathlib.Core.Bool.{Bool, true, false, ◌&&◌, ◌||◌}
use mathlib.Core.List.{List, [], ◌∷◌, ◌++◌}
use native.Mathlib.Omega.{arith}
use unit_test_agent.Prelude.Tests.{Bool-cases}
use unit_test_agent.Prelude.Equality.{Eq, ◌==◌, ==_iff, ==_refl}

module _ {ℓ} {A : Type ℓ} where
  abbrev pub length : List A → ℕ
  length [] = 0
  length (x ∷ xs) = suc (length xs)

  pub length-append : (xs ys : List A) → length (xs ++ ys) ≡ length xs + length ys
  length-append [] ys = omega arith
  length-append (x ∷ xs) ys = omega (arith, length-append xs ys)

  abbrev pub All {κ} : (A → Type κ) → List A → Type κ
  All P [] = Unit
  All P (x ∷ xs) = P x × All P xs

  pub All-append {κ} : (P : A → Type κ) (xs ys : List A) → All P xs → All P ys → All P (xs ++ ys)
  All-append P (x ∷ xs) ys (h, hs) k = (h, All-append P xs ys hs k)
  All-append P [] ys hs k = k

  pub All-middle {κ} :
      (P : A → Type κ) (xs : List A) (y : A) (zs : List A) → All P (xs ++ y ∷ zs) → P y
  All-middle P [] y zs h = h.0
  All-middle P (x ∷ xs) y zs h = All-middle P xs y zs h.1

  pub All-imp {κ μ} :
      {P : A → Type κ} {Q : A → Type μ} (xs : List A) → ((x : A) → P x → Q x) → All P xs → All Q xs
  All-imp [] f h = tt
  All-imp (x ∷ xs) f h = (f x h.0, All-imp xs f h.1)

  abbrev pub any : (A → Bool) → List A → Bool
  any p [] = false
  any p (x ∷ xs) = p x || any p xs

  abbrev pub all : (A → Bool) → List A → Bool
  all p [] = true
  all p (x ∷ xs) = p x && all p xs

  pub any-append : (p : A → Bool) (xs ys : List A) → any p (xs ++ ys) ≡ (any p xs || any p ys)
  any-append p [] ys = refl
  any-append p (x ∷ xs) ys = ground (arith, any-append p xs ys)

  pub any-false : (p : A → Bool) (xs : List A) → any p xs ≡ false → All (λ x. p x ≡ false) xs
  any-false p [] h = tt
  any-false p (x ∷ xs) h = (ground arith, any-false p xs (ground arith))

  pub any-false_of : (p : A → Bool) (xs : List A) → All (λ x. p x ≡ false) xs → any p xs ≡ false
  any-false_of p [] h = refl
  any-false_of p (x ∷ xs) h = ground (arith, any-false_of p xs h.1)

module _ {ℓ} {A : Type ℓ} ⦃e : Eq A⦄ where
  -- `a in xs`
  abbrev pub elem : A → List A → Bool
  elem a [] = false
  elem a (x ∷ xs) = x == a || elem a xs

  -- Every element occurs once.
  abbrev pub Distinct : List A → Type 0
  Distinct [] = Unit
  Distinct (x ∷ xs) = (elem x xs ≡ false) × Distinct xs

  pub elem-append : (a : A) (xs ys : List A) → elem a (xs ++ ys) ≡ (elem a xs || elem a ys)
  elem-append a [] ys = refl
  elem-append a (x ∷ xs) ys = ground (arith, elem-append a xs ys)

  -- `set(xs) <= set(ys)`
  abbrev pub subset : List A → List A → Bool
  subset [] ys = true
  subset (x ∷ xs) ys = elem x ys && subset xs ys

  -- `set(xs) == set(ys)`
  abbrev pub set_beq : List A → List A → Bool
  set_beq xs ys = subset xs ys && subset ys xs

  pub elem-subset :
      (a : A) (xs ys : List A) → subset xs ys ≡ true → elem a xs ≡ true → elem a ys ≡ true
  elem-subset a [] ys h m = cc
  elem-subset a (x ∷ xs) ys h m = elim (Bool-cases (x == a)) [
    | inl same ↦ ground (arith, ==_iff x a)
    | inr other ↦ elem-subset a xs ys (ground arith) (ground arith)
  ]

  subset-cons : (x : A) (xs ys : List A) → subset xs ys ≡ true → subset xs (x ∷ ys) ≡ true
  subset-cons x [] ys h = refl
  subset-cons x (y ∷ xs) ys h = ground (arith, subset-cons x xs ys)

  pub subset_of :
      (xs ys : List A) → ((a : A) → elem a xs ≡ true → elem a ys ≡ true) → subset xs ys ≡ true
  subset_of [] ys h = refl
  subset_of (x ∷ xs) ys h =
      ground (arith, h x, ==_refl x, subset_of xs ys (λ a m. h a (ground arith)))

  -- Equal sets have the same members.
  pub set_beq_iff : (xs ys : List A) → (set_beq xs ys ≡ true) ↔ ((a : A) → elem a xs ≡ elem a ys)
  set_beq_iff xs ys = (
    λ h a. elim (Bool-cases (elem a xs)) [
      | inl m ↦ ground (arith, elem-subset a xs ys)
      | inr m ↦ ground (arith, elem-subset a ys xs)
    ],
    λ h. ground (
      arith,
      subset_of xs ys (λ a m. ground (arith, h a)),
      subset_of ys xs (λ a m. ground (arith, h a)),
    ),
  )
