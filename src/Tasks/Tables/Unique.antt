-- ===== src/Tasks/Tables/Unique.antt =====
-- Primary keys: the ids of a table are distinct and below the next one.
use unit_test_agent.Prelude.{
  arith, ℕ, suc, ◌<◌, false, some, List, [], ◌∷◌, ◌++◌, map, ◌==◌, nat_eq, ==_iff, ==_refl, ◌≡◌,
  refl, ap, ◌∙◌, All, All-imp, All-append, elem, elem-append, Distinct,
}
use unit_test_agent.Tasks.Tables.{find_row}

-- `AUTOINCREMENT`
abbrev pub Fresh : List ℕ → ℕ → Type 0
Fresh is n = All (λ i. i < n) is × Distinct is

not_elem : (n : ℕ) (is : List ℕ) → All (λ i. i < n) is → elem n is ≡ false
not_elem n [] all = refl
not_elem n (i ∷ is) all = ground (arith, ==_iff i n, not_elem n is all.1)

Distinct-snoc : (n : ℕ) (is : List ℕ) → All (λ i. i < n) is → Distinct is → Distinct (is ++ n ∷ [])
Distinct-snoc n [] all d = (refl, tt)
Distinct-snoc n (i ∷ is) all d =
    (elem-append i is (n ∷ []) ∙ ground (arith, ==_iff n i, d.0), Distinct-snoc n is all.1 d.1)

-- A new row takes the next id.
pub Fresh-snoc : (n : ℕ) (is : List ℕ) → Fresh is n → Fresh (is ++ n ∷ []) (suc n)
Fresh-snoc n is (all, d) = (
  All-append (λ i. i < suc n) is (n ∷ []) (All-imp is (λ i h. omega arith) all) (omega arith, tt),
  Distinct-snoc n is all d,
)

module _ {A : Type 0} (id : A → ℕ) where
  pub map-append : (xs ys : List A) → map id (xs ++ ys) ≡ map id xs ++ map id ys
  map-append [] ys = refl
  map-append (x ∷ xs) ys = ap (λ is. id x ∷ is) (map-append xs ys)

  found_behind :
      (x : A) (xs zs : List A)
      → elem (id x) (map id zs) ≡ false
      → All (λ t. find_row id (id t) xs ≡ some t) zs
      → All (λ t. find_row id (id t) (x ∷ xs) ≡ some t) zs
  found_behind x xs [] out all = tt
  found_behind x xs (z ∷ zs) out all =
      let other : (id x == id z) ≡ false =
        ground (arith, ==_iff (id x) (id z), ==_iff (id z) (id x)) in
      (rw other all.0, found_behind x xs zs (ground arith) all.1)

  -- Every row is the one that its id finds.
  pub find_row-own :
      (xs : List A) → Distinct (map id xs) → All (λ t. find_row id (id t) xs ≡ some t) xs
  find_row-own [] d = tt
  find_row-own (x ∷ xs) d =
      (rw (==_refl (id x)) refl, found_behind x xs xs d.0 (find_row-own xs d.1))
