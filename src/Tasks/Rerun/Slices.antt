-- ===== src/Tasks/Rerun/Slices.antt =====
-- The units of a clean rerun: `_partition` of uta/tasks/workflow_rerun.py.
use unit_test_agent.Prelude.{
  arith, ℕ, zero, suc, ◌+◌, ◌≤◌, String, List, [], ◌∷◌, ◌++◌, ◌≡◌, refl, ap, ◌∙◌, length, All,
}
use unit_test_agent.Tasks.{ClassTask}
use unit_test_agent.Tasks.Rerun.{front, remainder, slices, Digest, name_units, partition}

front-remainder : {A : Type 0} (n : ℕ) (xs : List A) → front n xs ++ remainder n xs ≡ xs
front-remainder zero xs = refl
front-remainder (suc n) [] = refl
front-remainder (suc n) (x ∷ xs) = ap (λ ys. x ∷ ys) (front-remainder n xs)

length-front : {A : Type 0} (n : ℕ) (xs : List A) → length (front n xs) ≤ n
length-front zero xs = omega arith
length-front (suc n) [] = omega arith
length-front (suc n) (x ∷ xs) = omega (arith, length-front n xs)

length-remainder : {A : Type 0} (n : ℕ) (xs : List A) → length (remainder n xs) ≤ length xs
length-remainder zero xs = omega arith
length-remainder (suc n) [] = omega arith
length-remainder (suc n) (x ∷ xs) = omega (arith, length-remainder n xs)

-- The classes of the units, one unit after the other.
abbrev pub members : List (String × List ClassTask) → List ClassTask
members [] = []
members (u ∷ us) = u.1 ++ members us

-- No unit is empty or larger than the batch size.
abbrev pub Sized : ℕ → List (String × List ClassTask) → Type 0
Sized n units = All (λ u. (1 ≤ length u.1) × (length u.1 ≤ n)) units

name_units_lem :
    (digest : Digest) (k fuel index : ℕ) (rows : List ClassTask)
    → length rows ≤ fuel
    → (members (name_units digest index (slices fuel (suc k) rows)) ≡ rows)
      × Sized (suc k) (name_units digest index (slices fuel (suc k) rows))
unfolding name_units
name_units_lem digest k zero index [] h = (refl, tt)
name_units_lem digest k zero index (c ∷ cs) h = absurd (omega (arith, h))
name_units_lem digest k (suc fuel) index [] h = (refl, tt)
name_units_lem digest k (suc fuel) index (c ∷ cs) h =
    let rest =
      name_units_lem digest k fuel (index + 1) (remainder k cs)
        (omega (arith, h, length-remainder k cs)) in
    (
      ap (λ ys. c ∷ (front k cs ++ ys)) rest.0 ∙ ap (λ ys. c ∷ ys) (front-remainder k cs),
      ((omega arith, omega (arith, length-front k cs)), rest.1),
    )

-- The units of a clean rerun have all rows between them, in their order, and none is empty or larger
-- than the batch size, which is at least one.
pub partition-Sized :
    (digest : Digest) (size : ℕ) (rows : List ClassTask)
    → 1 ≤ size
    → (members (partition digest size rows) ≡ rows) × Sized size (partition digest size rows)
unfolding partition
partition-Sized digest zero rows h = absurd (omega (arith, h))
partition-Sized digest (suc k) rows h = name_units_lem digest k (length rows) 1 rows (omega arith)
