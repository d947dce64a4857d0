-- ===== src/Batching/Order.antt =====
-- The order of the batches and of the lines in them:
-- tools/python-enforcement/uta_enforce_core/mutation_batching.py.
use unit_test_agent.Prelude.{
  ℕ, String, suc, ◌≡◌, refl, ◌∙◌, Bool, true, List, [], ◌∷◌, leb, Bool-cases, inl, inr, length, All,
  sort_by, length-sort_by, insert_by, length-insert_by, Ordered, sort_by-Ordered, arith,
}
use unit_test_agent.Batching.{
  MutationUnit, BatchPlan, PartitionResult, Bin, max, unit_le, pack, min_line, bin_le, with_lines,
  number_from, plan_of, partition_units_into_batches,
}

pub sort_by-leb-Ordered : (xs : List ℕ) → Ordered leb (sort_by leb xs)
sort_by-leb-Ordered xs = sort_by-Ordered leb (λ x y h. ground arith) (λ x y z h k. ground arith) xs

min_line-cons :
    (l : ℕ) (xs ys : List ℕ)
    → length xs ≡ length ys
    → min_line xs ≡ min_line ys
    → min_line (l ∷ xs) ≡ min_line (l ∷ ys)
min_line-cons l [] [] n e = refl
min_line-cons l (x ∷ xs) (y ∷ ys) n e = rw e
min_line-cons l [] (y ∷ ys) n e = absurd (omega (arith, n))
min_line-cons l (x ∷ xs) [] n e = absurd (omega (arith, n))

min_line_swap : (l m : ℕ) (xs : List ℕ) → min_line (l ∷ m ∷ xs) ≡ min_line (m ∷ l ∷ xs)
min_line_swap l m [] = ground arith
min_line_swap l m (x ∷ xs) = ground arith

min_line-insert_by : (l : ℕ) (xs : List ℕ) → min_line (insert_by leb l xs) ≡ min_line (l ∷ xs)
min_line-insert_by l [] = refl
min_line-insert_by l (x ∷ xs) = elim (Bool-cases (leb l x)) [
  | inl h ↦ rw h
  | inr h ↦ rw h (
      min_line-cons x (insert_by leb l xs) (l ∷ xs) (length-insert_by leb l xs)
        (min_line-insert_by l xs)
      ∙ min_line_swap x l xs)
]

min_line-sort_by : (xs : List ℕ) → min_line (sort_by leb xs) ≡ min_line xs
min_line-sort_by [] = refl
min_line-sort_by (x ∷ xs) =
    min_line-insert_by x (sort_by leb xs)
    ∙ min_line-cons x (sort_by leb xs) xs (length-sort_by leb xs) (min_line-sort_by xs)

-- The batches are numbered from i on.
abbrev pub Numbered : ℕ → List BatchPlan → Type 0
Numbered i [] = Unit
Numbered i (b ∷ bs) = (b.index ≡ i) × Numbered (suc i) bs

abbrev pub plan_le : BatchPlan → BatchPlan → Bool
plan_le a b = leb (min_line a.lines) (min_line b.lines)

-- The batches are numbered from 0 on, by their smallest line, and all lists of lines ascend.
pub record InOrder (r : PartitionResult) : Type 0 where
  pub numbered : Numbered 0 r.batches
  pub by_line : Ordered plan_le r.batches
  pub ascending : All (λ b. Ordered leb b.lines) r.batches
  pub cap_ascending : Ordered leb r.omitted_by_generated_bytes_cap
  pub max_ascending : Ordered leb r.omitted_by_max_batches

Numbered-number_from : (i : ℕ) (bs : List Bin) → Numbered i (number_from i bs)
Numbered-number_from i [] = tt
Numbered-number_from i (b ∷ bs) = (refl, Numbered-number_from (suc i) bs)

ascending-number_from : (i : ℕ) (bs : List Bin) → All (λ b. Ordered leb b.lines) (number_from i bs)
ascending-number_from i [] = tt
ascending-number_from i (b ∷ bs) = (sort_by-leb-Ordered b.lines, ascending-number_from (suc i) bs)

before-number_from :
    (i j : ℕ) (a : Bin) (bs : List Bin)
    → All (λ b. bin_le a b ≡ true) bs
    → All (λ b. plan_le (plan_of i a) b ≡ true) (number_from j bs)
before-number_from i j a [] all = tt
before-number_from i j a (b ∷ bs) all = (
  rw (min_line-sort_by a.lines, min_line-sort_by b.lines) all.0,
  before-number_from i (suc j) a bs all.1,
)

Ordered-number_from :
    (i : ℕ) (bs : List Bin) → Ordered bin_le bs → Ordered plan_le (number_from i bs)
Ordered-number_from i [] o = tt
Ordered-number_from i (b ∷ bs) o =
    (before-number_from i (suc i) b bs o.0, Ordered-number_from (suc i) bs o.1)

-- The partition numbers its batches from 0 on in the order of their smallest lines, and the lines of
-- each batch and the omitted lines ascend.
pub partition_units_into_batches-InOrder :
    (hexdigest : String → String) (budget max_batches : ℕ) (units : List MutationUnit)
    → InOrder (partition_units_into_batches hexdigest budget max_batches units)
unfolding partition_units_into_batches
partition_units_into_batches-InOrder hexdigest budget max_batches units =
    let packed =
      pack budget (max 1 max_batches) (sort_by unit_le units)
        (record { bins = []; cap_omitted = []; max_omitted = [] }) in
    let sorted = sort_by bin_le (with_lines packed.bins) in
    record {
      numbered = Numbered-number_from 0 sorted;
      by_line = Ordered-number_from 0 sorted (
          sort_by-Ordered bin_le (λ x y h. ground arith) (λ x y z h k. ground arith)
            (with_lines packed.bins));
      ascending = ascending-number_from 0 sorted;
      cap_ascending = sort_by-leb-Ordered packed.cap_omitted;
      max_ascending = sort_by-leb-Ordered packed.max_omitted;
    }
