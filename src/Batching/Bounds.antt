-- ===== src/Batching/Bounds.antt =====
-- How many batches the partition of tools/python-enforcement/uta_enforce_core/mutation_batching.py
-- makes, and how large they are.
use native.Mathlib.Nat.{le-div_iff_mul-le}
use unit_test_agent.Prelude.{
  ℕ, String, suc, zero, ◌+◌, ◌/◌, ◌≤◌, ◌<◌, ◌⊎◌, ◌≡◌, refl, ap, Bool, true, false, Option, none,
  some, List, [], ◌∷◌, ◌++◌, ltb, leb, leb→le, if◌then◌else◌, nat_eq, Bool-cases, Option-cases, inl,
  inr, length, length-append, All, All-append, sort_by, All-sort_by, length-sort_by, ◌∙◌, arith,
}
use unit_test_agent.Batching.Costs.{PlanMade, partition_units_into_batches-PlanMade}
use unit_test_agent.Batching.{
  MutationUnit, BatchPlan, Bin, Packing, max, take, drop, estimated_generated_bytes, unit_le,
  lines_kept, add_to, first_fit, place, pack_lines, pack_unit, pack, bin_le, with_lines,
  number_from, plan_of, partition_units_into_batches,
}

length-take_le : (n : ℕ) (xs : List ℕ) → (length (take n xs) ≤ n) × (length (take n xs) ≤ length xs)
length-take_le zero xs = (omega arith, omega arith)
length-take_le (suc n) [] = (omega arith, omega arith)
length-take_le (suc n) (x ∷ xs) =
    let (a, b) = length-take_le n xs in (omega (arith, a), omega (arith, b))

length-take_pos : (n x : ℕ) (xs : List ℕ) → 0 < n → 0 < length (take n (x ∷ xs))
length-take_pos zero x xs h = absurd (omega arith)
length-take_pos (suc n) x xs h = omega arith

lines_kept_pos : (budget unit_bytes n : ℕ) → 0 < n → 0 < lines_kept budget unit_bytes n
unfolding lines_kept
lines_kept_pos budget unit_bytes n h = ground arith

-- No lines are kept that do not fit, but for one.
lines_kept_fits :
    (budget unit_bytes n m : ℕ)
    → 0 < budget
    → m ≤ lines_kept budget unit_bytes n
    → m ≤ n
    → (estimated_generated_bytes unit_bytes m ≤ budget) ⊎ (m ≤ 1)
unfolding lines_kept
lines_kept_fits budget zero n m b k h = inl (omega arith)
lines_kept_fits budget (suc u) n m b k h = elim (Bool-cases (leb (m + 1) (budget / suc u))) [
  | inl fits ↦ inl ((le-div_iff_mul-le (omega arith)).0 (leb→le (m + 1) (budget / suc u) fits))
  | inr large ↦ inr (ground arith)
]

-- The size is within the budget, or there is one unit with one line.
abbrev pub WithinBudget : ℕ → ℕ → List String → List ℕ → Type 0
WithinBudget budget used symbols lines =
    (used ≤ budget) ⊎ ((length symbols ≡ 1) × (length lines ≡ 1))

abbrev BinWithin : ℕ → Bin → Type 0
BinWithin budget b = WithinBudget budget b.used b.symbols b.lines

abbrev pub PlanWithin : ℕ → BatchPlan → Type 0
PlanWithin budget b = WithinBudget budget b.estimated_bytes b.symbols b.lines

first_fit-Within :
    (budget est : ℕ) (symbol : String) (lines : List ℕ) (bs : List Bin) {bs' : List Bin}
    → first_fit budget est symbol lines bs ≡ some bs'
    → All (BinWithin budget) bs
    → All (BinWithin budget) bs' × (length bs' ≡ length bs)
unfolding first_fit
first_fit-Within budget est symbol lines [] h all = absurd (cc)
first_fit-Within budget est symbol lines (b ∷ bs) {bs'} h all =
    elim (Bool-cases (leb (b.used + est) budget)) [
      | inl room ↦
          let e : add_to b est symbol lines ∷ bs ≡ bs' = cc (rw room at h) in
          rw (← e) ((inl (leb→le (b.used + est) budget room), all.1), refl)
      | inr full ↦ elim (Option-cases (first_fit budget est symbol lines bs)) [
        | inl nowhere ↦ absurd (cc (rw (full, nowhere) at h))
        | inr (rest, fits) ↦
            let e : b ∷ rest ≡ bs' = cc (rw (full, fits) at h) in
            let (within, same) = first_fit-Within budget est symbol lines bs fits all.1 in
            rw (← e) ((all.0, within), ap suc same)
      ]
    ]

-- Every bin is within the budget, and there are at most so many.
abbrev Packed : ℕ → ℕ → Packing → Type 0
Packed budget max_batches p = All (BinWithin budget) p.bins × (length p.bins ≤ max_batches)

place-Packed :
    (found : Option (List Bin)) (budget max_batches est : ℕ) (symbol : String) (lines : List ℕ)
    (p : Packing)
    → ((bs : List Bin) → found ≡ some bs → All (BinWithin budget) bs × (length bs ≡ length p.bins))
    → (est ≤ budget) ⊎ (length lines ≡ 1)
    → Packed budget max_batches p
    → Packed budget max_batches (place found max_batches est symbol lines p)
place-Packed (some bs) budget max_batches est symbol lines p fits size packed =
    let (within, same) = fits bs refl in (within, omega (arith, packed.1, same))
place-Packed none budget max_batches est symbol lines p fits size packed =
    elim (Bool-cases (ltb (length p.bins) max_batches)) [
      | inl room ↦
          let new : Bin = record { used = est; symbols = symbol ∷ []; lines = lines } in
          let within : BinWithin budget new = elim size [
            | inl small ↦ inl small
            | inr one ↦ inr (refl, one)
          ] in
          rw room (
            All-append (BinWithin budget) p.bins (new ∷ []) packed.0 (within, tt),
            ground (arith, length-append p.bins (new ∷ []), room),
          )
      | inr full ↦ rw full packed
    ]

module _ (budget : ℕ) (max_batches : ℕ) (some_budget : 0 < budget) where
  looked_up :
      (b : Bool) (est : ℕ) (symbol : String) (lines : List ℕ) (bs bs' : List Bin)
      → if◌then◌else◌ {A = Option (List Bin)} b (first_fit budget est symbol lines bs) none
        ≡ some bs'
      → All (BinWithin budget) bs
      → All (BinWithin budget) bs' × (length bs' ≡ length bs)
  looked_up true est symbol lines bs bs' h all = first_fit-Within budget est symbol lines bs h all
  looked_up false est symbol lines bs bs' h all = absurd (cc)

  pack_lines-Packed :
      (u : MutationUnit) (ls : List ℕ) (p : Packing)
      → Packed budget max_batches p
      → Packed budget max_batches (pack_lines budget max_batches u ls p)
  unfolding pack_lines
  pack_lines-Packed u [] p packed = packed
  pack_lines-Packed u (l ∷ ls) p packed =
      let n = length (l ∷ ls) in
      let k = lines_kept budget u.unit_bytes n in
      let lines = take k (l ∷ ls) in
      let est = estimated_generated_bytes u.unit_bytes (length lines) in
      let (at_most_k, at_most_n) = length-take_le k (l ∷ ls) in
      let some_line = length-take_pos k l ls (lines_kept_pos budget u.unit_bytes n (omega arith)) in
      let size : (est ≤ budget) ⊎ (length lines ≡ 1) =
        elim (lines_kept_fits budget u.unit_bytes n (length lines) some_budget at_most_k
          at_most_n) [ inl small ↦ inl small | inr one ↦ inr (omega arith) ] in
      place-Packed (if leb est budget then first_fit budget est u.symbol lines p.bins else none)
        budget max_batches est u.symbol lines
        (record p { cap_omitted = p.cap_omitted ++ drop k (l ∷ ls) })
        (λ bs e. looked_up (leb est budget) est u.symbol lines p.bins bs e packed.0) size packed

  pack-Packed :
      (us : List MutationUnit) (p : Packing)
      → Packed budget max_batches p
      → Packed budget max_batches (pack budget max_batches us p)
  unfolding pack pack_unit
  pack-Packed [] p packed = packed
  pack-Packed (u ∷ us) p packed =
      pack-Packed us (pack_unit budget max_batches u p)
        (pack_lines-Packed u (sort_by leb u.lines) p packed)

with_lines-All :
    (P : Bin → Type 0) (bs : List Bin)
    → All P bs
    → All P (with_lines bs) × (length (with_lines bs) ≤ length bs)
with_lines-All P [] all = (tt, omega arith)
with_lines-All P (b ∷ bs) all = either b.lines (with_lines-All P bs all.1)
  where
    either :
        (ls : List ℕ)
        → All P (with_lines bs) × (length (with_lines bs) ≤ length bs)
        → let rest : List Bin = elim ls [ [] ↦ with_lines bs | _ ∷ _ ↦ b ∷ with_lines bs ] in
          All P rest × (length rest ≤ suc (length bs))
    either [] (p, n) = (p, omega arith)
    either (l ∷ ls) (p, n) = ((all.0, p), omega arith)

number_from-Within :
    (budget i : ℕ) (bs : List Bin)
    → All (BinWithin budget) bs
    → All (PlanWithin budget) (number_from i bs)
number_from-Within budget i [] all = tt
number_from-Within budget i (b ∷ bs) all =
    (within all.0, number_from-Within budget (suc i) bs all.1)
  where
    within : BinWithin budget b → PlanWithin budget (plan_of i b)
    within (inl small) = inl small
    within (inr (one, line)) = inr (one, length-sort_by leb b.lines ∙ line)

length-number_from : (i : ℕ) (bs : List Bin) → length (number_from i bs) ≡ length bs
length-number_from i [] = refl
length-number_from i (b ∷ bs) = ap suc (length-number_from (suc i) bs)

-- With a budget that is not 0, each batch is within the budget or holds one line of one unit, and
-- there are at most `max_batches` of them, or one if that is 0. The size of a batch is that of what it
-- holds: its symbols and lines are those of parts of the given units, whatever holds of all given units
-- holds of these, and it counts, for each part, the bytes of its unit once for each of its lines and
-- once more.
pub partition_units_into_batches-PlanWithin :
    (hexdigest : String → String) (budget max_batches : ℕ) (units : List MutationUnit)
    (P : MutationUnit → Type 0)
    → 0 < budget
    → All P units
    → let r = partition_units_into_batches hexdigest budget max_batches units in
      All (PlanWithin budget) r.batches
      × All (PlanMade P) r.batches
      × (length r.batches ≤ max 1 max_batches)
unfolding partition_units_into_batches
partition_units_into_batches-PlanWithin hexdigest budget max_batches units P h held =
    let none_yet : Packing = record { bins = []; cap_omitted = []; max_omitted = [] } in
    let packed = pack budget (max 1 max_batches) (sort_by unit_le units) none_yet in
    let (within, few) =
      pack-Packed budget (max 1 max_batches) h (sort_by unit_le units) none_yet (tt, omega arith) in
    let (kept, fewer) = with_lines-All (BinWithin budget) packed.bins within in
    let sorted = sort_by bin_le (with_lines packed.bins) in
    (
      number_from-Within budget 0 sorted
          (All-sort_by (BinWithin budget) bin_le (with_lines packed.bins) kept),
      partition_units_into_batches-PlanMade hexdigest budget max_batches units P held,
      omega (
        arith,
        length-number_from 0 sorted,
        length-sort_by bin_le (with_lines packed.bins),
        few,
        fewer,
      ),
    )
