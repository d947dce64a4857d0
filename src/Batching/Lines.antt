-- ===== src/Batching/Lines.antt =====
-- Where the lines of the units are in the partition of
-- tools/python-enforcement/uta_enforce_core/mutation_batching.py.
use unit_test_agent.Prelude.{
  ℕ, String, suc, zero, ◌+◌, ◌≡◌, refl, ap, Bool, true, false, Option, none, some, List, [], ◌∷◌,
  ◌++◌, ltb, leb, if◌then◌else◌, ◌==◌, nat_eq, Bool-cases, Option-cases, inl, inr, length, sum_by,
  sum_by-append, sort_by, sum_by-sort_by, arith,
}
use unit_test_agent.Batching.{
  MutationUnit, PartitionResult, Bin, Packing, max, take, drop, estimated_generated_bytes, unit_le,
  lines_kept, add_to, first_fit, open_bin, place, pack_lines, pack_unit, pack, bin_le, with_lines,
  number_from, partition_units_into_batches,
}

-- How often a line occurs.
abbrev is_line : ℕ → ℕ → ℕ
is_line l x = if x == l then 1 else 0

abbrev pub count : ℕ → List ℕ → ℕ
count l xs = sum_by (is_line l) xs

abbrev pub planned : ℕ → PartitionResult → ℕ
planned l r = sum_by (λ b. count l b.lines) r.batches

module _ (f : ℕ → ℕ) where
  take-drop : (n : ℕ) (xs : List ℕ) → sum_by f (take n xs) + sum_by f (drop n xs) ≡ sum_by f xs
  take-drop zero xs = omega arith
  take-drop (suc n) [] = refl
  take-drop (suc n) (x ∷ xs) = omega (arith, take-drop n xs)

  abbrev in_bin : Bin → ℕ
  in_bin b = sum_by f b.lines

  abbrev in_packing : Packing → ℕ
  in_packing p = sum_by in_bin p.bins + sum_by f p.cap_omitted + sum_by f p.max_omitted

  in_bin-first_fit :
      (budget est : ℕ) (symbol : String) (lines : List ℕ) (bs : List Bin) {bs' : List Bin}
      → first_fit budget est symbol lines bs ≡ some bs'
      → sum_by in_bin bs' ≡ sum_by in_bin bs + sum_by f lines
  unfolding first_fit
  in_bin-first_fit budget est symbol lines [] h = absurd (cc)
  in_bin-first_fit budget est symbol lines (b ∷ bs) {bs'} h =
      elim (Bool-cases (leb (b.used + est) budget)) [
        | inl room ↦
            let e : add_to b est symbol lines ∷ bs ≡ bs' = cc (rw room at h) in
            rw (← e) (omega (arith, sum_by-append f b.lines lines))
        | inr full ↦ elim (Option-cases (first_fit budget est symbol lines bs)) [
          | inl nowhere ↦ absurd (cc (rw (full, nowhere) at h))
          | inr (rest, fits) ↦
              let e : b ∷ rest ≡ bs' = cc (rw (full, fits) at h) in
              rw (← e) (omega (arith, in_bin-first_fit budget est symbol lines bs fits))
        ]
      ]

  in_packing-open_bin :
      (max_batches est : ℕ) (symbol : String) (lines : List ℕ) (p : Packing)
      → in_packing (open_bin max_batches est symbol lines p) ≡ in_packing p + sum_by f lines
  in_packing-open_bin max_batches est symbol lines p =
      elim (Bool-cases (ltb (length p.bins) max_batches)) [
        | inl room ↦ rw room (
            omega (
              arith,
              sum_by-append in_bin p.bins
                  (record { used = est; symbols = symbol ∷ []; lines = lines } ∷ []),
            ))
        | inr full ↦ rw full (omega (arith, sum_by-append f p.max_omitted lines))
      ]

  in_packing-place :
      (found : Option (List Bin)) (max_batches est : ℕ) (symbol : String) (lines : List ℕ)
      (p : Packing)
      → ((bs : List Bin)
          → found ≡ some bs
          → sum_by in_bin bs ≡ sum_by in_bin p.bins + sum_by f lines)
      → in_packing (place found max_batches est symbol lines p) ≡ in_packing p + sum_by f lines
  in_packing-place none max_batches est symbol lines p fits =
      in_packing-open_bin max_batches est symbol lines p
  in_packing-place (some bs) max_batches est symbol lines p fits = omega (arith, fits bs refl)

  -- A bin is only looked for when the estimate is within the budget.
  guarded :
      (b : Bool) (found : Option (List Bin)) {bs : List Bin}
      → if◌then◌else◌ {A = Option (List Bin)} b found none ≡ some bs
      → found ≡ some bs
  guarded true found h = h
  guarded false found h = absurd (cc)

  in_packing-pack_lines :
      (budget max_batches : ℕ) (u : MutationUnit) (ls : List ℕ) (p : Packing)
      → in_packing (pack_lines budget max_batches u ls p) ≡ in_packing p + sum_by f ls
  unfolding pack_lines
  in_packing-pack_lines budget max_batches u [] p = omega arith
  in_packing-pack_lines budget max_batches u (l ∷ ls) p =
      let n = lines_kept budget u.unit_bytes (length (l ∷ ls)) in
      let lines = take n (l ∷ ls) in
      let est = estimated_generated_bytes u.unit_bytes (length lines) in
      let q : Packing = record p { cap_omitted = p.cap_omitted ++ drop n (l ∷ ls) } in
      omega (
        arith,
        in_packing-place
            (if leb est budget then first_fit budget est u.symbol lines p.bins else none)
            max_batches est u.symbol lines q
            (λ bs e.
              in_bin-first_fit budget est u.symbol lines p.bins (guarded (leb est budget) _ e)),
        sum_by-append f p.cap_omitted (drop n (l ∷ ls)),
        take-drop n (l ∷ ls),
      )

  in_packing-pack :
      (budget max_batches : ℕ) (us : List MutationUnit) (p : Packing)
      → in_packing (pack budget max_batches us p) ≡ in_packing p + sum_by (λ u. sum_by f u.lines) us
  unfolding pack pack_unit
  in_packing-pack budget max_batches [] p = omega arith
  in_packing-pack budget max_batches (u ∷ us) p = omega (
    arith,
    in_packing-pack budget max_batches us (pack_unit budget max_batches u p),
    in_packing-pack_lines budget max_batches u (sort_by leb u.lines) p,
    sum_by-sort_by f leb u.lines,
  )

  in_bin-with_lines : (bs : List Bin) → sum_by in_bin (with_lines bs) ≡ sum_by in_bin bs
  in_bin-with_lines [] = refl
  in_bin-with_lines (b ∷ bs) = either b.lines refl (in_bin-with_lines bs)
    where
      either :
          (ls : List ℕ)
          → ls ≡ b.lines
          → sum_by in_bin (with_lines bs) ≡ sum_by in_bin bs
          → sum_by in_bin (elim ls [ [] ↦ with_lines bs | _ ∷ _ ↦ b ∷ with_lines bs ])
            ≡ sum_by f ls + sum_by in_bin bs
      either [] e ih = omega (arith, ih)
      either (l ∷ ls) e ih = omega (arith, ih, ap (sum_by f) e)

  in_plan-number_from :
      (i : ℕ) (bs : List Bin) → sum_by (λ b. sum_by f b.lines) (number_from i bs) ≡ sum_by in_bin bs
  in_plan-number_from i [] = refl
  in_plan-number_from i (b ∷ bs) =
      omega (arith, sum_by-sort_by f leb b.lines, in_plan-number_from (suc i) bs)

  partition-sum :
      (hexdigest : String → String) (budget max_batches : ℕ) (units : List MutationUnit)
      → let r = partition_units_into_batches hexdigest budget max_batches units in
        sum_by (λ b. sum_by f b.lines) r.batches
          + sum_by f r.omitted_by_generated_bytes_cap
          + sum_by f r.omitted_by_max_batches
        ≡ sum_by (λ u. sum_by f u.lines) units
  unfolding partition_units_into_batches
  partition-sum hexdigest budget max_batches units =
      let none_yet : Packing = record { bins = []; cap_omitted = []; max_omitted = [] } in
      let packed = pack budget (max 1 max_batches) (sort_by unit_le units) none_yet in
      omega (
        arith,
        in_plan-number_from 0 (sort_by bin_le (with_lines packed.bins)),
        sum_by-sort_by in_bin bin_le (with_lines packed.bins),
        in_bin-with_lines packed.bins,
        sum_by-sort_by f leb packed.cap_omitted,
        sum_by-sort_by f leb packed.max_omitted,
        in_packing-pack budget (max 1 max_batches) (sort_by unit_le units) none_yet,
        sum_by-sort_by (λ u. sum_by f u.lines) unit_le units,
      )

-- Each line occurs in the batches and in the two lists of omitted lines together exactly as often as
-- in the units.
pub partition_units_into_batches-count :
    (hexdigest : String → String) (budget max_batches : ℕ) (units : List MutationUnit) (l : ℕ)
    → let r = partition_units_into_batches hexdigest budget max_batches units in
      planned l r + count l r.omitted_by_generated_bytes_cap + count l r.omitted_by_max_batches
      ≡ sum_by (λ u. count l u.lines) units
partition_units_into_batches-count hexdigest budget max_batches units l =
    partition-sum (is_line l) hexdigest budget max_batches units
