-- ===== src/Batching.antt =====
-- The partition of the mutation work of one file into batches:
-- tools/python-enforcement/uta_enforce_core/mutation_batching.py. Sizes, budgets, priorities and
-- line numbers are natural numbers. Where the source's `budget // unit_bytes - 1` is -1, it is 0
-- here; one line is kept in both cases.
mod Lines
mod Bounds
mod Costs
mod Order
mod Units
mod Policy
mod Scenarios
use Prim.Native.String.{slice}
use unit_test_agent.Prelude.{
  ℕ, String, suc, zero, ◌+◌, ◌-◌, ◌*◌, ◌/◌, Bool, true, false, ◌&&◌, ◌||◌, Option, none, some, List,
  [], ◌∷◌, ◌++◌, map, ltb, leb, if◌then◌else◌, ◌==◌, nat_eq, length, sum_by, sort_by, decimal,
  joined, text_le,
}

pub record MutationUnit : Type 0 where
  pub symbol : String
  pub unit_bytes : ℕ
  pub lines : List ℕ
  pub priority : ℕ

pub record BatchPlan : Type 0 where
  pub index : ℕ
  pub symbols : List String
  pub lines : List ℕ
  pub estimated_bytes : ℕ

pub record PartitionResult : Type 0 where
  pub batches : List BatchPlan
  pub signature : String
  pub omitted_by_generated_bytes_cap : List ℕ
  pub omitted_by_max_batches : List ℕ

pub record Bin : Type 0 where
  pub used : ℕ
  pub symbols : List String
  pub lines : List ℕ

-- The lists that the loop of `partition_units_into_batches` fills.
pub record Packing : Type 0 where
  pub bins : List Bin
  pub cap_omitted : List ℕ
  pub max_omitted : List ℕ

abbrev pub max : ℕ → ℕ → ℕ
max a b = if ltb a b then b else a

abbrev pub take : ℕ → List ℕ → List ℕ
take zero xs = []
take (suc n) [] = []
take (suc n) (x ∷ xs) = x ∷ take n xs

abbrev pub drop : ℕ → List ℕ → List ℕ
drop zero xs = xs
drop (suc n) [] = []
drop (suc n) (x ∷ xs) = drop n xs

abbrev pub estimated_generated_bytes : ℕ → ℕ → ℕ
estimated_generated_bytes unit_bytes n_lines = (n_lines + 1) * unit_bytes

-- The key `(-priority, symbol)`.
unfoldable pub unit_le : MutationUnit → MutationUnit → Bool
unit_le u v = ltb v.priority u.priority || (u.priority == v.priority && text_le u.symbol v.symbol)

-- How many of a unit's n lines are kept.
unfoldable pub lines_kept : ℕ → ℕ → ℕ → ℕ
lines_kept budget unit_bytes n =
    if ltb 0 unit_bytes && ltb 0 budget && ltb (budget / unit_bytes - 1) n
    then max 1 (budget / unit_bytes - 1)
    else n

abbrev pub add_to : Bin → ℕ → String → List ℕ → Bin
add_to b est symbol lines = record {
  used = b.used + est;
  symbols = b.symbols ++ symbol ∷ [];
  lines = b.lines ++ lines;
}

-- The first bin with room for `est` more bytes takes the unit.
unfoldable pub first_fit : ℕ → ℕ → String → List ℕ → List Bin → Option (List Bin)
first_fit budget est symbol lines [] = none
first_fit budget est symbol lines (b ∷ bs) =
    let rest = first_fit budget est symbol lines bs in
    if leb (b.used + est) budget
    then some (add_to b est symbol lines ∷ bs)
    else elim rest [ some bs' ↦ some (b ∷ bs') | none ↦ none ]

-- A unit that no bin has room for gets a bin of its own, or is omitted.
abbrev pub open_bin : ℕ → ℕ → String → List ℕ → Packing → Packing
open_bin max_batches est symbol lines p =
    if ltb (length p.bins) max_batches
    then record p {
      bins = p.bins ++ record { used = est; symbols = symbol ∷ []; lines = lines } ∷ [];
    }
    else record p { max_omitted = p.max_omitted ++ lines }

abbrev pub place : Option (List Bin) → ℕ → ℕ → String → List ℕ → Packing → Packing
place (some bins) max_batches est symbol lines p = record p { bins = bins }
place none max_batches est symbol lines p = open_bin max_batches est symbol lines p

unfoldable pub pack_lines : ℕ → ℕ → MutationUnit → List ℕ → Packing → Packing
unfolding lines_kept first_fit
pack_lines budget max_batches u [] p = p
pack_lines budget max_batches u (l ∷ ls) p =
    let keep_n = lines_kept budget u.unit_bytes (length (l ∷ ls)) in
    let lines = take keep_n (l ∷ ls) in
    let est = estimated_generated_bytes u.unit_bytes (length lines) in
    let found : Option (List Bin) =
      if leb est budget then first_fit budget est u.symbol lines p.bins else none in
    place found max_batches est u.symbol lines
      (record p { cap_omitted = p.cap_omitted ++ drop keep_n (l ∷ ls) })

unfoldable pub pack_unit : ℕ → ℕ → MutationUnit → Packing → Packing
unfolding pack_lines
pack_unit budget max_batches u p = pack_lines budget max_batches u (sort_by leb u.lines) p

unfoldable pub pack : ℕ → ℕ → List MutationUnit → Packing → Packing
unfolding pack_unit
pack budget max_batches [] p = p
pack budget max_batches (u ∷ us) p = pack budget max_batches us (pack_unit budget max_batches u p)

-- `min(b.lines)`
abbrev pub min_line : List ℕ → ℕ
min_line [] = 0
min_line (l ∷ []) = l
min_line (l ∷ m ∷ ls) = let rest = min_line (m ∷ ls) in if ltb rest l then rest else l

abbrev pub bin_le : Bin → Bin → Bool
bin_le a b = leb (min_line a.lines) (min_line b.lines)

-- `(b for b in bins if b.lines)`
abbrev pub with_lines : List Bin → List Bin
with_lines [] = []
with_lines (b ∷ bs) = let rest = with_lines bs in elim b.lines [ [] ↦ rest | _ ∷ _ ↦ b ∷ rest ]

abbrev pub plan_of : ℕ → Bin → BatchPlan
plan_of i b = record {
  index = i;
  symbols = b.symbols;
  lines = sort_by leb b.lines;
  estimated_bytes = b.used;
}

-- `enumerate`, from i on.
abbrev pub number_from : ℕ → List Bin → List BatchPlan
number_from i [] = []
number_from i (b ∷ bs) = plan_of i b ∷ number_from (suc i) bs

unfoldable pub signature_payload : List BatchPlan → String
unfolding decimal
signature_payload batches =
    joined "|" (map (λ b. joined "," (map (λ n. decimal n) b.lines)) batches)

-- `sha256(text).hexdigest()` is a parameter.
module _ (hexdigest : String → String) where
  unfoldable pub batch_signature : List BatchPlan → String
  unfolding signature_payload
  batch_signature batches = slice (hexdigest (signature_payload batches)) 0 16

  unfoldable pub partition_units_into_batches : ℕ → ℕ → List MutationUnit → PartitionResult
  unfolding unit_le pack batch_signature
  partition_units_into_batches budget max_batches units =
      let packed =
        pack budget (max 1 max_batches) (sort_by unit_le units)
          (record { bins = []; cap_omitted = []; max_omitted = [] }) in
      let batches = number_from 0 (sort_by bin_le (with_lines packed.bins)) in
      record {
        batches = batches;
        signature = batch_signature batches;
        omitted_by_generated_bytes_cap = sort_by leb packed.cap_omitted;
        omitted_by_max_batches = sort_by leb packed.max_omitted;
      }
