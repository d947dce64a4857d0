-- ===== src/Batching/Scenarios.antt =====
-- Partitions of three units of one file.
use unit_test_agent.Prelude.{ℕ, String, ◌+◌, ◌≤◌, ◌≡◌, refl, List, [], ◌∷◌, length, All, arith}
use unit_test_agent.Batching.{MutationUnit, PartitionResult, max, partition_units_into_batches}
use unit_test_agent.Prelude.{Option, some, elem, true, inl, nat_eq}
use unit_test_agent.Batching.Units.{Node, function, class, other, mutation_units_from_source}
use unit_test_agent.Batching.Units.Found.{Among, mutation_units_from_source-Among}
use unit_test_agent.Prelude.{
  none, string_eq, int_eq, Json, int, text, object, array, Items, nil, cons, Fields, field, end,
  get_field, ℤ, pos,
}
use unit_test_agent.Batching.Policy.{filter_generation_policy_to_lines}
use unit_test_agent.Batching.Policy.Slices.{Sliced, filter_generation_policy_to_lines-Sliced}
use unit_test_agent.Batching.Lines.{count, planned, partition_units_into_batches-count}
use unit_test_agent.Batching.Costs.{PlanMade}
use unit_test_agent.Batching.Bounds.{PlanWithin, partition_units_into_batches-PlanWithin}
use unit_test_agent.Batching.Order.{InOrder, partition_units_into_batches-InOrder}

-- A digest that gives the text back.
abbrev same_text : String → String
same_text s = s

-- `load` is too large for its three lines under a budget of 100.
abbrev sample_units : List MutationUnit
sample_units =
    record { symbol = "load"; unit_bytes = 30; lines = 12 ∷ 10 ∷ 11 ∷ []; priority = 1 }
    ∷ record { symbol = "save"; unit_bytes = 10; lines = 3 ∷ []; priority = 2 }
    ∷ record { symbol = "huge"; unit_bytes = 400; lines = 21 ∷ 20 ∷ []; priority = 0 }
    ∷ []

abbrev sample_result : PartitionResult
sample_result = record {
  batches =
      record { index = 0; symbols = "save" ∷ []; lines = 3 ∷ []; estimated_bytes = 20 }
      ∷ record { index = 1; symbols = "load" ∷ []; lines = 10 ∷ 11 ∷ []; estimated_bytes = 90 }
      ∷ [];
  signature = "3|10,11";
  omitted_by_generated_bytes_cap = 12 ∷ 21 ∷ [];
  omitted_by_max_batches = 20 ∷ [];
}

sample_partition : partition_units_into_batches same_text 100 2 sample_units ≡ sample_result
unfolding partition_units_into_batches
sample_partition = refl

partition_units_into_batches-count_example :
    planned 12 (partition_units_into_batches same_text 100 2 sample_units)
      + count 12
          (partition_units_into_batches same_text 100 2 sample_units).omitted_by_generated_bytes_cap
      + count 12 (partition_units_into_batches same_text 100 2 sample_units).omitted_by_max_batches
    ≡ 1
partition_units_into_batches-count_example =
    partition_units_into_batches-count same_text 100 2 sample_units 12

partition_units_into_batches-PlanWithin_example :
    All (PlanWithin 100) (partition_units_into_batches same_text 100 2 sample_units).batches
    × All
        (PlanMade (λ u. u.unit_bytes ≤ 400))
        (partition_units_into_batches same_text 100 2 sample_units).batches
    × (length (partition_units_into_batches same_text 100 2 sample_units).batches ≤ max 1 2)
partition_units_into_batches-PlanWithin_example =
    partition_units_into_batches-PlanWithin same_text 100 2 sample_units (λ u. u.unit_bytes ≤ 400)
      (omega arith) (omega arith, (omega arith, (omega arith, tt)))

partition_units_into_batches-InOrder_example :
    InOrder (partition_units_into_batches same_text 100 2 sample_units)
partition_units_into_batches-InOrder_example =
    partition_units_into_batches-InOrder same_text 100 2 sample_units

-- A function on the lines 1 and 2, and a class with a method on the lines 4 and 5.
abbrev sample_nodes : List Node
sample_nodes =
    function (record { name = "load"; start = 1; stop = 2 })
    ∷ class "Store" (record { name = "save"; start = 4; stop = 5 } ∷ [])
    ∷ other
    ∷ []

abbrev sample_sizes : String → List ℕ
sample_sizes source = 10 ∷ 20 ∷ 1 ∷ 12 ∷ 30 ∷ []

abbrev sample_parse : String → Option (List Node)
sample_parse source = some sample_nodes

-- Line 3 lies in no unit, and line 2 was selected twice.
abbrev sample_selected : List (ℕ × ℕ)
sample_selected = (5, 4) ∷ (2, 1) ∷ (3, 9) ∷ (2, 3) ∷ []

sample_source_units :
    mutation_units_from_source sample_parse sample_sizes "" sample_selected
    ≡ record { symbol = "Storeǁsave"; unit_bytes = 42; lines = 5 ∷ []; priority = 4 }
      ∷ record { symbol = "load"; unit_bytes = 30; lines = 2 ∷ []; priority = 3 }
      ∷ []
unfolding mutation_units_from_source
sample_source_units = refl

mutation_units_from_source-Among_example :
    (u : MutationUnit) × Among u
      (mutation_units_from_source sample_parse sample_sizes "" sample_selected)
    × (u.symbol ≡ "Storeǁsave")
    × (elem 5 u.lines ≡ true)
    × (4 ≤ u.priority)
mutation_units_from_source-Among_example =
    mutation_units_from_source-Among sample_parse sample_sizes "" sample_selected sample_nodes
      "Storeǁsave" (record { name = "save"; start = 4; stop = 5 }) 5 4 refl (inl refl)
      (_ ∷ [], [], refl, omega arith, omega arith, omega arith, tt)

-- A policy with two selected lines, the second under its opportunity.
abbrev sample_policy : Fields
sample_policy =
    field "selected"
      (array (
        cons (object (field "line" (int (pos 3)) end))
          (cons (object (field "opportunity" (object (field "line" (int (pos 10)) end)) end)) nil)))
      (field "allowedLines" (array (cons (int (pos 10)) (cons (int (pos 3)) nil)))
        (field "version" (text "v1") end))

abbrev plain_int : Json → Option ℤ
plain_int (int n) = some n
plain_int _ = none

abbrev no_key : String → Option ℤ
no_key k = none

abbrev slice_of : Items → Items → Fields
slice_of payloads lines =
    field "selected" (array payloads)
      (field "allowedLines" (array lines) (field "version" (text "v1") end))

abbrev line_payload : Json
line_payload = object (field "line" (int (pos 3)) end)

abbrev nested_payload : Json
nested_payload = object (field "opportunity" (object (field "line" (int (pos 10)) end)) end)

whole_policy :
    filter_generation_policy_to_lines plain_int no_key (pos 3 ∷ pos 10 ∷ []) sample_policy
    ≡ some (
        slice_of
          (cons line_payload (cons nested_payload nil))
          (cons (int (pos 3)) (cons (int (pos 10)) nil)))
unfolding filter_generation_policy_to_lines
whole_policy = refl

first_slice :
    filter_generation_policy_to_lines plain_int no_key (pos 3 ∷ []) sample_policy
    ≡ some (slice_of (cons line_payload nil) (cons (int (pos 3)) nil))
unfolding filter_generation_policy_to_lines
first_slice = refl

filter_generation_policy_to_lines-Sliced_example :
    (ks : Items) × (get_field "selected" (slice_of (cons line_payload nil) (cons (int (pos 3)) nil))
      ≡ array ks)
    × Sliced plain_int no_key (pos 3 ∷ []) (cons line_payload (cons nested_payload nil)) ks
filter_generation_policy_to_lines-Sliced_example =
    filter_generation_policy_to_lines-Sliced plain_int no_key (pos 3 ∷ []) sample_policy "selected"
      (cons line_payload (cons nested_payload nil)) refl refl refl first_slice
