-- ===== src/Batching/Policy.antt =====
-- The part of a generation policy that one batch owns:
-- tools/python-enforcement/uta_enforce_core/mutation_batching.py. `int(…)` on a value and on a key
-- are parameters; where they raise, the call raises, and here it returns `none`.
pub mod Slices
use unit_test_agent.Prelude.{
  ℕ, String, Bool, true, false, ◌&&◌, ◌||◌, Option, none, some, List, [], ◌∷◌, ◌==◌, string_eq,
  int_eq, if◌then◌else◌, elem, sort_by, Json, null, bool, int, float, text, array, object, Items,
  nil, cons, Fields, end, field, get_field, has_field, ℤ, negsuc, int_leb,
}

-- `POLICY_LINE_LIST_FIELDS`
abbrev pub policy_line_list_fields : List String
policy_line_list_fields =
    "selected" ∷ "selectedLineRepresentatives" ∷ "selectedBeforeCap" ∷ "hardCapSelected"
    ∷ "omittedByCapOpportunities" ∷ "omittedByRepresentativeOpportunities"
    ∷ "omittedByHardCapOpportunities" ∷ "omittedByOnePerLineOpportunities" ∷ "suppressed" ∷ []

abbrev pub filter_items : (Json → Bool) → Items → Items
filter_items keep nil = nil
filter_items keep (cons j js) =
    let rest = filter_items keep js in if keep j then cons j rest else rest

abbrev int_items : List ℤ → Items
int_items [] = nil
int_items (n ∷ ns) = cons (int n) (int_items ns)

module _ (to_int : Json → Option ℤ) (key_to_int : String → Option ℤ) where
  abbrev line_or_none : Option ℤ → ℤ
  line_or_none none = negsuc 0
  line_or_none (some n) = n

  -- The line of a mapping that has one.
  abbrev own_line : Fields → ℤ
  own_line fs =
      if has_field "line" fs then line_or_none (to_int (get_field "line" fs)) else negsuc 0

  abbrev nested_line : Json → ℤ
  nested_line (object fs) = own_line fs
  nested_line _ = negsuc 0

  abbrev pub policy_payload_line : Json → ℤ
  policy_payload_line (object fs) =
      if has_field "line" fs then own_line fs else nested_line (get_field "opportunity" fs)
  policy_payload_line _ = negsuc 0

  abbrev pub in_batch : List ℤ → Json → Bool
  in_batch lines j = elem (policy_payload_line j) lines

  -- `int(x) for x in value if int(x) in line_set`
  abbrev kept_lines : List ℤ → Items → Option (List ℤ)
  kept_lines lines nil = some []
  kept_lines lines (cons j js) =
      let rest = kept_lines lines js in
      elim (to_int j) [
        | none ↦ none
        | some n ↦ elim rest [ none ↦ none | some ns ↦ some (if elem n lines then n ∷ ns else ns) ]
      ]

  abbrev sorted_lines : Option (List ℤ) → Option Json
  sorted_lines none = none
  sorted_lines (some ns) = some (array (int_items (sort_by int_leb ns)))

  abbrev kept_keys : List ℤ → Fields → Option Fields
  kept_keys lines end = some end
  kept_keys lines (field k v fs) =
      let rest = kept_keys lines fs in
      elim (key_to_int k) [
        | none ↦ none
        | some n ↦ elim rest [
          | none ↦ none
          | some gs ↦ some (if elem n lines then field k v gs else gs)
        ]
      ]

  abbrev as_object : Option Fields → Option Json
  as_object none = none
  as_object (some fs) = some (object fs)

  abbrev pub slice_payloads : List ℤ → Json → Option Json
  slice_payloads lines (array js) = some (array (filter_items (in_batch lines) js))
  slice_payloads lines v = some v

  abbrev slice_lines : List ℤ → Json → Option Json
  slice_lines lines (array js) = sorted_lines (kept_lines lines js)
  slice_lines lines v = some v

  abbrev slice_keys : List ℤ → Json → Option Json
  slice_keys lines (object fs) = as_object (kept_keys lines fs)
  slice_keys lines v = some v

  -- What becomes of one field of the policy.
  unfoldable pub slice_field : List ℤ → String → Json → Option Json
  slice_field lines name v =
      if elem name policy_line_list_fields
      then slice_payloads lines v
      else if name == "selectedLines" || name == "allowedLines"
      then slice_lines lines v
      else if name == "operatorByLine" || name == "opportunityIdByLine"
      then slice_keys lines v
      else some v

  unfoldable pub filter_generation_policy_to_lines : List ℤ → Fields → Option Fields
  unfolding slice_field
  filter_generation_policy_to_lines lines end = some end
  filter_generation_policy_to_lines lines (field name v fs) =
      let rest = filter_generation_policy_to_lines lines fs in
      elim (slice_field lines name v) [
        | none ↦ none
        | some w ↦ elim rest [ none ↦ none | some gs ↦ some (field name w gs) ]
      ]
