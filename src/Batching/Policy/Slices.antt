-- ===== src/Batching/Policy/Slices.antt =====
-- The payloads that a batch owns:
-- tools/python-enforcement/uta_enforce_core/mutation_batching.py.
use unit_test_agent.Prelude.{
  String, ◌⊎◌, ◌≡◌, refl, sym, ap, ◌∙◌, true, false, Option, none, some, List, [], ◌∷◌, ◌==◌,
  string_eq, int_eq, ==_iff, Bool-cases, Option-cases, inl, inr, elem, Json, bool, int, float, text,
  object, array, Items, nil, cons, Fields, end, field, get_field, has_field, null, ℤ, negsuc,
}
use unit_test_agent.Batching.Policy.{
  policy_line_list_fields, filter_items, slice_payloads, policy_payload_line, own_line, nested_line,
  in_batch, slice_field, filter_generation_policy_to_lines,
}

-- The fields of payloads.
abbrev pub payload_fields : List String
payload_fields =
    "selected" ∷ "selectedLineRepresentatives" ∷ "selectedBeforeCap" ∷ "hardCapSelected"
    ∷ "omittedByCapOpportunities" ∷ "omittedByRepresentativeOpportunities"
    ∷ "omittedByHardCapOpportunities" ∷ "omittedByOnePerLineOpportunities" ∷ "suppressed" ∷ []

module _ (to_int : Json → Option ℤ) (key_to_int : String → Option ℤ) where
  -- A payload has a line, or its opportunity has one.
  pub data LineOf : Json → ℤ → Type 0 where
    own :
        (fs : Fields) (n : ℤ)
        → has_field "line" fs ≡ true
        → to_int (get_field "line" fs) ≡ some n
        → LineOf (object fs) n
    nested :
        (fs gs : Fields) (n : ℤ)
        → has_field "line" fs ≡ false
        → get_field "opportunity" fs ≡ object gs
        → has_field "line" gs ≡ true
        → to_int (get_field "line" gs) ≡ some n
        → LineOf (object fs) n

  -- The payloads with one of the lines stay, in their order, and no others.
  pub data Sliced (lines : List ℤ) : Items → Items → Type 0 where
    ends : Sliced lines nil nil
    keeps :
        (j : Json) (n : ℤ) (js ks : Items)
        → LineOf j n
        → elem n lines ≡ true
        → Sliced lines js ks
        → Sliced lines (cons j js) (cons j ks)
    drops :
        (j : Json) (js ks : Items)
        → ((n : ℤ) → LineOf j n → elem n lines ≡ false)
        → Sliced lines js ks
        → Sliced lines (cons j js) ks

  policy_payload_line-LineOf :
      (j : Json) (n : ℤ) → LineOf j n → policy_payload_line to_int key_to_int j ≡ n
  policy_payload_line-LineOf (object fs) n (own _ _ has is) = rw (has, is) refl
  policy_payload_line-LineOf (object fs) n (nested _ gs _ no_line there has is) =
      rw (no_line, there, has, is) refl
  policy_payload_line-LineOf null n line = elim line [ ]
  policy_payload_line-LineOf (bool _) n line = elim line [ ]
  policy_payload_line-LineOf (int _) n line = elim line [ ]
  policy_payload_line-LineOf (float _) n line = elim line [ ]
  policy_payload_line-LineOf (text _) n line = elim line [ ]
  policy_payload_line-LineOf (array _) n line = elim line [ ]

  -- Where no line is found, it is -1.
  LineOf-own_line :
      (fs : Fields)
      → (own_line to_int key_to_int fs ≡ negsuc 0)
        ⊎ ((has_field "line" fs ≡ true)
            × (to_int (get_field "line" fs) ≡ some (own_line to_int key_to_int fs)))
  LineOf-own_line fs = elim (Bool-cases (has_field "line" fs)) [
    | inr lost ↦ inl (rw lost refl)
    | inl has ↦ elim (Option-cases (to_int (get_field "line" fs))) [
      | inl bad ↦ inl (rw (has, bad) refl)
      | inr (n, is) ↦ inr (has, rw (has, is) refl)
    ]
  ]

  LineOf-policy_payload_line :
      (j : Json)
      → (policy_payload_line to_int key_to_int j ≡ negsuc 0)
        ⊎ LineOf j (policy_payload_line to_int key_to_int j)
  LineOf-policy_payload_line (object fs) = elim (Bool-cases (has_field "line" fs)) [
    | inl has ↦ elim (Option-cases (to_int (get_field "line" fs))) [
      | inl bad ↦ inl (rw (has, bad) refl)
      | inr (n, is) ↦ inr (rw (has, is) (own fs n has is))
    ]
    | inr lost ↦ rw lost (go lost (get_field "opportunity" fs) refl)
  ]
    where
      go :
          has_field "line" fs ≡ false
          → (v : Json) → get_field "opportunity" fs ≡ v
          → (nested_line to_int key_to_int v ≡ negsuc 0)
            ⊎ LineOf (object fs) (nested_line to_int key_to_int v)
      go lost (object gs) there = elim (LineOf-own_line gs) [
        | inl missing ↦ inl missing
        | inr (has, is) ↦ inr (nested fs gs (own_line to_int key_to_int gs) lost there has is)
      ]
      go lost _ there = inl refl
  LineOf-policy_payload_line _ = inl refl

  filter_items-Sliced :
      (lines : List ℤ) (js : Items)
      → elem (negsuc 0) lines ≡ false
      → Sliced lines js (filter_items (in_batch to_int key_to_int lines) js)
  filter_items-Sliced lines nil positive = ends
  filter_items-Sliced lines (cons j js) positive =
      elim (Bool-cases (in_batch to_int key_to_int lines j)) [
        | inl kept ↦ elim (LineOf-policy_payload_line j) [
          | inl missing ↦ absurd (cc (rw (missing, positive) at kept))
          | inr line ↦ rw kept (keeps j _ js _ line kept (filter_items-Sliced lines js positive))
        ]
        | inr dropped ↦ rw dropped (
            drops j js _
              (λ n line.
                ap (λ m. elem m lines) (sym (policy_payload_line-LineOf j n line)) ∙ dropped)
              (filter_items-Sliced lines js positive))
      ]

  slice_field-payloads :
      (lines : List ℤ) (name : String) (v : Json)
      → elem name policy_line_list_fields ≡ true
      → slice_field to_int key_to_int lines name v ≡ slice_payloads to_int key_to_int lines v
  unfolding slice_field
  slice_field-payloads lines name v h = rw h

  get_field-filter :
      (lines : List ℤ) (name : String) (policy : Fields) {slice : Fields}
      → elem name policy_line_list_fields ≡ true
      → filter_generation_policy_to_lines to_int key_to_int lines policy ≡ some slice
      → slice_payloads to_int key_to_int lines (get_field name policy) ≡ some (get_field name slice)
  unfolding filter_generation_policy_to_lines
  get_field-filter lines name end {slice} listed h =
      let e : end ≡ slice = cc in ap (λ s. some (get_field name s)) e
  get_field-filter lines name (field k v fs) {slice} listed h =
      elim (Option-cases (slice_field to_int key_to_int lines k v)) [
        | inl raises ↦ absurd (cc (rw (raises, filter_generation_policy_to_lines) at h))
        | inr (w, sliced) ↦
            elim (Option-cases (filter_generation_policy_to_lines to_int key_to_int lines fs)) [
              | inl raises ↦
                  absurd (cc (rw (sliced, raises, filter_generation_policy_to_lines) at h))
              | inr (rest, later) ↦
                  let e : field k w rest ≡ slice =
                    cc (rw (sliced, later, filter_generation_policy_to_lines) at h) in
                  either k v w fs rest (get_field-filter lines name fs listed later) sliced
                  ∙ ap (λ s. some (get_field name s)) e
            ]
      ]
    where
      either :
          (k : String) (v w : Json) (fs rest : Fields)
          → slice_payloads to_int key_to_int lines (get_field name fs) ≡ some (get_field name rest)
          → slice_field to_int key_to_int lines k v ≡ some w
          → slice_payloads to_int key_to_int lines (get_field name (field k v fs))
            ≡ some (get_field name (field k w rest))
      either k v w fs rest ih sliced = elim (Bool-cases (k == name)) [
        | inr other ↦ rw other ih
        | inl same ↦
            let here = ap (λ x. elem x policy_line_list_fields) ((==_iff k name).0 same) ∙ listed in
            rw same (sym (slice_field-payloads lines k v here) ∙ sliced)
      ]

-- The slice of a policy for a batch has, in each field of payloads that is a list, exactly those
-- payloads whose line, their own or that of their opportunity, is one of the batch's, in their
-- order: none of them is lost, and none is added. The batch does not have the line -1.
pub filter_generation_policy_to_lines-Sliced :
    (to_int : Json → Option ℤ) (key_to_int : String → Option ℤ) (lines : List ℤ) (policy : Fields)
    (name : String) (js : Items) {slice : Fields}
    → elem (negsuc 0) lines ≡ false
    → elem name payload_fields ≡ true
    → get_field name policy ≡ array js
    → filter_generation_policy_to_lines to_int key_to_int lines policy ≡ some slice
    → (ks : Items) × (get_field name slice ≡ array ks) × Sliced to_int key_to_int lines js ks
filter_generation_policy_to_lines-Sliced to_int key_to_int lines policy name js {slice} positive
      listed here h =
    let kept = filter_items (in_batch to_int key_to_int lines) js in
    let sliced : slice_payloads to_int key_to_int lines (array js) ≡ some (get_field name slice) =
      ap (slice_payloads to_int key_to_int lines) (sym here)
      ∙ get_field-filter to_int key_to_int lines name policy listed h in
    (
      kept,
      ap (λ o. elim o [ some v ↦ v | none ↦ null ]) (sym sliced),
      filter_items-Sliced to_int key_to_int lines js positive,
    )
