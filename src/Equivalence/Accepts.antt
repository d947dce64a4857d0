-- ===== src/Equivalence/Accepts.antt =====
-- Which review files `parse_verdicts` of uta/enforcement/equivalent_mutants.py accepts, and where it
-- raises.
use unit_test_agent.Prelude.{
  ℕ, String, ◌≡◌, ◌≢◌, refl, sym, ap, ◌∙◌, true, false, ◌||◌, Option, some, List, [], ◌∷◌, ◌++◌,
  arith, ◌==◌, string_eq, ==_iff, ==_refl, elem, Distinct, All, All-imp, any-false_of, set_beq_iff,
  Bool-cases, inl, inr, pos, suc, Json, int, object, Fields, get_field, ok, err,
}
use mathlib.Core.List.{append-nil, append_assoc}
use unit_test_agent.Equivalence.{
  Runtime, type_error, Verdict, equivalent, MutantVerdict, all_equivalent, verdict_from,
  read_fields, build_verdict, stripped, read_verdict, collect, conclude, not_equivalent,
  document_items, read_items, parse_verdicts,
}
use unit_test_agent.Equivalence.Reading.{verdict_keys, Excuses}

-- Each item of the file is read as the verdict at its place.
abbrev pub Reads : Runtime → List Json → List MutantVerdict → Type 0
Reads runtime [] [] = Unit
Reads runtime (j ∷ js) (v ∷ vs) = (verdict_from runtime j ≡ ok (some v)) × Reads runtime js vs
Reads runtime _ _ = ⊥

elem-All : (vs : List MutantVerdict) → All (λ v. elem v.key (verdict_keys vs) ≡ true) vs
elem-All [] = tt
elem-All (v ∷ vs) = (ground (arith, ==_refl v.key), All-imp vs (λ u h. ground arith) (elem-All vs))

fresh-All :
    (k : String) (seen : List String) (vs : List MutantVerdict)
    → All (λ v. elem v.key seen ≡ false) vs
    → elem k (verdict_keys vs) ≡ false
    → All (λ v. elem v.key (k ∷ seen) ≡ false) vs
fresh-All k seen [] h d = tt
fresh-All k seen (v ∷ vs) h d =
    (ground (arith, ==_iff k v.key, ==_iff v.key k), fresh-All k seen vs h.1 (ground arith))

equivalent-not_equivalent : (v : MutantVerdict) → v.verdict ≡ equivalent → not_equivalent v ≡ false
equivalent-not_equivalent v h = ground arith

module _ (runtime : Runtime) (expected : List String) where
  collect_step :
      (j : Json) (js : List Json) (v : MutantVerdict) (seen : List String)
      (acc : List MutantVerdict)
      → verdict_from runtime j ≡ ok (some v)
      → elem v.key expected ≡ true
      → elem v.key seen ≡ false
      → collect runtime expected (j ∷ js) seen acc
        ≡ collect runtime expected js (v.key ∷ seen) (acc ++ v ∷ [])
  unfolding collect
  collect_step j js v seen acc r e n = ground arith

  -- The loop reads every item when all keys are expected and none comes twice.
  collect-Reads :
      (js : List Json) (vs : List MutantVerdict) (seen : List String) (acc : List MutantVerdict)
      → Reads runtime js vs
      → All (λ v. elem v.key expected ≡ true) vs
      → All (λ v. elem v.key seen ≡ false) vs
      → Distinct (verdict_keys vs)
      → (seen' : List String) × (collect runtime expected js seen acc
          ≡ ok (some (seen', acc ++ vs)))
        × ((k : String) → elem k seen' ≡ (elem k seen || elem k (verdict_keys vs)))
  unfolding collect
  collect-Reads [] [] seen acc r e n d = (seen, rw append-nil, λ k. ground arith)
  collect-Reads [] (v ∷ vs) seen acc r e n d = absurd r
  collect-Reads (j ∷ js) [] seen acc r e n d = absurd r
  collect-Reads (j ∷ js) (v ∷ vs) seen acc r e n d =
      let (seen', read, same) =
        collect-Reads js vs (v.key ∷ seen) (acc ++ v ∷ []) r.1 e.1 (fresh-All v.key seen vs n.1 d.0)
          d.1 in
      (
        seen',
        collect_step j js v seen acc r.0 e.0 n.0 ∙ read ∙ rw append_assoc,
        λ k. ground (arith, same k),
      )

conclude-Excuses_complete :
    (expected seen : List String) (vs : List MutantVerdict)
    → ((k : String) → elem k seen ≡ elem k (verdict_keys vs))
    → Excuses expected vs
    → conclude expected (some (seen, vs))
      ≡ record { outcome = all_equivalent; reason = ""; verdicts = vs }
unfolding conclude
conclude-Excuses_complete expected seen vs same x = rw (
  (set_beq_iff seen expected).1 (λ k. same k ∙ x.exact k),
  any-false_of not_equivalent vs (All-imp vs equivalent-not_equivalent x.equivalents),
)

-- A review file that has, for each expected mutant, one argued `equivalent` verdict, and no other
-- item, is accepted: the outcome is `all_equivalent` with those verdicts in the file's order.
pub parse_verdicts_complete :
    (runtime : Runtime) (payload : Option String) (expected : List String) (js : List Json)
    (vs : List MutantVerdict)
    → document_items runtime payload ≡ some js
    → Reads runtime js vs
    → Excuses expected vs
    → parse_verdicts runtime payload expected
      ≡ ok (record { outcome = all_equivalent; reason = ""; verdicts = vs })
unfolding parse_verdicts
parse_verdicts_complete runtime payload expected js vs found reads x =
    let (seen, read, same) =
      collect-Reads runtime expected js vs [] [] reads
        (All-imp vs (λ v m. sym (x.exact v.key) ∙ m) (elem-All vs)) (none-seen vs) x.once in
    rw (found, read_items, read) (ap ok (conclude-Excuses_complete expected seen vs same x))
  where
    none-seen : (us : List MutantVerdict) → All (λ v. elem v.key [] ≡ false) us
    none-seen [] = tt
    none-seen (u ∷ us) = (refl, none-seen us)

read_fields-raises :
    (runtime : Runtime) (key : String) (v : Verdict) (fs : Fields) (n : ℕ)
    → key ≢ ""
    → get_field "source_lines" fs ≡ int (pos (suc n))
    → read_fields runtime key (some v) fs ≡ err type_error
unfolding read_fields build_verdict
read_fields-raises runtime key v fs n named lines = elim (Bool-cases (key == "")) [
  | inl blank ↦ absurd (named ((==_iff key "").0 blank))
  | inr other ↦ rw (other, lines)
]

-- A review file whose first item names a mutant and a verdict, and whose `source_lines` is a
-- positive number in place of a list, raises `TypeError`: it is not read as a rejected review.
pub parse_verdicts-raises :
    (runtime : Runtime) (payload : Option String) (expected : List String) (fs : Fields)
    (js : List Json) (v : Verdict) (n : ℕ)
    → document_items runtime payload ≡ some (object fs ∷ js)
    → stripped runtime (get_field "key" fs) ≢ ""
    → read_verdict (runtime.lower (stripped runtime (get_field "verdict" fs))) ≡ some v
    → get_field "source_lines" fs ≡ int (pos (suc n))
    → parse_verdicts runtime payload expected ≡ err type_error
unfolding parse_verdicts
parse_verdicts-raises runtime payload expected fs js v n found named judged lines = rw (
  found,
  read_items,
  collect,
  verdict_from,
  judged,
  read_fields-raises runtime (stripped runtime (get_field "key" fs)) v fs n named lines,
)
