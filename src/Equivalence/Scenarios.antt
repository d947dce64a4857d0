-- ===== src/Equivalence/Scenarios.antt =====
-- Runs of the equivalence review on concrete files and results.
use unit_test_agent.Prelude.{
  String, ◌≡◌, ◌≢◌, ◌↔◌, refl, true, Option, none, some, [], ◌∷◌, ◌==◌, string_eq, length, pos,
  Json, text, int, array, object, nil, cons, end, field, strip, ok, err, if◌then◌else◌,
}
use mathlib.Core.Bool.{false≢true}
use package.text.Mathlib.TextEquality.{eq_iff}
use unit_test_agent.Equivalence
use unit_test_agent.Equivalence.{
  Runtime, TypeError, type_error, Verdict, equivalent, MutantIdentity, MutantVerdict,
  ScoringSurvivors, ReviewDecision, GrantDecision, Eligibility, ParsedVerdicts, all_equivalent,
  parse_verdicts, decide_grant, assess_eligibility, document_items, read_verdict, stripped, keys,
  all_keys, merged_fingerprints,
}
use unit_test_agent.Equivalence.Reading.{Excuses, parse_verdicts-Excuses}
use unit_test_agent.Equivalence.Accepts.{parse_verdicts_complete, parse_verdicts-raises}
use unit_test_agent.Equivalence.Grant.{
  Stands, IsPositive, Fits, decide_grant-Stands, assess_eligibility_iff,
}

abbrev argued_item : Json
argued_item = object (
    field "key" (text " m1 ") (
      field "verdict" (text "equivalent") (
        field "divergence_region" (text "x is 0") (
          field "why_indistinguishable" (text "both return 0")
            (field "source_lines" (array (cons (int (pos 4)) (cons (text "5") nil))) end)))))

abbrev numbered_item : Json
numbered_item = object (
    field "key" (text "m1")
      (field "verdict" (text "killable") (field "source_lines" (int (pos 4)) end)))

abbrev documents : String → Option Json
documents name =
    if name == "argued"
    then some (object (field "verdicts" (array (cons argued_item nil)) end))
    else if name == "numbered"
    then some (array (cons numbered_item nil))
    else none

abbrev sample_runtime : Runtime
sample_runtime = record { loads = documents; str = λ j. ""; lower = λ s. s }

abbrev argued_verdict : MutantVerdict
argued_verdict = record {
  key = "m1";
  verdict = equivalent;
  divergence_region = "x is 0";
  why_indistinguishable = "both return 0";
  source_lines = pos 4 ∷ [];
}

abbrev accepted : ParsedVerdicts
accepted = record { outcome = all_equivalent; reason = ""; verdicts = argued_verdict ∷ [] }

argued_file : parse_verdicts sample_runtime (some "argued") ("m1" ∷ []) ≡ ok accepted
unfolding parse_verdicts strip
argued_file = refl

missing_file :
    parse_verdicts sample_runtime none ("m1" ∷ [])
    ≡ ok (record { outcome = Equivalence.rejected; reason = "verdicts_invalid"; verdicts = [] })
unfolding parse_verdicts strip
missing_file = refl

parse_verdicts-Excuses_example : Excuses ("m1" ∷ []) (argued_verdict ∷ [])
parse_verdicts-Excuses_example =
    parse_verdicts-Excuses sample_runtime (some "argued") ("m1" ∷ []) accepted argued_file refl

parse_verdicts_complete_example :
    parse_verdicts sample_runtime (some "argued") ("m1" ∷ []) ≡ ok accepted
unfolding document_items Equivalence.verdict_from strip
parse_verdicts_complete_example =
    parse_verdicts_complete sample_runtime (some "argued") ("m1" ∷ []) (argued_item ∷ [])
      (argued_verdict ∷ []) refl (refl, tt) parse_verdicts-Excuses_example

parse_verdicts-raises_example :
    parse_verdicts sample_runtime (some "numbered") ("m1" ∷ []) ≡ err type_error
unfolding document_items stripped strip
parse_verdicts-raises_example =
    parse_verdicts-raises sample_runtime (some "numbered") ("m1" ∷ [])
      (field "key" (text "m1")
        (field "verdict" (text "killable") (field "source_lines" (int (pos 4)) end)))
      [] Equivalence.killable 3 refl (λ e. false≢true ((eq_iff "m1" "").1 e)) refl refl

abbrev survivor : MutantIdentity
survivor = record {
  key = "m1";
  source_path = "a.py";
  line = pos 4;
  operator = "op";
  description = "";
  mutation_diff = "";
}

abbrev sample_survivors : ScoringSurvivors
sample_survivors = record {
  language = "python";
  mutants = survivor ∷ [];
  unreviewed_scoring_failures = pos 0;
  source_fingerprints = ("a.py", "f1") ∷ [];
  mutation_rate = 0;
  mutation_gate = 0;
}

abbrev sample_review : ReviewDecision
sample_review = record {
  outcome = all_equivalent;
  reason = "";
  survivors = some sample_survivors;
  verdicts = argued_verdict ∷ [];
  verdicts_sha256 = "";
  agent_session_ref = [];
  model_id = "";
}

decide_grant-Stands_example :
    ((decide_grant (sample_review ∷ []) (some sample_survivors) true true true).granted ≡ true)
    ↔ Stands (sample_review ∷ []) (some sample_survivors) true true true
decide_grant-Stands_example =
    decide_grant-Stands (sample_review ∷ []) (some sample_survivors) true true true

granted_run :
    (decide_grant (sample_review ∷ []) (some sample_survivors) true true true).granted ≡ true
unfolding decide_grant
granted_run = refl

assess_eligibility_iff_example :
    ((assess_eligibility (some sample_survivors) (pos 5)).eligible ≡ true) ↔ (
      (s : ScoringSurvivors) × (some sample_survivors ≡ some s)
      × ¬ IsPositive s.unreviewed_scoring_failures
      × (s.mutants ≢ [])
      × Fits (length s.mutants) (pos 5))
assess_eligibility_iff_example = assess_eligibility_iff (some sample_survivors) (pos 5)
