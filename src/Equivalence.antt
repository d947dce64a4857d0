-- ===== src/Equivalence.antt =====
-- uta/enforcement/equivalent_mutants.py: may surviving mutants be excused as equivalent?
-- The review file is read from the value that `json.loads` returns. The runtime's text functions
-- (`json.loads`, `str` of a value that is no text, `str.lower`) are the parameter `Runtime`.
mod Reading
mod Grant
mod Accepts
mod Scenarios
use unit_test_agent.Prelude.{
  ℕ, String, Bool, true, false, ◌&&◌, ◌||◌, not, Option, none, some, List, [], ◌∷◌, ◌++◌, map, ltb,
  if◌then◌else◌, ◌==◌, string_eq, length, any, elem, set_beq, Dict, update, dict_beq, ℤ, pos,
  negsuc, Json, null, bool, int, float, text, array, object, Items, Fields, items, get_field,
  truthy, strip, Result, ok, err, ◌>>=◌,
}

pub record Runtime : Type 0 where
  pub loads : String → Option Json
  pub str : Json → String
  pub lower : String → String

pub data TypeError : Type 0 where
  type_error : TypeError

pub data Verdict : Type 0 where
  equivalent killable uncertain : Verdict

pub data ReviewOutcome : Type 0 where
  all_equivalent rejected ineligible : ReviewOutcome

pub record MutantIdentity : Type 0 where
  pub key : String
  pub source_path : String
  pub line : ℤ
  pub operator : String
  pub description : String
  pub mutation_diff : String

-- The two rates are floats, by their bit patterns.
pub record ScoringSurvivors : Type 0 where
  pub language : String
  pub mutants : List MutantIdentity
  pub unreviewed_scoring_failures : ℤ
  pub source_fingerprints : Dict String
  pub mutation_rate : ℕ
  pub mutation_gate : ℕ

unfoldable pub keys : ScoringSurvivors → List String
keys s = map (λ m. m.key) s.mutants

pub record MutantVerdict : Type 0 where
  pub key : String
  pub verdict : Verdict
  pub divergence_region : String
  pub why_indistinguishable : String
  pub source_lines : List ℤ

pub record Eligibility : Type 0 where
  pub eligible : Bool
  pub reason : String

pub record ParsedVerdicts : Type 0 where
  pub outcome : ReviewOutcome
  pub reason : String
  pub verdicts : List MutantVerdict

pub record ReviewDecision : Type 0 where
  pub outcome : ReviewOutcome
  pub reason : String
  pub survivors : Option ScoringSurvivors
  pub verdicts : List MutantVerdict
  pub verdicts_sha256 : String
  pub agent_session_ref : Dict String
  pub model_id : String

pub record GrantDecision : Type 0 where
  pub granted : Bool
  pub reason : String

abbrev is_positive : ℤ → Bool
is_positive (pos n) = ltb 0 n
is_positive (negsuc n) = false

abbrev is_nonzero : ℤ → Bool
is_nonzero (pos n) = ltb 0 n
is_nonzero (negsuc n) = true

abbrev ineligible_for : String → Eligibility
ineligible_for reason = record { eligible = false; reason = reason }

-- `len(survivors.mutants) > int(cap)`, at a cap that may be negative
abbrev over : ℕ → ℤ → Bool
over n (pos limit) = ltb limit n
over n (negsuc limit) = true

abbrev no_mutants : List MutantIdentity → Bool
no_mutants [] = true
no_mutants (_ ∷ _) = false

unfoldable pub assess_eligibility : Option ScoringSurvivors → ℤ → Eligibility
assess_eligibility none limit = ineligible_for "survivors_unproven"
assess_eligibility (some s) limit =
    if is_positive s.unreviewed_scoring_failures
    then ineligible_for "unreviewed_scoring_failures"
    else if no_mutants s.mutants
    then ineligible_for "no_survivors"
    else if over (length s.mutants) limit
    then ineligible_for "over_cap"
    else record { eligible = true; reason = "" }

abbrev pub read_verdict : String → Option Verdict
read_verdict s =
    if s == "equivalent"
    then some equivalent
    else if s == "killable"
    then some killable
    else if s == "uncertain"
    then some uncertain
    else none

-- An `equivalent` with no region or no argument over it becomes `uncertain`.
abbrev downgrade : Verdict → String → String → Verdict
downgrade equivalent region argument =
    if region == "" || argument == "" then uncertain else equivalent
downgrade v region argument = v

abbrev whole_numbers : List Json → List ℤ
whole_numbers [] = []
whole_numbers (int n ∷ js) = n ∷ whole_numbers js
whole_numbers (_ ∷ js) = whole_numbers js

-- Iterating over a text or an object yields texts, over any other value but a list it raises.
abbrev iterate_lines : Json → Result TypeError (List ℤ)
iterate_lines (array js) = ok (whole_numbers (items js))
iterate_lines (text s) = ok []
iterate_lines (object fs) = ok []
iterate_lines _ = err type_error

abbrev read_lines : Json → Result TypeError (List ℤ)
read_lines v = if truthy v then iterate_lines v else ok []

build_verdict :
    String
    → Verdict
    → String
    → String
    → Result TypeError (List ℤ)
    → Result TypeError (Option MutantVerdict)
build_verdict key verdict region argument read = do
  lines ← read
  ok (
      some (record {
        key = key;
        verdict = downgrade verdict region argument;
        divergence_region = region;
        why_indistinguishable = argument;
        source_lines = lines;
      }))

-- The test of the loop: an item that may not be used ends the reading.
abbrev admit : List String → List String → Option MutantVerdict → Option MutantVerdict
admit expected seen none = none
admit expected seen (some v) = if not (elem v.key expected) || elem v.key seen then none else some v

abbrev not_equivalent : MutantVerdict → Bool
not_equivalent v = elim v.verdict [ equivalent ↦ false | _ ↦ true ]

abbrev rejection : String → List MutantVerdict → ParsedVerdicts
rejection reason verdicts = record { outcome = rejected; reason = reason; verdicts = verdicts }

conclude : List String → Option (List String × List MutantVerdict) → ParsedVerdicts
conclude expected none = rejection "verdicts_invalid" []
conclude expected (some (seen, verdicts)) =
    if not (set_beq seen expected)
    then rejection "verdicts_incomplete" verdicts
    else if any not_equivalent verdicts
    then rejection "verdict_not_equivalent" verdicts
    else record { outcome = all_equivalent; reason = ""; verdicts = verdicts }

abbrev as_list : Json → Option (List Json)
as_list (array js) = some (items js)
as_list _ = none

abbrev verdict_items : Json → Option (List Json)
verdict_items (object fs) = as_list (get_field "verdicts" fs)
verdict_items document = as_list document

module _ (runtime : Runtime) where
  -- `str(v or "").strip()`
  abbrev str_of : Json → String
  str_of (text s) = s
  str_of v = runtime.str v

  pub stripped : Json → String
  stripped v = strip (if truthy v then str_of v else "")

  read_fields : String → Option Verdict → Fields → Result TypeError (Option MutantVerdict)
  read_fields key none fs = ok none
  read_fields key (some verdict) fs =
      if key == ""
      then ok none
      else build_verdict key verdict (stripped (get_field "divergence_region" fs))
          (stripped (get_field "why_indistinguishable" fs))
          (read_lines (get_field "source_lines" fs))

  pub verdict_from : Json → Result TypeError (Option MutantVerdict)
  unfolding read_fields stripped build_verdict
  verdict_from (object fs) =
      read_fields (stripped (get_field "key" fs))
        (read_verdict (runtime.lower (stripped (get_field "verdict" fs)))) fs
  verdict_from _ = ok none

  -- `none` is the early return of the loop.
  collect :
      List String
      → List Json
      → List String
      → List MutantVerdict
      → Result TypeError (Option (List String × List MutantVerdict))
  collect expected [] seen verdicts = ok (some (seen, verdicts))
  collect expected (item ∷ rest) seen verdicts = verdict_from item >>= λ found.
      elim (admit expected seen found) [
        | none ↦ ok none
        | some v ↦ collect expected rest (v.key ∷ seen) (verdicts ++ v ∷ [])
      ]

  -- A missing file is the document `None`; a text that does not parse has no document.
  pub document_items : Option String → Option (List Json)
  document_items none = verdict_items null
  document_items (some payload) = elim (runtime.loads payload) [
    | some j ↦ verdict_items j
    | none ↦ none
  ]

  read_items : List String → Option (List Json) → Result TypeError ParsedVerdicts
  read_items expected none = ok (rejection "verdicts_invalid" [])
  read_items expected (some js) = do
    reading ← collect expected js [] []
    ok (conclude expected reading)

  unfoldable pub parse_verdicts : Option String → List String → Result TypeError ParsedVerdicts
  unfolding read_items document_items collect conclude verdict_from
  parse_verdicts payload expected_keys = read_items expected_keys (document_items payload)

abbrev refuse : String → GrantDecision
refuse reason = record { granted = false; reason = reason }

-- The test that every review is `all_equivalent` with survivors, and those survivors.
reviewed_survivors : List ReviewDecision → Option (List ScoringSurvivors)
reviewed_survivors [] = some []
reviewed_survivors (r ∷ rs) = elim r.outcome [
  | all_equivalent ↦ elim r.survivors [
    | none ↦ none
    | some s ↦ elim (reviewed_survivors rs) [ none ↦ none | some ss ↦ some (s ∷ ss) ]
  ]
  | _ ↦ none
]

unfoldable pub all_keys : List ScoringSurvivors → List String
unfolding keys
all_keys [] = []
all_keys (s ∷ ss) = keys s ++ all_keys ss

unfoldable pub merged_fingerprints : Dict String → List ScoringSurvivors → Dict String
merged_fingerprints d [] = d
merged_fingerprints d (s ∷ ss) = merged_fingerprints (update d s.source_fingerprints) ss

compare_fresh : List ScoringSurvivors → Option ScoringSurvivors → GrantDecision
unfolding keys all_keys merged_fingerprints
compare_fresh reviewed none = refuse "survivors_unproven"
compare_fresh reviewed (some fresh) =
    if is_nonzero fresh.unreviewed_scoring_failures
      || any (λ s. is_nonzero s.unreviewed_scoring_failures) reviewed
    then refuse "unreviewed_scoring_failures"
    else if not (set_beq (keys fresh) (all_keys reviewed))
    then refuse "survivor_set_changed"
    else if not (dict_beq fresh.source_fingerprints (merged_fingerprints [] reviewed))
    then refuse "fingerprint_changed"
    else record { granted = true; reason = "" }

abbrev no_reviews : List ReviewDecision → Bool
no_reviews [] = true
no_reviews (_ ∷ _) = false

unfoldable pub decide_grant :
    List ReviewDecision → Option ScoringSurvivors → Bool → Bool → Bool → GrantDecision
unfolding reviewed_survivors compare_fresh
decide_grant reviews fresh tests_passed coverage_passed mutation_only_failure =
    if no_reviews reviews then refuse "no_review" else elim (reviewed_survivors reviews) [
      | none ↦ refuse "review_not_all_equivalent"
      | some reviewed ↦
          if not tests_passed
          then refuse "tests_failed"
          else if not coverage_passed
          then refuse "coverage_failed"
          else if not mutation_only_failure
          then refuse "not_mutation_only"
          else compare_fresh reviewed fresh
    ]
