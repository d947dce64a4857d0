-- ===== src/RepairProgress.antt =====
-- When a repair loop that is driven by scores goes on: uta/testgen/repair_progress.py. A float is a
-- value of a type that the interface `Floats` gives with its comparisons.
pub mod Rounds
pub mod Best
mod Scenarios
use unit_test_agent.Prelude.{
  ℕ, String, ◌+◌, ◌≡◌, Bool, true, false, ◌&&◌, ◌||◌, not, Option, none, some, List, [], ◌∷◌, ◌++◌,
  ltb, leb, ◌==◌, string_eq, nat_eq, if◌then◌else◌, Dict, get, get_or, put, has_key, ℤ, Json, null,
  bool, int, float, text, array, object, ◌+++◌,
}

-- What the policy uses of floats, and the laws of their order that its theorems need: they hold for
-- IEEE 754 numbers, a NaN included. `exceeds a b` is `a > b + 0.05`, in floating point.
pub record Floats : Type 1 where
  pub Score : Type 0
  pub of_int : ℤ → Score
  pub of_bits : ℕ → Score
  pub gt : Score → Score → Bool
  pub exceeds : Score → Score → Bool
  pub gt_asym : (a b : Score) → gt a b ≡ true → gt b a ≡ false

pub data RepairKind : Type 0 where
  coverage mutation : RepairKind

abbrev pub kind_name : RepairKind → String
kind_name coverage = "coverage"
kind_name mutation = "mutation"

-- `SCORE_DRIVEN_PHASES.get(phase)`
abbrev pub score_driven_phase : String → Option RepairKind
score_driven_phase phase =
    if phase == "measure_coverage"
    then some coverage
    else if phase == "measure_mutation"
    then some mutation
    else none

-- `RepairKind(declared)`, for one of the two kinds.
abbrev pub declared_kind : Option String → Option RepairKind
declared_kind none = none
declared_kind (some k) =
    if k == "coverage" then some coverage else if k == "mutation" then some mutation else none

abbrev pub repair_phase_for : RepairKind → String
repair_phase_for kind = "fix_" +++ kind_name kind

abbrev pub default_hard_cap : ℕ
default_hard_cap = 6

module _ (floats : Floats) where
  abbrev pub Scores : Type 0
  Scores = Dict floats.Score

  -- `max(a, b)`: the second only if it is greater.
  abbrev pub larger : floats.Score → floats.Score → floats.Score
  larger a b = if floats.gt b a then b else a

  -- `_scores`: what is not a number is dropped, a Boolean too.
  abbrev pub scores_of : Dict Json → Scores
  scores_of [] = []
  scores_of ((target, int n) ∷ d) = (target, floats.of_int n) ∷ scores_of d
  scores_of ((target, float bits) ∷ d) = (target, floats.of_bits bits) ∷ scores_of d
  scores_of ((target, _) ∷ d) = scores_of d

  pub record RepairProgressDecision : Type 0 where
    pub should_repair : Bool
    pub failure_reason : String
    pub best_scores : Scores
    pub improved : List String
    pub no_progress_turns : ℕ

  -- `target not in best or score > best[target] + IMPROVEMENT_EPSILON`
  abbrev pub improves : Option floats.Score → floats.Score → Bool
  improves none score = true
  improves (some b) score = floats.exceeds score b

  -- `max(score, best.get(target, score))`
  abbrev pub best_of : Option floats.Score → floats.Score → floats.Score
  best_of none score = larger score score
  best_of (some b) score = larger score b

  -- The loop over the scores: the improved targets, and the best scores after it.
  unfoldable pub improved_targets : Scores → Scores → List String
  improved_targets [] best = []
  improved_targets ((t, s) ∷ scores) best =
      let rest = improved_targets scores (put t (best_of (get t best) s) best) in
      if improves (get t best) s then t ∷ rest else rest

  unfoldable pub best_after : Scores → Scores → Scores
  best_after [] best = best
  best_after ((t, s) ∷ scores) best = best_after scores (put t (best_of (get t best) s) best)

  abbrev pub is_empty {ℓ} : {A : Type ℓ} → List A → Bool
  is_empty [] = true
  is_empty (x ∷ xs) = false

  abbrev pub streak_after : List String → Scores → ℕ → ℕ → ℕ
  streak_after [] scores attempts previous =
      if not (is_empty scores) && ltb 0 attempts then previous + 1 else previous
  streak_after (t ∷ ts) scores attempts previous = 0

  unfoldable pub decide_repair_progress :
      RepairKind → Scores → Scores → ℕ → ℕ → ℕ → RepairProgressDecision
  unfolding improved_targets best_after
  decide_repair_progress kind scores previous_best attempts hard_cap previous_no_progress =
      let improved = improved_targets scores previous_best in
      let best = best_after scores previous_best in
      let streak = streak_after improved scores attempts previous_no_progress in
      if leb hard_cap attempts
      then record {
        should_repair = false;
        failure_reason = kind_name kind +++ "_repair_attempts_exhausted";
        best_scores = best;
        improved = improved;
        no_progress_turns = streak;
      }
      else if is_empty improved && not (is_empty scores) && leb 2 streak
      then record {
        should_repair = false;
        failure_reason = kind_name kind +++ "_repair_no_progress";
        best_scores = best;
        improved = improved;
        no_progress_turns = streak;
      }
      else record {
        should_repair = true;
        failure_reason = "";
        best_scores = best;
        improved = improved;
        no_progress_turns = streak;
      }

  -- What the policy reads of the state of a cycle.
  pub record CycleState : Type 0 where
    pub attempts_by_phase : Dict ℕ
    pub max_attempts_by_phase : Dict ℕ
    pub best_scores_by_phase : Dict Scores
    pub no_progress_by_phase : Dict ℕ
    pub main_model : Option String

  -- The evidence of a backend, and what the policy writes into it.
  pub record Evidence : Type 0 where
    pub repair_kind : Option String
    pub repair_phase : Option String
    pub scores_by_target : Dict Json
    pub failure_reason : Option String
    pub progress : Option (ℕ × ℕ × RepairProgressDecision)

  -- What the policy adds to the result for the next turn.
  pub record Steering : Type 0 where
    pub effort_strategy : String
    pub model_id : Option String
    pub best_scores_by_phase : Dict Scores
    pub no_progress_by_phase : Dict ℕ
    pub has_feedback : Bool

  pub record Projection : Type 0 where
    pub phase_outcome : String
    pub evidence : Evidence
    pub steering : Option Steering

  abbrev pub round_left : Option RepairKind → CycleState → Bool
  round_left none state = true
  round_left (some kind) state =
      ltb (get_or (repair_phase_for kind) 0 state.attempts_by_phase)
        (get_or (repair_phase_for kind) default_hard_cap state.max_attempts_by_phase)

  unfoldable pub repair_round_available : CycleState → String → Bool
  repair_round_available state phase = round_left (score_driven_phase phase) state

  abbrev pub or_kind : Option RepairKind → Option RepairKind → Option RepairKind
  or_kind none other = other
  or_kind (some kind) other = some kind

  -- `evidence.get("repair_phase")`, where the empty text counts as none.
  abbrev pub named_phase : Option String → Option String
  named_phase none = none
  named_phase (some p) = if p == "" then none else some p

  abbrev pub turn_phase : Option String → RepairKind → String
  turn_phase none kind = repair_phase_for kind
  turn_phase (some p) kind = p

  abbrev pub history_phase : Option String → RepairKind → String
  history_phase none kind = repair_phase_for kind
  history_phase (some p) kind = p +++ (":" +++ kind_name kind)

  unfoldable pub decision_for : CycleState → Projection → RepairKind → RepairProgressDecision
  unfolding decide_repair_progress
  decision_for state result kind =
      let named = named_phase result.evidence.repair_phase in
      let phase = turn_phase named kind in
      let history = history_phase named kind in
      decide_repair_progress kind (scores_of result.evidence.scores_by_target)
        (get_or history [] state.best_scores_by_phase) (get_or phase 0 state.attempts_by_phase)
        (get_or phase default_hard_cap state.max_attempts_by_phase)
        (get_or history 0 state.no_progress_by_phase)

  unfoldable pub judged : CycleState → Projection → RepairKind → Projection
  unfolding decision_for
  judged state result kind =
      let named = named_phase result.evidence.repair_phase in
      let phase = turn_phase named kind in
      let history = history_phase named kind in
      let decision = decision_for state result kind in
      let gives_up = result.phase_outcome == "repair" && not decision.should_repair in
      let repairs = result.phase_outcome == "repair" && decision.should_repair in
      let flat = repairs && ltb 0 decision.no_progress_turns in
      let scored = not (is_empty (scores_of result.evidence.scores_by_target)) in
      record {
        phase_outcome = if gives_up then "failed" else result.phase_outcome;
        evidence = record (result.evidence) {
          failure_reason =
              if gives_up then some decision.failure_reason else result.evidence.failure_reason;
          progress = some (
            get_or phase 0 state.attempts_by_phase,
            get_or phase default_hard_cap state.max_attempts_by_phase,
            decision,
          );
        };
        steering = some (record {
          effort_strategy = if flat && scored then "higher" else "default";
          model_id = if flat then state.main_model else none;
          best_scores_by_phase = put history decision.best_scores state.best_scores_by_phase;
          no_progress_by_phase =
              put history
                (if result.phase_outcome == "passed" then 0 else decision.no_progress_turns)
                state.no_progress_by_phase;
          has_feedback = flat && scored;
        });
      }

  abbrev pub apply_kind : Option RepairKind → CycleState → Projection → Projection
  apply_kind none state result = result
  apply_kind (some kind) state result =
      if result.phase_outcome == "passed" || result.phase_outcome == "repair"
      then judged state result kind
      else result

  unfoldable pub apply_repair_progress : String → CycleState → Projection → Projection
  unfolding judged
  apply_repair_progress phase state result =
      apply_kind (or_kind (score_driven_phase phase) (declared_kind result.evidence.repair_kind))
        state result
