-- ===== src/RepairProgress/Scenarios.antt =====
-- Repair loops on scores that are whole percentages.
use unit_test_agent.Prelude.{
  ℕ, ◌≤◌, ◌≡◌, refl, true, false, none, some, [], ◌∷◌, ltb, get, int, ℤ, pos, negsuc, arith,
}
use unit_test_agent.RepairProgress.{
  Floats, coverage, mutation, Scores, decide_repair_progress, improved_targets, CycleState,
  Projection, repair_round_available, apply_repair_progress,
}
use unit_test_agent.RepairProgress.Best.{AtLeast, decide_repair_progress-AtLeast}
use unit_test_agent.RepairProgress.Rounds.{
  IsFlat, turns_taken, turns_taken-hard_cap, decide_repair_progress-IsFlat,
  apply_repair_progress-repair_round_available,
}

abbrev size : ℤ → ℕ
size (pos n) = n
size (negsuc n) = 0

ltb_asym : (a b : ℕ) → ltb b a ≡ true → ltb a b ≡ false
ltb_asym a b h = ground arith

abbrev percents : Floats
percents = record {
  Score = ℕ;
  of_int = size;
  of_bits = λ bits. bits;
  gt = λ a b. ltb b a;
  exceeds = λ a b. ltb b a;
  gt_asym = ltb_asym;
}

abbrev first_scores : Scores percents
first_scores = ("A", 40) ∷ ("B", 70) ∷ []

abbrev lower_scores : Scores percents
lower_scores = ("A", 38) ∷ ("B", 70) ∷ []

-- A rise is granted a turn, and its best scores stay when the next measurement is lower.
kept_best :
    (decide_repair_progress percents mutation lower_scores first_scores 2 6 0).best_scores
    ≡ first_scores
unfolding decide_repair_progress
kept_best = refl

decide_repair_progress-AtLeast_example :
    (get "A" first_scores ≡ some 40
      → AtLeast percents 40 (
          get "A"
            (decide_repair_progress percents mutation lower_scores first_scores 2 6 0).best_scores))
    × (get "A" lower_scores ≡ some 40
        → AtLeast percents 40 (
            get "A"
              (decide_repair_progress percents mutation lower_scores first_scores 2 6
                0).best_scores))
decide_repair_progress-AtLeast_example =
    decide_repair_progress-AtLeast percents mutation lower_scores first_scores 2 6 0 "A" 40
      (refl, (refl, tt))

turns_taken-hard_cap_example :
    turns_taken percents coverage 2 (first_scores ∷ lower_scores ∷ lower_scores ∷ []) [] 0 0 ≤ 2
turns_taken-hard_cap_example =
    turns_taken-hard_cap percents coverage 2 (first_scores ∷ lower_scores ∷ lower_scores ∷ []) []

first-IsFlat : IsFlat percents lower_scores first_scores 1
first-IsFlat = record {
  no_improvement = unfold improved_targets in refl;
  measured = refl;
  tried = omega arith;
}

second-IsFlat :
    IsFlat percents lower_scores
      (decide_repair_progress percents mutation lower_scores first_scores 1 6 0).best_scores
      2
second-IsFlat = record {
  no_improvement = unfold decide_repair_progress improved_targets in refl;
  measured = refl;
  tried = omega arith;
}

decide_repair_progress-IsFlat_example :
    (decide_repair_progress percents mutation lower_scores
      (decide_repair_progress percents mutation lower_scores first_scores 1 6 0).best_scores
      2
      6
      (decide_repair_progress percents mutation lower_scores first_scores 1 6
        0).no_progress_turns).should_repair
    ≡ false
decide_repair_progress-IsFlat_example =
    decide_repair_progress-IsFlat percents mutation lower_scores lower_scores first_scores 1 2 6 6 0
      first-IsFlat second-IsFlat

abbrev spent_state : CycleState percents
spent_state = record {
  attempts_by_phase = ("fix_mutation", 6) ∷ [];
  max_attempts_by_phase = [];
  best_scores_by_phase = [];
  no_progress_by_phase = [];
  main_model = none;
}

abbrev asking : Projection percents
asking = record {
  phase_outcome = "repair";
  evidence = record {
    repair_kind = none;
    repair_phase = none;
    scores_by_target = ("A", int (pos 55)) ∷ [];
    failure_reason = none;
    progress = none;
  };
  steering = none;
}

apply_repair_progress-repair_round_available_example :
    (apply_repair_progress percents "measure_mutation" spent_state asking).phase_outcome ≡ "failed"
apply_repair_progress-repair_round_available_example =
    apply_repair_progress-repair_round_available percents "measure_mutation" mutation spent_state
      asking refl refl refl (unfold repair_round_available in refl)
