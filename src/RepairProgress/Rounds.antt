-- ===== src/RepairProgress/Rounds.antt =====
-- How long a repair loop of uta/testgen/repair_progress.py goes on.
use unit_test_agent.Prelude.{
  ℕ, String, ◌+◌, ◌≤◌, ◌<◌, ◌≡◌, sym, ap, ◌∙◌, ◌&&◌, ◌||◌, not, leb, Bool, true, false, none, some,
  List, [], ◌∷◌, string_eq, if◌then◌else◌, Bool-cases, inl, inr, get_or, arith,
}
use unit_test_agent.RepairProgress.{
  Floats, RepairKind, Scores, improved_targets, decide_repair_progress, streak_after, is_empty,
  RepairProgressDecision, CycleState, Projection, score_driven_phase, declared_kind,
  repair_phase_for, default_hard_cap, repair_round_available, apply_repair_progress, judged,
  decision_for, round_left, apply_kind, or_kind, named_phase, turn_phase, history_phase, scores_of,
}

-- A measurement that could have improved a score, and improved none.
pub record IsFlat (floats : Floats) (scores best : Scores floats) (attempts : ℕ) : Type 0 where
  pub no_improvement : improved_targets floats scores best ≡ []
  pub measured : is_empty floats scores ≡ false
  pub tried : 0 < attempts

module _ (floats : Floats) (kind : RepairKind) where
  abbrev decide : Scores floats → Scores floats → ℕ → ℕ → ℕ → RepairProgressDecision floats
  decide scores best attempts hard_cap streak =
      decide_repair_progress floats kind scores best attempts hard_cap streak

  pub decided-streak_after :
      (scores best : Scores floats) (attempts hard_cap streak : ℕ)
      → (decide scores best attempts hard_cap streak).no_progress_turns
        ≡ streak_after floats (improved_targets floats scores best) scores attempts streak
  unfolding decide_repair_progress
  decided-streak_after scores best attempts hard_cap streak =
      elim (Bool-cases (leb hard_cap attempts)) [
        | inl spent ↦ rw spent
        | inr more ↦
            let improved = improved_targets floats scores best in
            elim (Bool-cases (
              is_empty floats improved
              && not (is_empty floats scores)
              && leb 2 (streak_after floats improved scores attempts streak))) [
                | inl flat ↦ rw (more, flat)
                | inr rising ↦ rw (more, rising)
              ]
      ]

  -- The attempts are spent, or nothing has improved for too long.
  decided_lem :
      (scores best : Scores floats) (attempts hard_cap streak : ℕ)
      → (decide scores best attempts hard_cap streak).should_repair
        ≡ not (
            leb hard_cap attempts
            || (is_empty floats (improved_targets floats scores best)
                && not (is_empty floats scores)
                && leb 2 (
                    streak_after floats
                      (improved_targets floats scores best)
                      scores
                      attempts
                      streak)))
  unfolding decide_repair_progress
  decided_lem scores best attempts hard_cap streak = elim (Bool-cases (leb hard_cap attempts)) [
    | inl spent ↦ rw spent
    | inr more ↦
        let improved = improved_targets floats scores best in
        elim (Bool-cases (
          is_empty floats improved
          && not (is_empty floats scores)
          && leb 2 (streak_after floats improved scores attempts streak))) [
            | inl flat ↦ rw (more, flat)
            | inr rising ↦ rw (more, rising)
          ]
  ]

  flat-streak_after :
      (scores best : Scores floats) (attempts streak : ℕ)
      → IsFlat floats scores best attempts
      → streak_after floats (improved_targets floats scores best) scores attempts streak
        ≡ streak + 1
  flat-streak_after scores best attempts streak flat =
      rw (flat.no_improvement, flat.measured) (ground (arith, flat.tried))

  -- How many repair turns a loop takes that measures before each, in the order given.
  unfoldable pub turns_taken : ℕ → List (Scores floats) → Scores floats → ℕ → ℕ → ℕ
  unfolding decide_repair_progress
  turns_taken hard_cap [] best attempts streak = 0
  turns_taken hard_cap (scores ∷ rest) best attempts streak =
      let d = decide scores best attempts hard_cap streak in
      let later = turns_taken hard_cap rest d.best_scores (attempts + 1) d.no_progress_turns in
      if d.should_repair then 1 + later else 0

  turns_taken-bound :
      (hard_cap : ℕ) (measurements : List (Scores floats)) (best : Scores floats)
      (attempts streak : ℕ)
      → attempts ≤ hard_cap
      → attempts + turns_taken hard_cap measurements best attempts streak ≤ hard_cap
  unfolding turns_taken
  turns_taken-bound hard_cap [] best attempts streak h = omega (arith, h)
  turns_taken-bound hard_cap (scores ∷ rest) best attempts streak h =
      let d = decide scores best attempts hard_cap streak in
      elim (Bool-cases d.should_repair) [
        | inr stops ↦ rw stops (omega (arith, h))
        | inl goes_on ↦
            let room : leb hard_cap attempts ≡ false =
              ground (arith, decided_lem scores best attempts hard_cap streak, goes_on) in
            let ih =
              turns_taken-bound hard_cap rest d.best_scores (attempts + 1) d.no_progress_turns
                (ground (arith, room)) in
            rw goes_on (omega (arith, ih))
      ]

-- A loop that measures before each repair turn takes at most as many turns as the ceiling allows,
-- whatever it measures.
pub turns_taken-hard_cap :
    (floats : Floats) (kind : RepairKind) (hard_cap : ℕ) (measurements : List (Scores floats))
    (best : Scores floats)
    → turns_taken floats kind hard_cap measurements best 0 0 ≤ hard_cap
turns_taken-hard_cap floats kind hard_cap measurements best =
    omega (arith, turns_taken-bound floats kind hard_cap measurements best 0 0 (omega arith))

-- After two measurements in a row that improved no score, each after a turn was spent, no further
-- repair is granted, whatever the streak and the ceilings were.
pub decide_repair_progress-IsFlat :
    (floats : Floats) (kind : RepairKind) (scores scores' best : Scores floats)
    (attempts attempts' hard_cap hard_cap' streak : ℕ)
    → let d = decide_repair_progress floats kind scores best attempts hard_cap streak in
      IsFlat floats scores best attempts
      → IsFlat floats scores' d.best_scores attempts'
      → (decide_repair_progress floats kind scores' d.best_scores attempts' hard_cap'
          d.no_progress_turns).should_repair
        ≡ false
decide_repair_progress-IsFlat floats kind scores scores' best attempts attempts' hard_cap hard_cap'
      streak flat flat' =
    let d = decide_repair_progress floats kind scores best attempts hard_cap streak in
    let once : d.no_progress_turns ≡ streak + 1 =
      decided-streak_after floats kind scores best attempts hard_cap streak
      ∙ flat-streak_after floats kind scores best attempts streak flat in
    let twice =
      flat-streak_after floats kind scores' d.best_scores attempts' d.no_progress_turns flat' in
    let improved = improved_targets floats scores' d.best_scores in
    decided_lem floats kind scores' d.best_scores attempts' hard_cap' d.no_progress_turns
    ∙ spent (leb hard_cap' attempts') (is_empty floats improved) (is_empty floats scores')
        (streak_after floats improved scores' attempts' d.no_progress_turns)
        (ap (is_empty floats) flat'.no_improvement) flat'.measured (omega (arith, once, twice))
  where
    spent :
        (b e m : Bool) (n : ℕ)
        → e ≡ true
        → m ≡ false
        → 2 ≤ n
        → not (b || (e && not m && leb 2 n)) ≡ false
    spent b e m n h k l = ground arith

judged-failed :
    (floats : Floats) (kind : RepairKind) (state : CycleState floats) (result : Projection floats)
    → result.phase_outcome ≡ "repair"
    → (decision_for floats state result kind).should_repair ≡ false
    → (judged floats state result kind).phase_outcome ≡ "failed"
unfolding judged
judged-failed floats kind state result asks refused = rw (asks, refused)

decided-spent :
    (floats : Floats) (kind : RepairKind) (scores best : Scores floats)
    (attempts hard_cap streak : ℕ)
    → leb hard_cap attempts ≡ true
    → (decide_repair_progress floats kind scores best attempts hard_cap streak).should_repair
      ≡ false
decided-spent floats kind scores best attempts hard_cap streak h =
    decided_lem floats kind scores best attempts hard_cap streak ∙ rw h

apply_kind-judged :
    (floats : Floats) (kind : RepairKind) (state : CycleState floats) (result : Projection floats)
    → result.phase_outcome ≡ "repair"
    → apply_kind floats (some kind) state result ≡ judged floats state result kind
apply_kind-judged floats kind state result asks = rw asks

decision_for-spent :
    (floats : Floats) (kind : RepairKind) (state : CycleState floats) (result : Projection floats)
    → named_phase floats result.evidence.repair_phase ≡ none
    → round_left floats (some kind) state ≡ false
    → (decision_for floats state result kind).should_repair ≡ false
unfolding decision_for
decision_for-spent floats kind state result own none_left =
    let named = named_phase floats result.evidence.repair_phase in
    let history = history_phase floats named kind in
    let phase = turn_phase floats named kind in
    decided-spent floats kind (scores_of floats result.evidence.scores_by_target)
      (get_or history [] state.best_scores_by_phase) (get_or phase 0 state.attempts_by_phase)
      (get_or phase default_hard_cap state.max_attempts_by_phase)
      (get_or history 0 state.no_progress_by_phase) (rw own spent)
  where
    spent :
        leb
          (get_or (repair_phase_for kind) default_hard_cap state.max_attempts_by_phase)
          (get_or (repair_phase_for kind) 0 state.attempts_by_phase)
        ≡ true
    spent = ground (arith, none_left)

-- When no repair round is left for a measuring phase, a result of it that asks for a repair, in the
-- phase's own turn counter, is turned into a failure.
pub apply_repair_progress-repair_round_available :
    (floats : Floats) (phase : String) (kind : RepairKind) (state : CycleState floats)
    (result : Projection floats)
    → score_driven_phase phase ≡ some kind
    → named_phase floats result.evidence.repair_phase ≡ none
    → result.phase_outcome ≡ "repair"
    → repair_round_available floats state phase ≡ false
    → (apply_repair_progress floats phase state result).phase_outcome ≡ "failed"
unfolding apply_repair_progress repair_round_available
apply_repair_progress-repair_round_available floats phase kind state result driven own asks
      none_left =
    ap (λ o. (apply_kind floats o state result).phase_outcome)
      (ap (λ o. or_kind floats o (declared_kind result.evidence.repair_kind)) driven)
    ∙ ap (λ r. r.phase_outcome) (apply_kind-judged floats kind state result asks)
    ∙ judged-failed floats kind state result asks (
        decision_for-spent floats kind state result own
          (ap (λ o. round_left floats o state) (sym driven) ∙ none_left))
