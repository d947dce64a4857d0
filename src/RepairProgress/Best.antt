-- ===== src/RepairProgress/Best.antt =====
-- The best scores of uta/testgen/repair_progress.py.
use unit_test_agent.Prelude.{
  ℕ, String, ◌≡◌, refl, sym, ap, ◌∙◌, subst, ◌&&◌, not, leb, false, Option, none, some, List, [],
  ◌∷◌, ◌==◌, string_eq, ==_iff, Bool-cases, inl, inr, Dict, get, put, get-put, elem, Distinct,
}
use unit_test_agent.RepairProgress.{
  Floats, RepairKind, Scores, larger, best_of, best_after, improved_targets, decide_repair_progress,
  streak_after, is_empty,
}

abbrev pub targets {ℓ} : {V : Type ℓ} → Dict V → List String
targets [] = []
targets ((t, v) ∷ d) = t ∷ targets d

get-targets {ℓ} :
    {V : Type ℓ} (t : String) (d : Dict V) → elem t (targets d) ≡ false → get t d ≡ none
get-targets t [] h = refl
get-targets t ((j, v) ∷ d) h = elim (Bool-cases (j == t)) [
  | inl same ↦ absurd (cc (rw same at h))
  | inr other ↦ rw other (get-targets t d (rw other at h))
]

module _ (floats : Floats) where
  -- A target that was measured has the better of both scores.
  abbrev merged : Option floats.Score → Option floats.Score → Option floats.Score
  merged none best = best
  merged (some s) best = some (best_of floats best s)

  get-best_after :
      (t : String) (scores best : Scores floats)
      → Distinct (targets scores)
      → get t (best_after floats scores best) ≡ merged (get t scores) (get t best)
  unfolding best_after
  get-best_after t [] best distinct = refl
  get-best_after t ((j, s) ∷ scores) best distinct =
      let new = best_of floats (get j best) s in
      let later = get-best_after t scores (put j new best) distinct.1 in
      elim (Bool-cases (j == t)) [
        | inl same ↦
            let e = (==_iff j t).0 same in
            let unmeasured : get t scores ≡ none =
              get-targets t scores (ap (λ x. elem x (targets scores)) (sym e) ∙ distinct.0) in
            later
            ∙ ap (λ o. merged o (get t (put j new best))) unmeasured
            ∙ get-put j t new best
            ∙ rw same (ap (λ x. some (best_of floats (get x best) s)) e)
        | inr other ↦
            later ∙ rw other (ap (merged (get t scores)) (get-put j t new best ∙ rw other refl))
      ]

  gt_irrefl : (a : floats.Score) → floats.gt a a ≡ false
  gt_irrefl a = elim (Bool-cases (floats.gt a a)) [ inl h ↦ floats.gt_asym a a h | inr h ↦ h ]

  -- Neither of two scores is greater than the larger.
  larger-bound :
      (a b : floats.Score)
      → (floats.gt a (larger floats a b) ≡ false) × (floats.gt b (larger floats a b) ≡ false)
  larger-bound a b = elim (Bool-cases (floats.gt b a)) [
    | inl h ↦ rw h (floats.gt_asym b a h, gt_irrefl b)
    | inr h ↦ rw h (gt_irrefl a, h)
  ]

  best_of-bound :
      (o : Option floats.Score) (s : floats.Score) → floats.gt s (best_of floats o s) ≡ false
  best_of-bound none s = (larger-bound s s).0
  best_of-bound (some b) s = (larger-bound s b).0

  abbrev pub AtLeast : floats.Score → Option floats.Score → Type 0
  AtLeast s best = (b : floats.Score) × (best ≡ some b) × (floats.gt s b ≡ false)

  merged-AtLeast_old : (o : Option floats.Score) (b : floats.Score) → AtLeast b (merged o (some b))
  merged-AtLeast_old none b = (b, refl, gt_irrefl b)
  merged-AtLeast_old (some s) b = (larger floats s b, refl, (larger-bound s b).1)

decided-best_after :
    (floats : Floats) (kind : RepairKind) (scores best : Scores floats)
    (attempts hard_cap streak : ℕ)
    → (decide_repair_progress floats kind scores best attempts hard_cap streak).best_scores
      ≡ best_after floats scores best
unfolding decide_repair_progress
decided-best_after floats kind scores best attempts hard_cap streak =
    elim (Bool-cases (leb hard_cap attempts)) [
      | inl spent ↦ rw spent
      | inr more ↦
          let improved = improved_targets floats scores best in
          elim (Bool-cases (
            is_empty floats improved
            && not (is_empty floats scores)
            && leb 2 (streak_after floats improved scores attempts streak))) [
              | inl flat ↦ rw (more, flat)
              | inr rising ↦ rw (more, rising)
            ]
    ]

-- The best score of a target after a decision is not below the best one before it, nor below the
-- score that was measured, whatever was decided. The measured targets are distinct.
pub decide_repair_progress-AtLeast :
    (floats : Floats) (kind : RepairKind) (scores best : Scores floats)
    (attempts hard_cap streak : ℕ) (t : String) (s : floats.Score)
    → Distinct (targets scores)
    → let d = decide_repair_progress floats kind scores best attempts hard_cap streak in
      (get t best ≡ some s → AtLeast floats s (get t d.best_scores))
      × (get t scores ≡ some s → AtLeast floats s (get t d.best_scores))
unfolding decide_repair_progress
decide_repair_progress-AtLeast floats kind scores best attempts hard_cap streak t s distinct = (
  λ h.
      subst (AtLeast floats s)
        (sym (
          always
            (get-best_after floats t scores best distinct ∙ ap (merged floats (get t scores)) h)))
        (merged-AtLeast_old floats (get t scores) s),
  λ h. (
    best_of floats (get t best) s,
    always
        (get-best_after floats t scores best distinct ∙ ap (λ o. merged floats o (get t best)) h),
    best_of-bound floats (get t best) s,
  ),
)
  where
    always :
        {o : Option floats.Score}
        → get t (best_after floats scores best) ≡ o
        → get t
            (decide_repair_progress floats kind scores best attempts hard_cap streak).best_scores
          ≡ o
    always e = ap (get t) (decided-best_after floats kind scores best attempts hard_cap streak) ∙ e
