-- ===== src/Equivalence/Grant.antt =====
-- When a fresh gate result is excused: `decide_grant` of uta/enforcement/equivalent_mutants.py.
use unit_test_agent.Prelude.{
  ℕ, String, ◌≡◌, ◌≢◌, ◌↔◌, refl, Bool, true, false, Option, none, some, List, [], ◌∷◌, arith,
  string_eq, elem, All, any, any-false, All-imp, any-false_of, set_beq, set_beq_iff, Option-cases,
  inl, inr, dict_beq, ℤ, pos, negsuc, length, ◌<◌, ◌≤◌,
}
use unit_test_agent.Equivalence.{
  MutantIdentity, ReviewDecision, ScoringSurvivors, all_equivalent, is_nonzero, reviewed_survivors,
  keys, all_keys, merged_fingerprints, compare_fresh, no_reviews, decide_grant, assess_eligibility,
  over, no_mutants, is_positive,
}

-- The saved reviews each found every survivor equivalent; the survivors that they reviewed.
abbrev pub Reviewed : List ReviewDecision → List ScoringSurvivors → Type 0
Reviewed [] [] = Unit
Reviewed (r ∷ rs) (s ∷ ss) = (r.outcome ≡ all_equivalent) × (r.survivors ≡ some s) × Reviewed rs ss
Reviewed _ _ = ⊥

-- What a grant rests on: the fresh run counts the reviewed mutants and no other, on the reviewed
-- sources, and nothing else lowers its score or fails.
pub record Stands (reviews : List ReviewDecision) (fresh : Option ScoringSurvivors)
    (tests coverage only : Bool) : Type 0 where
  pub run : ScoringSurvivors
  pub reviewed : List ScoringSurvivors
  pub fresh_run : fresh ≡ some run
  pub some_review : reviews ≢ []
  pub all_reviewed : Reviewed reviews reviewed
  pub tests_passed : tests ≡ true
  pub coverage_passed : coverage ≡ true
  pub mutation_only : only ≡ true
  pub nothing_else : run.unreviewed_scoring_failures ≡ pos 0
  pub nothing_else_reviewed : All (λ s. s.unreviewed_scoring_failures ≡ pos 0) reviewed
  pub same_mutants : (k : String) → elem k (keys run) ≡ elem k (all_keys reviewed)
  pub same_sources : dict_beq run.source_fingerprints (merged_fingerprints [] reviewed) ≡ true

reviewed_survivors-Reviewed :
    (rs : List ReviewDecision) (ss : List ScoringSurvivors)
    → reviewed_survivors rs ≡ some ss
    → Reviewed rs ss
unfolding reviewed_survivors
reviewed_survivors-Reviewed [] [] h = tt
reviewed_survivors-Reviewed [] (s ∷ ss) h = cc
reviewed_survivors-Reviewed (r ∷ rs) [] h = ground arith
reviewed_survivors-Reviewed (r ∷ rs) (s ∷ ss) h =
    (ground arith, ground arith, reviewed_survivors-Reviewed rs ss (ground arith))

Reviewed-reviewed_survivors :
    (rs : List ReviewDecision) (ss : List ScoringSurvivors)
    → Reviewed rs ss
    → reviewed_survivors rs ≡ some ss
unfolding reviewed_survivors
Reviewed-reviewed_survivors [] [] h = refl
Reviewed-reviewed_survivors [] (s ∷ ss) h = absurd h
Reviewed-reviewed_survivors (r ∷ rs) [] h = absurd h
Reviewed-reviewed_survivors (r ∷ rs) (s ∷ ss) h = ground (arith, Reviewed-reviewed_survivors rs ss)

is_nonzero-zero : (n : ℤ) → is_nonzero n ≡ false → n ≡ pos 0
is_nonzero-zero n h = ground arith

zero-is_nonzero : (n : ℤ) → n ≡ pos 0 → is_nonzero n ≡ false
zero-is_nonzero n h = ground arith

compare_fresh-conditions :
    (ss : List ScoringSurvivors) (f : ScoringSurvivors)
    → (compare_fresh ss (some f)).granted ≡ true
    → (is_nonzero f.unreviewed_scoring_failures ≡ false)
      × (any (λ s. is_nonzero s.unreviewed_scoring_failures) ss ≡ false)
      × (set_beq (keys f) (all_keys ss) ≡ true)
      × (dict_beq f.source_fingerprints (merged_fingerprints [] ss) ≡ true)
compare_fresh-conditions ss f h = unfold compare_fresh in ground arith

decide_grant-cases :
    (reviews : List ReviewDecision) (fresh : Option ScoringSurvivors) (tests coverage only : Bool)
    → (decide_grant reviews fresh tests coverage only).granted ≡ true
    → (ss : List ScoringSurvivors) × (reviewed_survivors reviews ≡ some ss)
      × (no_reviews reviews ≡ false)
      × (tests ≡ true)
      × (coverage ≡ true)
      × (only ≡ true)
      × ((compare_fresh ss fresh).granted ≡ true)
unfolding decide_grant
decide_grant-cases reviews fresh tests coverage only h =
    elim (Option-cases (reviewed_survivors reviews)) [
      | inl none_reviewed ↦ ground arith
      | inr (ss, e) ↦ (ss, e, ground arith, ground arith, ground arith, ground arith, ground arith)
    ]

compare_fresh-some :
    (ss : List ScoringSurvivors) (fresh : Option ScoringSurvivors)
    → (compare_fresh ss fresh).granted ≡ true
    → (f : ScoringSurvivors) × (fresh ≡ some f) × ((compare_fresh ss (some f)).granted ≡ true)
unfolding compare_fresh
compare_fresh-some ss none h = cc
compare_fresh-some ss (some f) h = (f, refl, h)

no_reviews-false : (rs : List ReviewDecision) → rs ≢ [] → no_reviews rs ≡ false
no_reviews-false [] h = absurd (h refl)
no_reviews-false (r ∷ rs) h = refl

Stands-grant :
    (reviews : List ReviewDecision) (fresh : Option ScoringSurvivors) (tests coverage only : Bool)
    → Stands reviews fresh tests coverage only
    → (decide_grant reviews fresh tests coverage only).granted ≡ true
unfolding decide_grant compare_fresh
Stands-grant reviews fresh tests coverage only s =
    let some_review = no_reviews-false reviews s.some_review in
    let saved = Reviewed-reviewed_survivors reviews s.reviewed s.all_reviewed in
    let zero = zero-is_nonzero s.run.unreviewed_scoring_failures s.nothing_else in
    let zeros : any (λ r. is_nonzero r.unreviewed_scoring_failures) s.reviewed ≡ false =
      any-false_of _ s.reviewed (
        All-imp s.reviewed (λ r e. zero-is_nonzero r.unreviewed_scoring_failures e)
          s.nothing_else_reviewed) in
    let mutants = (set_beq_iff (keys s.run) (all_keys s.reviewed)).1 s.same_mutants in
    rw (some_review, saved, s.tests_passed, s.coverage_passed, s.mutation_only, s.fresh_run)
      (rw (zero, zeros, mutants, s.same_sources))

-- A grant is given exactly when it stands: there is a review, all reviews called every survivor
-- equivalent, the tests and the coverage gate passed and nothing but the mutation gate failed, no
-- other mutant lowers the score in the fresh run or in a reviewed one, and the fresh run has the
-- reviewed mutants, no more and no fewer, on sources with the reviewed fingerprints.
pub decide_grant-Stands :
    (reviews : List ReviewDecision) (fresh : Option ScoringSurvivors) (tests coverage only : Bool)
    → ((decide_grant reviews fresh tests coverage only).granted ≡ true)
      ↔ Stands reviews fresh tests coverage only
decide_grant-Stands reviews fresh tests coverage only =
    (grant-Stands, Stands-grant reviews fresh tests coverage only)
  where
    grant-Stands :
        (decide_grant reviews fresh tests coverage only).granted ≡ true
        → Stands reviews fresh tests coverage only
    grant-Stands h =
        let (ss, saved, some_review, t, c, o, compared) =
          decide_grant-cases reviews fresh tests coverage only h in
        let (f, is_fresh, same) = compare_fresh-some ss fresh compared in
        let (zero_fresh, zero_reviewed, mutants, sources) = compare_fresh-conditions ss f same in
        record {
          run = f;
          reviewed = ss;
          fresh_run = is_fresh;
          some_review = λ e. ground (arith, some_review);
          all_reviewed = reviewed_survivors-Reviewed reviews ss saved;
          tests_passed = t;
          coverage_passed = c;
          mutation_only = o;
          nothing_else = is_nonzero-zero _ zero_fresh;
          nothing_else_reviewed =
              All-imp ss (λ s e. is_nonzero-zero _ e) (any-false _ ss zero_reviewed);
          same_mutants = (set_beq_iff (keys f) (all_keys ss)).0 mutants;
          same_sources = sources;
        }

-- Whether the sign of the number lets it pass: `> 0` in the source.
abbrev pub IsPositive : ℤ → Type 0
IsPositive (pos n) = 0 < n
IsPositive (negsuc n) = ⊥

abbrev pub Fits : ℕ → ℤ → Type 0
Fits n (pos limit) = n ≤ limit
Fits n (negsuc limit) = ⊥

is_positive_iff : (n : ℤ) → (is_positive n ≡ false) ↔ ¬ IsPositive n
is_positive_iff (pos n) = (λ h p. ground arith, λ h. ground arith)
is_positive_iff (negsuc n) = (λ h p. p, λ h. refl)

over_iff : (n : ℕ) (limit : ℤ) → (over n limit ≡ false) ↔ Fits n limit
over_iff n (pos limit) = (λ h. ground arith, λ h. ground arith)
over_iff n (negsuc limit) = (λ h. cc, λ h. absurd h)

no_mutants_iff : (ms : List MutantIdentity) → (no_mutants ms ≡ false) ↔ (ms ≢ [])
no_mutants_iff [] = (λ h e. cc, λ h. absurd (h refl))
no_mutants_iff (m ∷ ms) = (λ h e. cc, λ h. refl)

-- A result may be reviewed exactly when its survivors are proven, nothing unreviewed lowers its
-- score, and it has at least one mutant and at most the limit.
pub assess_eligibility_iff :
    (survivors : Option ScoringSurvivors) (limit : ℤ)
    → ((assess_eligibility survivors limit).eligible ≡ true) ↔ (
        (s : ScoringSurvivors) × (survivors ≡ some s)
        × ¬ IsPositive s.unreviewed_scoring_failures
        × (s.mutants ≢ [])
        × Fits (length s.mutants) limit)
unfolding assess_eligibility
assess_eligibility_iff none limit = (λ h. cc, λ (s, e, _, _, _). cc)
assess_eligibility_iff (some s) limit = (
  λ h. (
    s,
    refl,
    (is_positive_iff s.unreviewed_scoring_failures).0 (ground arith),
    (no_mutants_iff s.mutants).0 (ground arith),
    (over_iff (length s.mutants) limit).0 (ground arith),
  ),
  λ (t, e, rest, some_mutant, fits).
      let same : s ≡ t = cc in
      rw (
        same,
        (is_positive_iff t.unreviewed_scoring_failures).1 rest,
        (no_mutants_iff t.mutants).1 some_mutant,
        (over_iff (length t.mutants) limit).1 fits,
      ),
)
