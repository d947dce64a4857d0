-- ===== src/Equivalence/Reading.antt =====
-- What an accepted review file says: `parse_verdicts` of uta/enforcement/equivalent_mutants.py.
use unit_test_agent.Prelude.{
  String, ◌≡◌, refl, sym, ap, ◌∙◌, subst, ◌≢◌, true, false, Option, none, some, List, [], ◌∷◌, ◌++◌,
  map, arith, ◌==◌, string_eq, ==_iff, elem, Distinct, All, All-imp, All-append, any, any-false,
  set_beq, set_beq_iff, elem-append, Bool-cases, Option-cases, inl, inr, ℤ, Json, null, object,
  Fields, get_field, Result, ok, err, bind_ok,
}
use unit_test_agent.Equivalence.{
  Runtime, TypeError, Verdict, equivalent, killable, uncertain, MutantVerdict, ParsedVerdicts,
  all_equivalent, verdict_from, read_fields, admit, collect, conclude, not_equivalent,
  document_items, read_items, parse_verdicts, downgrade, build_verdict, stripped, read_verdict,
}

abbrev pub verdict_keys : List MutantVerdict → List String
verdict_keys = map (λ v. v.key)

-- An `equivalent` verdict names its divergence region and argues over it.
abbrev pub IsArgued : MutantVerdict → Type 0
IsArgued v = v.verdict ≡ equivalent → (v.divergence_region ≢ "") × (v.why_indistinguishable ≢ "")

-- Every expected mutant has one verdict, nothing else has, and each is an argued `equivalent`.
pub record Excuses (expected : List String) (verdicts : List MutantVerdict) : Type 0 where
  pub equivalents : All (λ v. v.verdict ≡ equivalent) verdicts
  pub argued : All IsArgued verdicts
  pub once : Distinct (verdict_keys verdicts)
  pub exact : (k : String) → elem k (verdict_keys verdicts) ≡ elem k expected

record IsReading (seen : List String) (verdicts : List MutantVerdict) : Type 0 where
  argued : All IsArgued verdicts
  once : Distinct (verdict_keys verdicts)
  same : (k : String) → elem k seen ≡ elem k (verdict_keys verdicts)

verdict_keys-append :
    (vs : List MutantVerdict) (v : MutantVerdict)
    → verdict_keys (vs ++ v ∷ []) ≡ verdict_keys vs ++ v.key ∷ []
verdict_keys-append [] v = refl
verdict_keys-append (u ∷ vs) v = ground (arith, verdict_keys-append vs v)

Distinct-append :
    (xs : List String) (x : String) → Distinct xs → elem x xs ≡ false → Distinct (xs ++ x ∷ [])
Distinct-append [] x d h = (refl, tt)
Distinct-append (y ∷ xs) x d h = (
  ground (arith, elem-append y xs (x ∷ []), ==_iff y x, ==_iff x y),
  Distinct-append xs x d.1 (ground arith),
)

downgrade-IsArgued :
    (verdict : Verdict) (region argument : String)
    → downgrade verdict region argument ≡ equivalent
    → (region ≢ "") × (argument ≢ "")
downgrade-IsArgued equivalent region argument h =
    ground (arith, ==_iff region "", ==_iff argument "")
downgrade-IsArgued killable region argument h = cc
downgrade-IsArgued uncertain region argument h = cc

build_verdict-IsArgued :
    (key : String) (verdict : Verdict) (region argument : String) (read : Result TypeError (List ℤ))
    (v : MutantVerdict)
    → build_verdict key verdict region argument read ≡ ok (some v)
    → IsArgued v
unfolding build_verdict
build_verdict-IsArgued key verdict region argument (ok lines) v h =
    λ e. ground (arith, downgrade-IsArgued verdict region argument)
build_verdict-IsArgued key verdict region argument (err x) v h = cc

admit-some :
    (expected seen : List String) (found : Option MutantVerdict) (v : MutantVerdict)
    → admit expected seen found ≡ some v
    → (found ≡ some v) × (elem v.key expected ≡ true) × (elem v.key seen ≡ false)
admit-some expected seen none v h = cc
admit-some expected seen (some u) v h = ground arith

grow-IsReading :
    (seen : List String) (verdicts : List MutantVerdict) (v : MutantVerdict)
    → IsReading seen verdicts
    → IsArgued v
    → elem v.key seen ≡ false
    → IsReading (v.key ∷ seen) (verdicts ++ v ∷ [])
grow-IsReading seen verdicts v r argued new = record {
  argued = All-append IsArgued verdicts (v ∷ []) r.argued (argued, tt);
  once =
      rw (verdict_keys-append verdicts v)
        (Distinct-append (verdict_keys verdicts) v.key r.once (sym (r.same v.key) ∙ new));
  same = λ k.
      rw (verdict_keys-append verdicts v, elem-append k (verdict_keys verdicts) (v.key ∷ []))
        (ground (arith, r.same k));
}

not_equivalent-equivalent : (v : MutantVerdict) → not_equivalent v ≡ false → v.verdict ≡ equivalent
not_equivalent-equivalent v h = ground arith

conclude-Excuses :
    (expected : List String) (reading : Option (List String × List MutantVerdict))
    → ((seen : List String) (verdicts : List MutantVerdict)
        → reading ≡ some (seen, verdicts)
        → IsReading seen verdicts)
    → (conclude expected reading).outcome ≡ all_equivalent
    → Excuses expected (conclude expected reading).verdicts
unfolding conclude
conclude-Excuses expected none r h = cc
conclude-Excuses expected (some (seen, verdicts)) r h = elim (Bool-cases (set_beq seen expected)) [
  | inr differs ↦ cc (rw differs at h)
  | inl same ↦ elim (Bool-cases (any (not_equivalent) verdicts)) [
    | inl some_other ↦ cc (rw (same, some_other) at h)
    | inr none_other ↦
        let m = r seen verdicts refl in
        rw (same, none_other)
          (record {
            equivalents =
                All-imp verdicts not_equivalent-equivalent
                  (any-false not_equivalent verdicts none_other);
            argued = m.argued;
            once = m.once;
            exact = λ k. sym (m.same k) ∙ (set_beq_iff seen expected).0 same k;
          })
  ]
]

module _ (runtime : Runtime) where
  read_fields-IsArgued :
      (key : String) (verdict : Option Verdict) (fs : Fields) (v : MutantVerdict)
      → read_fields runtime key verdict fs ≡ ok (some v)
      → IsArgued v
  unfolding read_fields
  read_fields-IsArgued key none fs v h = cc
  read_fields-IsArgued key (some verdict) fs v h = elim (Bool-cases (key == "")) [
    | inl blank ↦ cc (rw blank at h)
    | inr named ↦ build_verdict-IsArgued key verdict _ _ _ v (rw named at h)
  ]

  verdict_from-IsArgued :
      (item : Json) (v : MutantVerdict) → verdict_from runtime item ≡ ok (some v) → IsArgued v
  unfolding verdict_from
  verdict_from-IsArgued (object fs) v h =
      read_fields-IsArgued (stripped runtime (get_field "key" fs))
        (read_verdict (runtime.lower (stripped runtime (get_field "verdict" fs)))) fs v h
  verdict_from-IsArgued null v h = cc
  verdict_from-IsArgued _ v h = cc

  collect-IsReading :
      (expected : List String) (js : List Json) (seen : List String) (verdicts : List MutantVerdict)
      → IsReading seen verdicts
      → {reading : List String × List MutantVerdict}
      → collect runtime expected js seen verdicts ≡ ok (some reading)
      → IsReading reading.0 reading.1
  unfolding collect
  collect-IsReading expected [] seen verdicts r {reading} h =
      let e : (seen, verdicts) ≡ reading = cc in subst (λ p. IsReading p.0 p.1) e r
  collect-IsReading expected (j ∷ js) seen verdicts r h =
      let (found, from, rest) = bind_ok (verdict_from runtime j) _ h in
      elim (Option-cases (admit expected seen found)) [
        | inl stopped ↦ cc (rw stopped at rest)
        | inr (v, kept) ↦
            let (e, _, new) = admit-some expected seen found v kept in
            collect-IsReading expected js (v.key ∷ seen) (verdicts ++ v ∷ [])
              (grow-IsReading seen verdicts v r (verdict_from-IsArgued j v (from ∙ ap ok e)) new)
              (rw kept at rest)
      ]

  read_items-Excuses :
      (expected : List String) (js : Option (List Json)) {p : ParsedVerdicts}
      → read_items runtime expected js ≡ ok p
      → p.outcome ≡ all_equivalent
      → Excuses expected p.verdicts
  unfolding read_items
  read_items-Excuses expected none h a = cc
  read_items-Excuses expected (some js) {p} h a =
      let (reading, read, e) = bind_ok (collect runtime expected js [] []) _ h in
      let q : conclude expected reading ≡ p = cc in
      subst (λ p. p.outcome ≡ all_equivalent → Excuses expected p.verdicts) q
        (conclude-Excuses expected reading λ seen verdicts s.
          collect-IsReading expected js [] [] (record { argued = tt; once = tt; same = λ k. refl })
            (read ∙ ap ok s))
        a

pub parse_verdicts-Excuses :
    (runtime : Runtime) (payload : Option String) (expected : List String) (p : ParsedVerdicts)
    → parse_verdicts runtime payload expected ≡ ok p
    → p.outcome ≡ all_equivalent
    → Excuses expected p.verdicts
unfolding parse_verdicts
parse_verdicts-Excuses runtime payload expected p h a =
    read_items-Excuses runtime expected (document_items runtime payload) h a
