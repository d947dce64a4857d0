-- ===== src/Waves/Once.antt =====
-- What `assign_waves` of uta/testgen/wave_assigner.py plans.
use unit_test_agent.Prelude.{
  arith, String, Bool, true, false, ◌&&◌, ◌||◌, not, List, [], ◌∷◌, ◌++◌, map, All, All-imp,
  All-append, All-sort_by, All-insert_by, elem, elem-append, Distinct, Ordered, ◌==◌, nat_eq,
  string_eq, ==_iff, ==_refl, leb, sort_by, insert_by, Bool-cases, inl, inr, ◌≡◌, refl, ap, ◌∙◌,
  subst,
}
use unit_test_agent.Waves.{
  MethodWave, callable_name_wave, wave_names, waved, see, see_all, wave_le, assign_waves,
  normalize_callable_name,
}

-- Earlier waves come first.
abbrev pub earlier : MethodWave → MethodWave → Bool
earlier m n = leb m.wave n.wave

-- The plan has each name that is asked for once, and no other, with the wave of its name, and the
-- first wave stands in front of the second.
abbrev pub Planned : List String → List String → List MethodWave → Type 0
Planned verbs raws ms =
    Distinct (wave_names ms)
    × ((a : String)
        → elem a (wave_names ms) ≡ (not (a == "") && elem a (map normalize_callable_name raws)))
    × All (λ m. (m.wave, m.reason) ≡ callable_name_wave verbs m.name) ms
    × Ordered earlier ms

Distinct-snoc :
    (a : String) (xs : List String) → elem a xs ≡ false → Distinct xs → Distinct (xs ++ a ∷ [])
Distinct-snoc a [] out d = (refl, tt)
Distinct-snoc a (x ∷ xs) out d = (
  elem-append x xs (a ∷ []) ∙ ground (arith, ==_iff a x, ==_iff x a, d.0),
  Distinct-snoc a xs (ground arith) d.1,
)

wave_names-append :
    (ms : List MethodWave) (m : MethodWave)
    → wave_names (ms ++ m ∷ []) ≡ wave_names ms ++ m.name ∷ []
wave_names-append [] m = refl
wave_names-append (x ∷ xs) m = ap (λ ns. x.name ∷ ns) (wave_names-append xs m)

module _ (verbs : List String) where
  abbrev Fits : MethodWave → Type 0
  Fits m = (m.wave, m.reason) ≡ callable_name_wave verbs m.name

  -- A name is met.
  see-Distinct :
      (seen : List MethodWave) (name : String)
      → Distinct (wave_names seen)
      → Distinct (wave_names (see verbs seen name))
  see-Distinct seen name d = elim (Bool-cases (name == "" || elem name (wave_names seen))) [
    | inl h ↦ rw h d
    | inr h ↦
        rw (h, wave_names-append seen (waved verbs name))
          (Distinct-snoc name (wave_names seen) (ground arith) d)
  ]

  see-Fits :
      (seen : List MethodWave) (name : String) → All Fits seen → All Fits (see verbs seen name)
  see-Fits seen name all = elim (Bool-cases (name == "" || elem name (wave_names seen))) [
    | inl h ↦ rw h all
    | inr h ↦ rw h (All-append Fits seen (waved verbs name ∷ []) all (refl, tt))
  ]

  elem-see :
      (seen : List MethodWave) (name a : String)
      → elem a (wave_names (see verbs seen name))
        ≡ (elem a (wave_names seen) || (not (a == "") && name == a))
  elem-see seen name a = elim (Bool-cases (name == a)) [
    | inl same ↦
        subst
          (λ b.
            elem b (wave_names (see verbs seen name))
            ≡ (elem b (wave_names seen) || (not (b == "") && name == b)))
          ((==_iff name a).0 same) itself
    | inr other ↦ elim (Bool-cases (name == "" || elem name (wave_names seen))) [
      | inl h ↦ rw h (ground arith)
      | inr h ↦
          rw
            (
              h,
              wave_names-append seen (waved verbs name),
              elem-append a (wave_names seen) (name ∷ []),
            )
            (ground arith)
    ]
  ]
    where
      itself :
          elem name (wave_names (see verbs seen name))
          ≡ (elem name (wave_names seen) || (not (name == "") && name == name))
      itself = elim (Bool-cases (name == "" || elem name (wave_names seen))) [
        | inl h ↦ rw h (ground (arith, ==_refl name))
        | inr h ↦
            rw
              (
                h,
                wave_names-append seen (waved verbs name),
                elem-append name (wave_names seen) (name ∷ []),
              )
              (ground (arith, ==_refl name))
      ]

  see_all-Distinct :
      (seen : List MethodWave) (raws : List String)
      → Distinct (wave_names seen)
      → Distinct (wave_names (see_all verbs seen raws))
  see_all-Distinct seen [] d = d
  see_all-Distinct seen (raw ∷ raws) d =
      see_all-Distinct (see verbs seen (normalize_callable_name raw)) raws
        (see-Distinct seen (normalize_callable_name raw) d)

  see_all-Fits :
      (seen : List MethodWave) (raws : List String)
      → All Fits seen
      → All Fits (see_all verbs seen raws)
  see_all-Fits seen [] all = all
  see_all-Fits seen (raw ∷ raws) all =
      see_all-Fits (see verbs seen (normalize_callable_name raw)) raws
        (see-Fits seen (normalize_callable_name raw) all)

  elem-see_all :
      (seen : List MethodWave) (raws : List String) (a : String)
      → elem a (wave_names (see_all verbs seen raws))
        ≡ (elem a (wave_names seen) || (not (a == "") && elem a (map normalize_callable_name raws)))
  elem-see_all seen [] a = ground arith
  elem-see_all seen (raw ∷ raws) a =
      let name : String = normalize_callable_name raw in
      elem-see_all (see verbs seen name) raws a ∙ rw (elem-see seen name a) (ground arith)

elem-insert_by :
    (m : MethodWave) (ms : List MethodWave) (a : String)
    → elem a (wave_names (insert_by wave_le m ms)) ≡ (m.name == a || elem a (wave_names ms))
elem-insert_by m [] a = refl
elem-insert_by m (n ∷ ns) a = elim (Bool-cases (wave_le m n)) [
  | inl h ↦ rw h refl
  | inr h ↦ rw (h, elem-insert_by m ns a) (ground arith)
]

elem-sort_by :
    (ms : List MethodWave) (a : String)
    → elem a (wave_names (sort_by wave_le ms)) ≡ elem a (wave_names ms)
elem-sort_by [] a = refl
elem-sort_by (m ∷ ms) a =
    elem-insert_by m (sort_by wave_le ms) a ∙ ap (λ b. m.name == a || b) (elem-sort_by ms a)

insert_by-Distinct :
    (m : MethodWave) (ms : List MethodWave)
    → elem m.name (wave_names ms) ≡ false
    → Distinct (wave_names ms)
    → Distinct (wave_names (insert_by wave_le m ms))
insert_by-Distinct m [] out d = (refl, tt)
insert_by-Distinct m (n ∷ ns) out d = elim (Bool-cases (wave_le m n)) [
  | inl h ↦ rw h (out, d)
  | inr h ↦ rw h (
    elem-insert_by m ns n.name ∙ ground (arith, ==_iff m.name n.name, ==_iff n.name m.name, d.0),
    insert_by-Distinct m ns (ground arith) d.1,
  )
]

sort_by-Distinct :
    (ms : List MethodWave) → Distinct (wave_names ms) → Distinct (wave_names (sort_by wave_le ms))
sort_by-Distinct [] d = tt
sort_by-Distinct (m ∷ ms) d =
    insert_by-Distinct m (sort_by wave_le ms) (elem-sort_by ms m.name ∙ d.0)
      (sort_by-Distinct ms d.1)

-- Earlier waves stand in front.
insert_by-earlier :
    (m : MethodWave) (ms : List MethodWave)
    → Ordered earlier ms
    → Ordered earlier (insert_by wave_le m ms)
insert_by-earlier m [] o = (tt, tt)
insert_by-earlier m (n ∷ ns) o = elim (Bool-cases (wave_le m n)) [
  | inl h ↦
      let front : leb m.wave n.wave ≡ true = ground arith in
      rw h ((front, All-imp ns (λ k e. later k front e) o.0), o)
  | inr h ↦ rw h (
    All-insert_by (λ k. earlier n k ≡ true) wave_le m ns (ground arith) o.0,
    insert_by-earlier m ns o.1,
  )
]
  where
    later :
        (k : MethodWave)
        → leb m.wave n.wave ≡ true
        → leb n.wave k.wave ≡ true
        → leb m.wave k.wave ≡ true
    later k a b = ground arith

sort_by-earlier : (ms : List MethodWave) → Ordered earlier (sort_by wave_le ms)
sort_by-earlier [] = tt
sort_by-earlier (m ∷ ms) = insert_by-earlier m (sort_by wave_le ms) (sort_by-earlier ms)

-- `assign_waves` plans each name that is asked for once, by its normal form, and no other name:
-- with the wave and the reason of its name, and the first wave in front of the second. What has no
-- normal form is left out.
pub assign_waves-Planned : (verbs raws : List String) → Planned verbs raws (assign_waves verbs raws)
assign_waves-Planned verbs raws =
    let seen : List MethodWave = see_all verbs [] raws in
    (
      sort_by-Distinct seen (see_all-Distinct verbs [] raws tt),
      λ a. elem-sort_by seen a ∙ elem-see_all verbs [] raws a,
      All-sort_by (Fits verbs) wave_le seen (see_all-Fits verbs [] raws tt),
      sort_by-earlier seen,
    )
