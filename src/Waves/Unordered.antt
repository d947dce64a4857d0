-- ===== src/Waves/Unordered.antt =====
-- The order in which the set of verbs of uta/testgen/wave_assigner.py is iterated.
use unit_test_agent.Prelude.{
  arith, ℕ, String, Bool, true, false, ◌&&◌, ◌||◌, List, [], ◌∷◌, ◌++◌, map, any, elem, ◌==◌,
  nat_eq, string_eq, ==_iff, ==_refl, if◌then◌else◌, ltb, text_le, sort_by, insert_by, Bool-cases,
  inl, inr, ◌≡◌, refl, sym, ap, ◌∙◌, subst,
}
use unit_test_agent.Waves.{
  MethodWave, says, first_verb, verb_wave, is_accessor, lowered, wave_names, waved, see, see_all,
  wave_le, assign_waves, normalize_callable_name,
}

-- Two texts are in two lists alike.
abbrev pub SameMembers : List String → List String → Type 0
SameMembers vs ws = (a : String) → elem a vs ≡ elem a ws

any-elem :
    (p : String → Bool) (a : String) (ws : List String)
    → elem a ws ≡ true
    → p a ≡ true
    → any p ws ≡ true
any-elem p a [] h k = cc
any-elem p a (w ∷ ws) h k = elim (Bool-cases (w == a)) [
  | inl same ↦
      let here : p w ≡ true = subst (λ b. p b ≡ true) (sym ((==_iff w a).0 same)) k in ground arith
  | inr other ↦ (let later : any p ws ≡ true = any-elem p a ws (ground arith) k in ground arith)
]

any-subset :
    (p : String → Bool) (vs ws : List String)
    → ((a : String) → elem a vs ≡ true → elem a ws ≡ true)
    → any p vs ≡ true
    → any p ws ≡ true
any-subset p [] ws h k = cc
any-subset p (v ∷ vs) ws h k = elim (Bool-cases (p v)) [
  | inl holds ↦ any-elem p v ws (h v (rw (==_refl v) refl)) holds
  | inr other ↦ any-subset p vs ws (λ a k'. h a (ground arith)) (ground arith)
]

any-SameMembers :
    (p : String → Bool) (vs ws : List String) → SameMembers vs ws → any p vs ≡ any p ws
any-SameMembers p vs ws same =
    let to = any-subset p vs ws (λ a h. sym (same a) ∙ h) in
    let back = any-subset p ws vs (λ a h. same a ∙ h) in ground (arith, to, back)

abbrev wave_if : Bool → ℕ
wave_if true = 1
wave_if false = 2

first_verb-any :
    (low : String) (vs : List String)
    → (verb_wave (first_verb low vs)).0 ≡ wave_if (any (says low) vs)
first_verb-any low [] = refl
first_verb-any low (v ∷ vs) = elim (Bool-cases (says low v)) [
  | inl h ↦ rw h refl
  | inr h ↦ rw h (first_verb-any low vs)
]

-- Only the reason depends on the order.
abbrev pub view : MethodWave → String × ℕ
view m = (m.name, m.wave)

module _ (vs ws : List String) (same : SameMembers vs ws) where
  waved-view : (name : String) → view (waved vs name) ≡ view (waved ws name)
  waved-view name = elim (Bool-cases (is_accessor name)) [
    | inl h ↦ rw h refl
    | inr h ↦ rw h (
        ap (λ n. (name, n))
          (first_verb-any (lowered name) vs
            ∙ ap wave_if (any-SameMembers (says (lowered name)) vs ws same)
            ∙ sym (first_verb-any (lowered name) ws)))
  ]

  names_of-view :
      (ms ns : List MethodWave) → map view ms ≡ map view ns → wave_names ms ≡ wave_names ns
  names_of-view ms ns alike = through ms ∙ ap (map (λ p. p.0)) alike ∙ sym (through ns)
    where
      through : (ms : List MethodWave) → wave_names ms ≡ map (λ p. p.0) (map view ms)
      through [] = refl
      through (m ∷ ms) = ap (λ ns. m.name ∷ ns) (through ms)

  view-append :
      (ms ns : List MethodWave) (name : String)
      → map view ms ≡ map view ns
      → map view (ms ++ waved vs name ∷ []) ≡ map view (ns ++ waved ws name ∷ [])
  view-append ms ns name alike =
      behind ms (waved vs name)
      ∙ ap (λ ps. ps ++ view (waved vs name) ∷ []) alike
      ∙ ap (λ p. map view ns ++ p ∷ []) (waved-view name)
      ∙ sym (behind ns (waved ws name))
    where
      behind :
          (ms : List MethodWave) (m : MethodWave)
          → map view (ms ++ m ∷ []) ≡ map view ms ++ view m ∷ []
      behind [] m = refl
      behind (x ∷ xs) m = ap (λ ps. view x ∷ ps) (behind xs m)

  see-view :
      (ms ns : List MethodWave) (name : String)
      → map view ms ≡ map view ns
      → map view (see vs ms name) ≡ map view (see ws ns name)
  see-view ms ns name alike =
      rw (names_of-view ms ns alike) (go (name == "" || elem name (wave_names ns)))
    where
      go :
          (skip : Bool)
          → map view (if skip then ms else ms ++ waved vs name ∷ [])
            ≡ map view (if skip then ns else ns ++ waved ws name ∷ [])
      go true = alike
      go false = view-append ms ns name alike

  see_all-view :
      (ms ns : List MethodWave) (raws : List String)
      → map view ms ≡ map view ns
      → map view (see_all vs ms raws) ≡ map view (see_all ws ns raws)
  see_all-view ms ns [] alike = alike
  see_all-view ms ns (raw ∷ raws) alike =
      see_all-view (see vs ms (normalize_callable_name raw))
        (see ws ns (normalize_callable_name raw)) raws
        (see-view ms ns (normalize_callable_name raw) alike)

-- The key that is sorted by is in the view.
abbrev view_le : String × ℕ → String × ℕ → Bool
view_le p q = ltb p.1 q.1 || (p.1 == q.1 && text_le p.0 q.0)

view-insert_by :
    (m : MethodWave) (ms : List MethodWave)
    → map view (insert_by wave_le m ms) ≡ insert_by view_le (view m) (map view ms)
view-insert_by m [] = refl
view-insert_by m (n ∷ ns) = elim (Bool-cases (wave_le m n)) [
  | inl h ↦ rw h refl
  | inr h ↦ rw h (ap (λ ps. view n ∷ ps) (view-insert_by m ns))
]

view-sort_by :
    (ms : List MethodWave) → map view (sort_by wave_le ms) ≡ sort_by view_le (map view ms)
view-sort_by [] = refl
view-sort_by (m ∷ ms) =
    view-insert_by m (sort_by wave_le ms) ∙ ap (insert_by view_le (view m)) (view-sort_by ms)

-- The callables, their waves and their order do not depend on the order in which the set of verbs
-- is iterated, nor on a verb that is met twice.
pub assign_waves-SameMembers :
    (vs ws raws : List String)
    → SameMembers vs ws
    → map view (assign_waves vs raws) ≡ map view (assign_waves ws raws)
assign_waves-SameMembers vs ws raws same =
    view-sort_by (see_all vs [] raws)
    ∙ ap (sort_by view_le) (see_all-view vs ws same [] [] raws refl)
    ∙ sym (view-sort_by (see_all ws [] raws))
