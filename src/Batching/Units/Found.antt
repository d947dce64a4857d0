-- ===== src/Batching/Units/Found.antt =====
-- The selected lines and their units:
-- tools/python-enforcement/uta_enforce_core/mutation_batching.py.
use unit_test_agent.Prelude.{
  ℕ, String, ◌≤◌, none, ◌≡◌, ◌⊎◌, refl, sym, ap, ◌∙◌, subst, inl, inr, Bool, true, ◌||◌, Option,
  none, some, List, [], ◌∷◌, leb, ◌==◌, nat_eq, string_eq, ==_iff, ==_refl, Bool-cases, elem, Dict,
  get, get-put, sort_by, insert_by, arith,
}
use unit_test_agent.Batching.{MutationUnit}
use unit_test_agent.Batching.Units.Spans.{spans, LiesIn, unit_by_line-LiesIn}
use unit_test_agent.Batching.Units.{
  Definition, Node, LineMap, unit_by_line, Entry, add_line, entry_with, collect_line, collect_lines,
  unit_of, units_of, symbol_le, units_from_tree, mutation_units_from_source,
}

abbrev pub Among : {A : Type 0} → A → List A → Type 0
Among a [] = ⊥
Among a (x ∷ xs) = (x ≡ a) ⊎ Among a xs

Among-insert_by :
    {A : Type 0} (le : A → A → Bool) (x a : A) (ys : List A)
    → Among a (x ∷ ys)
    → Among a (insert_by le x ys)
Among-insert_by le x a [] m = m
Among-insert_by le x a (y ∷ ys) m = elim (Bool-cases (le x y)) [
  | inl h ↦ rw h m
  | inr h ↦ rw h (later (Among-insert_by le x a ys) m)
]
  where
    later :
        ((x ≡ a) ⊎ Among a ys → Among a (insert_by le x ys))
        → (x ≡ a) ⊎ ((y ≡ a) ⊎ Among a ys)
        → (y ≡ a) ⊎ Among a (insert_by le x ys)
    later deeper (inl e) = inr (deeper (inl e))
    later deeper (inr (inl e)) = inl e
    later deeper (inr (inr k)) = inr (deeper (inr k))

Among-sort_by :
    {A : Type 0} (le : A → A → Bool) (a : A) (xs : List A) → Among a xs → Among a (sort_by le xs)
Among-sort_by le a [] m = m
Among-sort_by le a (x ∷ xs) (inl e) = Among-insert_by le x a (sort_by le xs) (inl e)
Among-sort_by le a (x ∷ xs) (inr m) =
    Among-insert_by le x a (sort_by le xs) (inr (Among-sort_by le a xs m))

elem-insert_by : (a x : ℕ) (ys : List ℕ) → elem a (insert_by leb x ys) ≡ (x == a || elem a ys)
elem-insert_by a x [] = refl
elem-insert_by a x (y ∷ ys) = elim (Bool-cases (leb x y)) [
  | inl h ↦ rw h
  | inr h ↦ rw h (ground (arith, elem-insert_by a x ys))
]

elem-sort_by : (a : ℕ) (xs : List ℕ) → elem a (sort_by leb xs) ≡ elem a xs
elem-sort_by a [] = refl
elem-sort_by a (x ∷ xs) =
    elem-insert_by a x (sort_by leb xs) ∙ ap (λ b. x == a || b) (elem-sort_by a xs)

Among-get : {V : Type 0} (k : String) (v : V) (d : Dict V) → get k d ≡ some v → Among (k, v) d
Among-get k v [] h = absurd (cc)
Among-get k v ((j, w) ∷ d) h = elim (Bool-cases (j == k)) [
  | inl same ↦ let e : w ≡ v = cc (rw same at h) in inl (cc (e, (==_iff j k).0 same))
  | inr differs ↦ inr (Among-get k v d (rw differs at h))
]

-- The line is under the symbol, with at least the priority.
abbrev HasLine : String → ℕ → ℕ → Dict Entry → Type 0
HasLine symbol line priority entries =
    (e : Entry) × (get symbol entries ≡ some e)
    × (elem line e.lines ≡ true)
    × (priority ≤ e.priority)

elem-add_line : (l m : ℕ) (ls : List ℕ) → elem l ls ≡ true → elem l (add_line m ls) ≡ true
elem-add_line l m ls h = ground (arith, h)

elem_self-add_line : (l : ℕ) (ls : List ℕ) → elem l (add_line l ls) ≡ true
elem_self-add_line l ls = ground (arith, ==_refl l)

HasLine-collect_line_new :
    (o : Option (String × ℕ)) (symbol : String) (bytes line priority : ℕ) (entries : Dict Entry)
    → o ≡ some (symbol, bytes)
    → HasLine symbol line priority (collect_line o line priority entries)
HasLine-collect_line_new none symbol bytes line priority entries h = absurd (cc)
HasLine-collect_line_new (some (s, b)) symbol bytes line priority entries h =
    let e : s ≡ symbol = cc in
    let new = entry_with (get s entries) line b priority in
    let (there, high) = written (get s entries) in
    (new, get-put s symbol new entries ∙ rw ((==_iff s symbol).1 e) refl, there, high)
  where
    written :
        (o : Option Entry)
        → (elem line (entry_with o line b priority).lines ≡ true)
          × (priority ≤ (entry_with o line b priority).priority)
    written none = (rw (==_refl line), ground arith)
    written (some e) = (elem_self-add_line line e.lines, ground arith)

HasLine-collect_line :
    (o : Option (String × ℕ)) (symbol : String) (line priority other_line other_priority : ℕ)
    (entries : Dict Entry)
    → HasLine symbol line priority entries
    → HasLine symbol line priority (collect_line o other_line other_priority entries)
HasLine-collect_line none symbol line priority other_line other_priority entries has = has
HasLine-collect_line (some (s, b)) symbol line priority other_line other_priority entries
      (e, found, there, high) =
    let new = entry_with (get s entries) other_line b other_priority in
    elim (Bool-cases (s == symbol)) [
      | inr differs ↦ (e, get-put s symbol new entries ∙ rw differs found, there, high)
      | inl same ↦
          let entry : get s entries ≡ some e =
            ap (λ x. get x entries) ((==_iff s symbol).0 same) ∙ found in
          (
            entry_with (some e) other_line b other_priority,
            get-put s symbol new entries ∙ rw (same, entry) refl,
            elem-add_line line other_line e.lines there,
            ground (arith, high),
          )
    ]

HasLine-collect_lines :
    (map : LineMap) (symbol : String) (line priority : ℕ) (selected : List (ℕ × ℕ))
    (entries : Dict Entry)
    → HasLine symbol line priority entries
    → HasLine symbol line priority (collect_lines map selected entries)
unfolding collect_lines
HasLine-collect_lines map symbol line priority [] entries has = has
HasLine-collect_lines map symbol line priority ((l, p) ∷ selected) entries has =
    HasLine-collect_lines map symbol line priority selected (collect_line (map l) l p entries)
      (HasLine-collect_line (map l) symbol line priority l p entries has)

collected :
    (map : LineMap) (symbol : String) (bytes line priority : ℕ) (selected : List (ℕ × ℕ))
    (entries : Dict Entry)
    → Among (line, priority) selected
    → map line ≡ some (symbol, bytes)
    → HasLine symbol line priority (collect_lines map selected entries)
unfolding collect_lines
collected map symbol bytes line priority [] entries m h = absurd m
collected map symbol bytes line priority ((l, p) ∷ selected) entries (inl e) h =
    let same_line : l ≡ line = ap (λ x. x.0) e in
    let same_priority : p ≡ priority = ap (λ x. x.1) e in
    HasLine-collect_lines map symbol line priority selected (collect_line (map l) l p entries) (
      subst (λ x. HasLine symbol x priority (collect_line (map l) l p entries)) same_line
        (subst (λ x. HasLine symbol l x (collect_line (map l) l p entries)) same_priority
          (HasLine-collect_line_new (map l) symbol bytes l p entries (ap map same_line ∙ h))))
collected map symbol bytes line priority ((l, p) ∷ selected) entries (inr m) h =
    collected map symbol bytes line priority selected (collect_line (map l) l p entries) m h

Among-units_of :
    (symbol : String) (e : Entry) (entries : Dict Entry)
    → Among (symbol, e) entries
    → Among (unit_of symbol e) (units_of entries)
Among-units_of symbol e ((s, f) ∷ entries) (inl h) = inl (ap (λ x. unit_of x.0 x.1) h)
Among-units_of symbol e ((s, f) ∷ entries) (inr m) = inr (Among-units_of symbol e entries m)
Among-units_of symbol e [] m = absurd m

under_symbol :
    (parse : String → Option (List Node)) (line_sizes : String → List ℕ) (source : String)
    (selected : List (ℕ × ℕ)) (nodes : List Node) (symbol : String) (bytes line priority : ℕ)
    → parse source ≡ some nodes
    → Among (line, priority) selected
    → unit_by_line (line_sizes source) nodes (λ l. none) line ≡ some (symbol, bytes)
    → (u : MutationUnit) × Among u (mutation_units_from_source parse line_sizes source selected)
      × (u.symbol ≡ symbol)
      × (elem line u.lines ≡ true)
      × (priority ≤ u.priority)
unfolding mutation_units_from_source
under_symbol parse line_sizes source selected nodes symbol bytes line priority parsed m h =
    let map = unit_by_line (line_sizes source) nodes (λ l. none) in
    let entries = collect_lines map selected [] in
    let (e, found, there, high) = collected map symbol bytes line priority selected [] m h in
    (
      unit_of symbol e,
      subst (λ o. Among (unit_of symbol e) (units_from_tree (line_sizes source) o selected))
          (sym parsed)
          (Among-units_of symbol e (sort_by symbol_le entries)
            (Among-sort_by symbol_le (symbol, e) entries (Among-get symbol e entries found))),
      refl,
      elem-sort_by line e.lines ∙ there,
      high,
    )

-- Each selected line that lies in a function of the module's body, or in a method of the body of
-- one of its classes, is a line of a unit with the symbol of that definition, of the last one if it
-- lies in several, and the priority of that unit is at least that of the line. Functions that stand
-- under another statement have no units.
pub mutation_units_from_source-Among :
    (parse : String → Option (List Node)) (line_sizes : String → List ℕ) (source : String)
    (selected : List (ℕ × ℕ)) (nodes : List Node) (symbol : String) (d : Definition)
    (line priority : ℕ)
    → parse source ≡ some nodes
    → Among (line, priority) selected
    → LiesIn line symbol d (spans nodes)
    → (u : MutationUnit) × Among u (mutation_units_from_source parse line_sizes source selected)
      × (u.symbol ≡ symbol)
      × (elem line u.lines ≡ true)
      × (priority ≤ u.priority)
mutation_units_from_source-Among parse line_sizes source selected nodes symbol d line priority
      parsed m lies =
    let (bytes, there) = unit_by_line-LiesIn (line_sizes source) nodes line symbol d lies in
    under_symbol parse line_sizes source selected nodes symbol bytes line priority parsed m there
