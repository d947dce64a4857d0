-- ===== src/Batching/Units/Spans.antt =====
-- The definitions that a line lies in:
-- tools/python-enforcement/uta_enforce_core/mutation_batching.py.
use unit_test_agent.Prelude.{
  arith, ℕ, String, ◌+◌, ◌-◌, ◌≤◌, ◌<◌, ◌+++◌, true, ◌&&◌, none, some, List, [], ◌∷◌, ◌++◌, ltb,
  leb, All, ◌⊎◌, inl, inr, ◌≡◌, refl, sym, ap, ◌∙◌,
}
use unit_test_agent.Batching.Units.{
  Definition, Node, function, class, other, LineMap, bytes_from, record_span, record_methods,
  unit_by_line,
}

-- The functions in the body of a module and the methods in the bodies of its classes, with their
-- symbols, in the order of the source. What stands deeper, or under another statement, is not among
-- them.
abbrev methods : String → List Definition → List (String × Definition)
methods name [] = []
methods name (d ∷ ds) = (name +++ ("ǁ" +++ d.name), d) ∷ methods name ds

abbrev pub spans : List Node → List (String × Definition)
spans [] = []
spans (function d ∷ nodes) = (d.name, d) ∷ spans nodes
spans (class name ds ∷ nodes) = methods name ds ++ spans nodes
spans (other ∷ nodes) = spans nodes

-- The line lies in the last of the definitions that it lies in.
abbrev pub LiesIn : ℕ → String → Definition → List (String × Definition) → Type 0
LiesIn line symbol d ps =
    (before : List (String × Definition)) × (after : List (String × Definition)) × (ps
      ≡ before ++ (symbol, d) ∷ after)
    × (1 ≤ d.start)
    × (d.start ≤ line)
    × (line ≤ d.stop)
    × All (λ p. (line < p.1.start) ⊎ (p.1.stop < line)) after

module _ (sizes : List ℕ) where
  abbrev record_all : List (String × Definition) → LineMap → LineMap
  record_all [] map = map
  record_all ((symbol, d) ∷ ps) map = record_all ps (record_span sizes d symbol map)

  record_all-append :
      (ps qs : List (String × Definition)) (map : LineMap)
      → record_all (ps ++ qs) map ≡ record_all qs (record_all ps map)
  record_all-append [] qs map = refl
  record_all-append ((symbol, d) ∷ ps) qs map =
      record_all-append ps qs (record_span sizes d symbol map)

  record_all-methods :
      (name : String) (ds : List Definition) (map : LineMap)
      → record_methods sizes name ds map ≡ record_all (methods name ds) map
  record_all-methods name [] map = refl
  record_all-methods name (d ∷ ds) map = record_all-methods name ds _

  record_all-spans :
      (nodes : List Node) (map : LineMap)
      → unit_by_line sizes nodes map ≡ record_all (spans nodes) map
  record_all-spans [] map = refl
  record_all-spans (function d ∷ nodes) map = record_all-spans nodes _
  record_all-spans (class name ds ∷ nodes) map =
      record_all-spans nodes _
      ∙ ap (record_all (spans nodes)) (record_all-methods name ds map)
      ∙ sym (record_all-append (methods name ds) (spans nodes) map)
  record_all-spans (other ∷ nodes) map = record_all-spans nodes map

  record_all-outside :
      (line : ℕ) (ps : List (String × Definition)) (map : LineMap)
      → All (λ p. (line < p.1.start) ⊎ (p.1.stop < line)) ps
      → record_all ps map line ≡ map line
  record_all-outside line [] map out = refl
  record_all-outside line ((symbol, d) ∷ ps) map out =
      record_all-outside line ps (record_span sizes d symbol map) out.1 ∙ passes out.0
    where
      passes : (line < d.start) ⊎ (d.stop < line) → record_span sizes d symbol map line ≡ map line
      passes (inl h) = ground (arith, h)
      passes (inr h) = ground (arith, h)

  pub unit_by_line-LiesIn :
      (nodes : List Node) (line : ℕ) (symbol : String) (d : Definition)
      → LiesIn line symbol d (spans nodes)
      → (bytes : ℕ) × (unit_by_line sizes nodes (λ l. none) line ≡ some (symbol, bytes))
  unit_by_line-LiesIn nodes line symbol d (before, after, is, some_line, from, to, out) = (
    bytes_from sizes d.start (d.stop + 1 - d.start),
    ap (λ m. m line)
          (record_all-spans nodes (λ l. none)
            ∙ ap (λ ps. record_all ps (λ l. none)) is
            ∙ record_all-append before ((symbol, d) ∷ after) (λ l. none))
        ∙ record_all-outside line after (record_span sizes d symbol (record_all before (λ l. none)))
            out
        ∙ rw (inside some_line from to) refl,
  )
    where
      inside :
          1 ≤ d.start
          → d.start ≤ line
          → line ≤ d.stop
          → (ltb 0 d.start && leb d.start line && leb line d.stop) ≡ true
      inside a b c = ground arith
