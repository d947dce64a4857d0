-- ===== src/Batching/Units.antt =====
-- The units that a mutation tool copies once per mutant, with the selected lines in them:
-- tools/python-enforcement/uta_enforce_core/mutation_batching.py. The syntax tree of a source and
-- the sizes of its lines are parameters; a map from lines is a function, and a set of lines a list
-- without repetitions.
pub mod Found
pub mod Spans
use unit_test_agent.Prelude.{
  text_le, ℕ, String, zero, suc, ◌+◌, ◌-◌, Bool, true, false, ◌&&◌, Option, none, some, List, [],
  ◌∷◌, leb, ltb, ◌==◌, nat_eq, string_eq, if◌then◌else◌, elem, Dict, get, put, sort_by, ◌+++◌,
}
use unit_test_agent.Batching.{MutationUnit, max}

-- A function or a method, with its first and last lines.
pub record Definition : Type 0 where
  pub name : String
  pub start : ℕ
  pub stop : ℕ

-- The statements of a module: a function, a class with the functions in its body, and others.
pub data Node : Type 0 where
  function : Definition → Node
  class : String → List Definition → Node
  other : Node

abbrev pub LineMap : Type 0
LineMap = ℕ → Option (String × ℕ)

-- `line_bytes[i]`, with lines counted from 1, or 0 out of range.
abbrev size_of_line : List ℕ → ℕ → ℕ
size_of_line [] i = 0
size_of_line (b ∷ bs) zero = 0
size_of_line (b ∷ bs) (suc zero) = b
size_of_line (b ∷ bs) (suc (suc i)) = size_of_line bs (suc i)

-- The bytes of n lines from a line on.
abbrev bytes_from : List ℕ → ℕ → ℕ → ℕ
bytes_from sizes start zero = 0
bytes_from sizes start (suc n) = size_of_line sizes start + bytes_from sizes (suc start) n

-- `_record`
abbrev pub record_span : List ℕ → Definition → String → LineMap → LineMap
record_span sizes d symbol map line =
    if ltb 0 d.start && leb d.start line && leb line d.stop
    then some (symbol, bytes_from sizes d.start (d.stop + 1 - d.start))
    else map line

abbrev class_name_separator : String
class_name_separator = "ǁ"

abbrev record_methods : List ℕ → String → List Definition → LineMap → LineMap
record_methods sizes name [] map = map
record_methods sizes name (d ∷ ds) map =
    record_methods sizes name ds
      (record_span sizes d (name +++ (class_name_separator +++ d.name)) map)

abbrev pub unit_by_line : List ℕ → List Node → LineMap → LineMap
unit_by_line sizes [] map = map
unit_by_line sizes (function d ∷ nodes) map =
    unit_by_line sizes nodes (record_span sizes d d.name map)
unit_by_line sizes (class name ds ∷ nodes) map =
    unit_by_line sizes nodes (record_methods sizes name ds map)
unit_by_line sizes (other ∷ nodes) map = unit_by_line sizes nodes map

-- What the three dictionaries have under one symbol: its lines, its bytes and its priority.
pub record Entry : Type 0 where
  pub lines : List ℕ
  pub bytes : ℕ
  pub priority : ℕ

abbrev pub add_line : ℕ → List ℕ → List ℕ
add_line line lines = if elem line lines then lines else line ∷ lines

abbrev pub entry_with : Option Entry → ℕ → ℕ → ℕ → Entry
entry_with none line bytes priority = record {
  lines = line ∷ [];
  bytes = bytes;
  priority = max 0 priority;
}
entry_with (some e) line bytes priority = record {
  lines = add_line line e.lines;
  bytes = bytes;
  priority = max e.priority priority;
}

abbrev pub collect_line : Option (String × ℕ) → ℕ → ℕ → Dict Entry → Dict Entry
collect_line none line priority entries = entries
collect_line (some (symbol, bytes)) line priority entries =
    put symbol (entry_with (get symbol entries) line bytes priority) entries

-- The loop over the selected lines.
unfoldable pub collect_lines : LineMap → List (ℕ × ℕ) → Dict Entry → Dict Entry
collect_lines map [] entries = entries
collect_lines map ((line, priority) ∷ selected) entries =
    collect_lines map selected (collect_line (map line) line priority entries)

abbrev pub unit_of : String → Entry → MutationUnit
unit_of symbol e = record {
  symbol = symbol;
  unit_bytes = e.bytes;
  lines = sort_by leb e.lines;
  priority = e.priority;
}

abbrev pub units_of : Dict Entry → List MutationUnit
units_of [] = []
units_of ((symbol, e) ∷ entries) = unit_of symbol e ∷ units_of entries

abbrev pub symbol_le : (String × Entry) → (String × Entry) → Bool
symbol_le a b = text_le a.0 b.0

-- A source that does not parse has no units.
abbrev pub units_from_tree : List ℕ → Option (List Node) → List (ℕ × ℕ) → List MutationUnit
units_from_tree sizes none selected = []
units_from_tree sizes (some nodes) selected =
    units_of
      (sort_by symbol_le (collect_lines (unit_by_line sizes nodes (λ line. none)) selected []))

unfoldable pub mutation_units_from_source :
    (String → Option (List Node)) → (String → List ℕ) → String → List (ℕ × ℕ) → List MutationUnit
unfolding collect_lines
mutation_units_from_source parse line_sizes source selected =
    units_from_tree (line_sizes source) (parse source) selected
