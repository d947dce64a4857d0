-- ===== src/Waves.antt =====
-- The waves in which callables are planned: uta/testgen/wave_assigner.py. A `frozenset` of texts is the
-- list of its elements in the order of its iteration, which changes from one run to the next.
pub mod Unordered
pub mod Once
pub mod Scenarios
use Prim.Native.Char.{Char, code}
use Prim.Native.String.{slice}
use unit_test_agent.Prelude.{
  ℕ, ◌-◌, String, Bool, true, false, ◌&&◌, ◌||◌, not, Option, none, some, List, [], ◌∷◌, ◌++◌, map,
  ◌+++◌, ◌≡◌, refl, any, elem, ◌==◌, nat_eq, string_eq, if◌then◌else◌, ltb, leb, text_le, sort_by,
  strip, joined, decimal,
}

pub record MethodWave : Type 0 where
  pub name : String
  pub wave : ℕ
  pub reason : String

abbrev pub wave1_verbs : List String
wave1_verbs =
    "create" ∷ "process" ∷ "handle" ∷ "execute" ∷ "validate" ∷ "calculate" ∷ "compute" ∷ "save"
    ∷ "update" ∷ "delete" ∷ "build" ∷ "init" ∷ "initialize" ∷ "load" ∷ "run" ∷ "send" ∷ "apply"
    ∷ "check" ∷ "verify" ∷ "resolve" ∷ "transform" ∷ "parse" ∷ "convert" ∷ "fetch" ∷ "query"
    ∷ "filter" ∷ "merge" ∷ "assign" ∷ "allocate" ∷ "dispatch" ∷ []

-- What follows a prefix, if it is one.
unfoldable pub after_prefix : String → String → Option String
after_prefix String.[] s = some s
after_prefix (String.◌∷◌ c p) String.[] = none
after_prefix (String.◌∷◌ c p) (String.◌∷◌ d s) =
    let rest = after_prefix p s in if code c == code d then rest else none

-- `s.startswith(prefix)`
unfoldable pub starts_with : String → String → Bool
unfolding after_prefix
starts_with prefix s = elim (after_prefix prefix s) [ some _ ↦ true | none ↦ false ]

-- `part in s`
unfoldable pub contains : String → String → Bool
unfolding starts_with
contains part String.[] = starts_with part String.[]
contains part (String.◌∷◌ c s) = starts_with part (String.◌∷◌ c s) || contains part s

abbrev is_upper : Char → Bool
is_upper c = leb 65 (code c) && leb (code c) 90

abbrev is_word : Char → Bool
is_word c = is_upper c || (leb 97 (code c) && leb (code c) 122) || code c == 95

abbrev upper_first : Option String → Bool
upper_first (some (String.◌∷◌ c s)) = is_upper c
upper_first _ = false

-- `^(?:get|set|is|has)[A-Z]`
unfoldable pub is_accessor : String → Bool
unfolding after_prefix
is_accessor s = any (λ p. upper_first (after_prefix p s)) ("get" ∷ "set" ∷ "is" ∷ "has" ∷ [])

lower_char : Char → String → String
lower_char c s =
    if is_upper c
    then slice "abcdefghijklmnopqrstuvwxyz" (code c - 65) (code c - 64) +++ s
    else String.◌∷◌ c s

-- `name.lower()`: a name has ASCII letters only
unfoldable pub lowered : String → String
unfolding lower_char
lowered String.[] = String.[]
lowered (String.◌∷◌ c s) = lower_char c (lowered s)

-- `lower.startswith(verb) or verb in lower`
abbrev pub says : String → String → Bool
says low verb = starts_with verb low || contains verb low

-- The first verb that is met.
abbrev pub first_verb : String → List String → Option String
first_verb low [] = none
first_verb low (v ∷ vs) = if says low v then some v else first_verb low vs

abbrev pub verb_wave : Option String → ℕ × String
verb_wave (some verb) = (1, "business-verb:" +++ verb)
verb_wave none = (2, "no-wave1-signal")

abbrev pub callable_name_wave : List String → String → ℕ × String
callable_name_wave verbs name =
    if is_accessor name then (2, "accessor") else verb_wave (first_verb (lowered name) verbs)

-- `s.split("(", 1)[0]`
before_paren : String → String
before_paren String.[] = String.[]
before_paren (String.◌∷◌ c s) =
    let rest = before_paren s in if code c == 40 then String.[] else String.◌∷◌ c rest

-- What follows the last occurrence of a separator.
last_part : String → String → Option String
unfolding after_prefix
last_part separator String.[] = none
last_part separator (String.◌∷◌ c s) = elim (last_part separator s) [
  | some t ↦ some t
  | none ↦ after_prefix separator (String.◌∷◌ c s)
]

-- `s.rsplit(separator, 1)[-1]`
abbrev or_whole : String → Option String → String
or_whole s none = s
or_whole s (some t) = t

all_word : String → Bool
all_word String.[] = true
all_word (String.◌∷◌ c s) = (is_word c || (leb 48 (code c) && leb (code c) 57)) && all_word s

-- `^[A-Za-z_][A-Za-z0-9_]*$`, on a text that does not end in a newline
is_identifier : String → Bool
unfolding all_word
is_identifier String.[] = false
is_identifier (String.◌∷◌ c s) = is_word c && all_word s

-- `if "::" in name`
after_colons : String → String
unfolding last_part
after_colons s = elim (last_part "::" s) [ some t ↦ strip t | none ↦ s ]

unfoldable pub normalize_callable_name : String → String
unfolding before_paren last_part after_colons is_identifier
normalize_callable_name raw =
    let head : String = strip (before_paren (strip raw)) in
    let name : String = after_colons (strip (or_whole head (last_part "." head))) in
    if is_identifier name then name else ""

abbrev pub wave_names : List MethodWave → List String
wave_names = map (λ m. m.name)

abbrev pub waved : List String → String → MethodWave
waved verbs name = record {
  name = name;
  wave = (callable_name_wave verbs name).0;
  reason = (callable_name_wave verbs name).1;
}

-- One turn of the loop of `assign_waves`.
abbrev pub see : List String → List MethodWave → String → List MethodWave
see verbs seen name =
    if name == "" || elem name (wave_names seen) then seen else seen ++ waved verbs name ∷ []

abbrev pub see_all : List String → List MethodWave → List String → List MethodWave
see_all verbs seen [] = seen
see_all verbs seen (raw ∷ raws) = see_all verbs (see verbs seen (normalize_callable_name raw)) raws

-- `(item.wave, item.name)`
abbrev pub wave_le : MethodWave → MethodWave → Bool
wave_le m n = ltb m.wave n.wave || (m.wave == n.wave && text_le m.name n.name)

abbrev pub assign_waves : List String → List String → List MethodWave
assign_waves verbs raws = sort_by wave_le (see_all verbs [] raws)

abbrev wave_line : MethodWave → String
wave_line m = "| `" +++ m.name +++ "` | " +++ decimal m.wave +++ " | " +++ m.reason +++ " |"

abbrev pub format_wave_table : List MethodWave → String
format_wave_table [] = "(no public callables found)"
format_wave_table (m ∷ ms) =
    joined "\n"
      ("| Method | Wave | Reason |" ∷ "|--------|------|--------|" ∷ map wave_line (m ∷ ms))

normalize_test : normalize_callable_name " a.B::run_it (int x)" ≡ "run_it"
unfolding normalize_callable_name strip
normalize_test = refl
