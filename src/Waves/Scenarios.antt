-- ===== src/Waves/Scenarios.antt =====
-- Plans of a few callables.
use unit_test_agent.Prelude.{
  arith, String, List, [], ◌∷◌, map, strip, decimal, ◌≡◌, refl, string_eq,
}
use unit_test_agent.Waves.{
  wave1_verbs, assign_waves, format_wave_table, is_accessor, lowered, starts_with, contains,
  normalize_callable_name,
}
use unit_test_agent.Waves.Unordered.{SameMembers, view, assign_waves-SameMembers}
use unit_test_agent.Waves.Once.{Planned, assign_waves-Planned}

abbrev raws : List String
raws =
    "a.B.getName()" ∷ "process_and_save" ∷ " C::Process_and_save" ∷ "" ∷ "process_and_save(x)" ∷ []

abbrev one_way : List String
one_way = "process" ∷ "save" ∷ []

abbrev other_way : List String
other_way = "save" ∷ "process" ∷ "save" ∷ []

alike : SameMembers one_way other_way
alike a = ground arith

assign_waves-SameMembers_example :
    map view (assign_waves one_way raws) ≡ map view (assign_waves other_way raws)
assign_waves-SameMembers_example = assign_waves-SameMembers one_way other_way raws alike

assign_waves-Planned_example : Planned wave1_verbs raws (assign_waves wave1_verbs raws)
assign_waves-Planned_example = assign_waves-Planned wave1_verbs raws

-- The reason is the verb that is met first.
planned_one_way :
    format_wave_table (assign_waves one_way ("process_and_save" ∷ []))
    ≡ "| Method | Wave | Reason |\n|--------|------|--------|\n| `process_and_save` | 1 | business-verb:process |"
unfolding is_accessor lowered normalize_callable_name strip decimal starts_with contains
planned_one_way = refl

planned_other_way :
    format_wave_table (assign_waves other_way ("process_and_save" ∷ []))
    ≡ "| Method | Wave | Reason |\n|--------|------|--------|\n| `process_and_save` | 1 | business-verb:save |"
unfolding is_accessor lowered normalize_callable_name strip decimal starts_with contains
planned_other_way = refl

planned :
    map view (assign_waves wave1_verbs raws)
    ≡ ("Process_and_save", 1) ∷ ("process_and_save", 1) ∷ ("getName", 2) ∷ []
unfolding is_accessor lowered normalize_callable_name strip decimal starts_with contains
planned = refl
