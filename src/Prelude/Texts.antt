-- ===== src/Prelude/Texts.antt =====
-- Python's `str` on numbers, and `join`.
use Prim.Native.Nat.{ℕ, zero, suc, ◌+◌, ◌/◌, ◌%◌, Ordering}
use mathlib.Core.Bool.{Bool, true, false}
use Prim.Native.String.{String, ◌++◌ as ◌+++◌, slice, compare}
use mathlib.Core.List.{List, [], ◌∷◌}
use mathlib.Core.Path.{◌≡◌, refl}
use unit_test_agent.Prelude.Tests.{ltb, if◌then◌else◌}

abbrev digit : ℕ → String
digit n = slice "0123456789" n (n + 1)

-- The digits of a number below 10 ^ fuel.
digits : ℕ → ℕ → String
digits zero n = ""
digits (suc fuel) n =
    let rest = digits fuel (n / 10) in if ltb n 10 then digit n else rest +++ digit (n % 10)

-- `str(n)`: a number has no more digits than it counts.
unfoldable pub decimal : ℕ → String
unfolding digits
decimal n = digits (suc n) n

-- `separator.join(…)`
abbrev pub joined : String → List String → String
joined separator [] = ""
joined separator (s ∷ []) = s
joined separator (s ∷ t ∷ ts) = s +++ separator +++ joined separator (t ∷ ts)

-- `s <= t`, by code points
abbrev pub text_le : String → String → Bool
text_le s t = elim (compare s t) [ Ordering.gt ↦ false | _ ↦ true ]

decimal_test : decimal 1203 ≡ "1203"
unfolding decimal
decimal_test = refl
