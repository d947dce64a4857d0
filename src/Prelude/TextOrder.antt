-- ===== src/Prelude/TextOrder.antt =====
-- The order of texts by code points is total and transitive.
use Prim.Native.Nat.{Ordering, compare as compare_ℕ}
use Prim.Native.Char.{Char, code}
use Prim.Native.String.{String, compare, then}
use Prim.Native.String.compare as Clauses
use mathlib.Core.Bool.{Bool, true, false, ◌&&◌, ◌||◌}
use mathlib.Core.Path.{◌≡◌, refl, sym, ap, ◌∙◌}
use native.Mathlib.Omega.{arith}
use unit_test_agent.Prelude.Tests.{ltb, nat_beq}
use unit_test_agent.Prelude.Texts.{text_le}

text_le-cons :
    (c d : Char) (s t : String)
    → text_le (String.◌∷◌ c s) (String.◌∷◌ d t)
      ≡ (ltb (code c) (code d) || (nat_beq (code c) (code d) && text_le s t))
text_le-cons c d s t =
    ap (λ o. elim o [ Ordering.gt ↦ false | _ ↦ true ]) (λ i. Clauses.cons-cons c d s t i)
    ∙ go (compare_ℕ (code c) (code d)) (compare s t)
  where
    go :
        (o r : Ordering)
        → elim (then o r) as (λ _. Bool) [ Ordering.gt ↦ false | _ ↦ true ] ≡ (
            elim o [ Ordering.lt ↦ true | _ ↦ false ]
            || (elim o [ Ordering.eq ↦ true | _ ↦ false ]
                && elim r [ Ordering.gt ↦ false | _ ↦ true ]))
    go Ordering.lt r = refl
    go Ordering.eq Ordering.lt = refl
    go Ordering.eq Ordering.eq = refl
    go Ordering.eq Ordering.gt = refl
    go Ordering.gt r = refl

text_le-nil : (t : String) → text_le String.[] t ≡ true
text_le-nil String.[] = ap (λ o. elim o [ Ordering.gt ↦ false | _ ↦ true ]) (λ i. Clauses.nil-nil i)
text_le-nil (String.◌∷◌ d t) =
    ap (λ o. elim o [ Ordering.gt ↦ false | _ ↦ true ]) (λ i. Clauses.nil-cons d t i)

text_le-cons_nil : (c : Char) (s : String) → text_le (String.◌∷◌ c s) String.[] ≡ false
text_le-cons_nil c s =
    ap (λ o. elim o [ Ordering.gt ↦ false | _ ↦ true ]) (λ i. Clauses.cons-nil c s i)

pub text_le_total : (s t : String) → text_le s t ≡ false → text_le t s ≡ true
text_le_total s String.[] h = text_le-nil s
text_le_total String.[] (String.◌∷◌ d t) h =
    let no : true ≡ false = sym (text_le-nil (String.◌∷◌ d t)) ∙ h in cc
text_le_total (String.◌∷◌ c s) (String.◌∷◌ d t) h =
    let ih = text_le_total s t in
    let e = sym (text_le-cons c d s t) ∙ h in text_le-cons d c t s ∙ ground (arith, ih, e)

pub text_le_trans : (s t u : String) → text_le s t ≡ true → text_le t u ≡ true → text_le s u ≡ true
text_le_trans String.[] t u a b = text_le-nil u
text_le_trans (String.◌∷◌ c s) String.[] u a b =
    let no : false ≡ true = sym (text_le-cons_nil c s) ∙ a in cc
text_le_trans (String.◌∷◌ c s) (String.◌∷◌ d t) String.[] a b =
    let no : false ≡ true = sym (text_le-cons_nil d t) ∙ b in cc
text_le_trans (String.◌∷◌ c s) (String.◌∷◌ d t) (String.◌∷◌ e u) a b =
    let ih = text_le_trans s t u in
    let a' = sym (text_le-cons c d s t) ∙ a in
    let b' = sym (text_le-cons d e t u) ∙ b in text_le-cons c e s u ∙ ground (arith, ih, a', b')
