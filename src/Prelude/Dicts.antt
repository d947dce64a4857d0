-- ===== src/Prelude/Dicts.antt =====
-- Python's `dict` with string keys, as an association list in insertion order.
use Prim.Native.String.{String}
use mathlib.Core.Path.{◌≡◌, refl, sym, ◌∙◌}
use mathlib.Core.Logic.{inl, inr}
use mathlib.Core.Bool.{Bool, true, false, ◌&&◌}
use mathlib.Core.Option.{Option, none, some}
use mathlib.Core.List.{List, [], ◌∷◌}
use native.Mathlib.Omega.{arith}
use unit_test_agent.Prelude.Tests.{if◌then◌else◌, Bool-cases}
use unit_test_agent.Prelude.Equality.{Eq, ◌==◌, ==_iff, string_eq, option_eq}

abbrev pub Dict {ℓ} : Type ℓ → Type ℓ
Dict V = List (String × V)

module _ {ℓ} {V : Type ℓ} where
  -- `d.get(k)`
  abbrev pub get : String → Dict V → Option V
  get k [] = none
  get k ((j, v) ∷ d) = if j == k then some v else get k d

  -- `d.get(k, default)`
  abbrev pub get_or : String → V → Dict V → V
  get_or k v d = elim (get k d) [ some w ↦ w | none ↦ v ]

  -- `k in d`
  abbrev pub has_key : String → Dict V → Bool
  has_key k [] = false
  has_key k ((j, v) ∷ d) = if j == k then true else has_key k d

  -- `d[k] = v`
  abbrev pub put : String → V → Dict V → Dict V
  put k v [] = (k, v) ∷ []
  put k v ((j, w) ∷ d) = if j == k then (j, v) ∷ d else (j, w) ∷ put k v d

  -- `d.update(e)`
  abbrev pub update : Dict V → Dict V → Dict V
  update d [] = d
  update d ((k, v) ∷ e) = update (put k v d) e

  pub get-put :
      (k j : String) (v : V) (d : Dict V) → get j (put k v d) ≡ (if k == j then some v else get j d)
  get-put k j v [] = refl
  get-put k j v ((i, w) ∷ d) = ground (arith, ==_iff k j, ==_iff i k, ==_iff i j, get-put k j v d)

module _ {ℓ} {V : Type ℓ} ⦃e : Eq V⦄ where
  -- Every entry of the first dictionary is in the second.
  abbrev pub dict_le : Dict V → Dict V → Bool
  dict_le [] d = true
  dict_le ((k, v) ∷ c) d = get k d == some v && dict_le c d

  -- `c == d`
  abbrev pub dict_beq : Dict V → Dict V → Bool
  dict_beq c d = dict_le c d && dict_le d c

  pub get-dict_le :
      (k : String) (v : V) (c d : Dict V) → dict_le c d ≡ true → get k c ≡ some v → get k d ≡ some v
  get-dict_le k v [] d h m = cc
  get-dict_le k v ((j, w) ∷ c) d h m = elim (Bool-cases (j == k)) [
    | inl same ↦ ground (arith, ==_iff j k, ==_iff (get j d) (some w))
    | inr other ↦ get-dict_le k v c d (ground arith) (ground arith)
  ]

  get-none : (k : String) (c d : Dict V) → dict_le d c ≡ true → get k c ≡ none → get k d ≡ none
  get-none k c [] h m = refl
  get-none k c ((j, w) ∷ d) h m =
      ground (arith, ==_iff j k, ==_iff (get j c) (some w), get-none k c d)

  -- Equal dictionaries answer every lookup alike.
  pub get-dict_beq : (k : String) (c d : Dict V) → dict_beq c d ≡ true → get k c ≡ get k d
  get-dict_beq k c d h = go (get k c) refl
    where
      go : (o : Option V) → get k c ≡ o → get k c ≡ get k d
      go none m = m ∙ sym (get-none k c d (ground arith) m)
      go (some v) m = m ∙ sym (get-dict_le k v c d (ground arith) m)
