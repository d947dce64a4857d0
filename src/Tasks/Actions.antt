-- ===== src/Tasks/Actions.antt =====
-- Statements in sequence, and the invariants that a sequence of statements keeps.
use unit_test_agent.Prelude.{List, [], ◌∷◌, Result, ok, err}
use unit_test_agent.Tasks.{Db, Refusal, Action}

module _ {A : Type 0} where
  abbrev pub pure : A → Action A
  pure a db = (ok a, db)

  abbrev pub raise : Refusal → Action A
  raise e db = (err e, db)

  -- A query.
  abbrev pub reading : (Db → A) → Action A
  reading f db = (ok (f db), db)

abbrev pub writing : (Db → Db) → Action (Unit {0})
writing f db = (ok tt, f db)

module _ {A B : Type 0} where
  abbrev pub and_then : Result Refusal A → (A → Action B) → Action B
  and_then (ok a) next = next a
  and_then (err e) next = raise e

  infixl 5 ◌>>=◌ ◌>>◌
  unfoldable pub ◌>>=◌ : Action A → (A → Action B) → Action B
  m >>= next = λ db. let (result, after) = m db in and_then result next after

  abbrev pub ◌>>◌ : Action A → Action B → Action B
  m >> n = m >>= λ _. n

module _ {A : Type 0} where
  -- `for x in xs: body`
  abbrev pub for_each : List A → (A → Action (Unit {0})) → Action (Unit {0})
  for_each [] body = pure tt
  for_each (x ∷ xs) body = body x >> for_each xs body

module _ (I : Db → Type 0) where
  -- The invariant holds after the statement, also where it raises.
  abbrev pub Keeps : {A : Type 0} → Action A → Type 0
  Keeps m = (db : Db) → I db → I (m db).1

  pub Keeps-and_then :
      {A B : Type 0} (r : Result Refusal A) (next : A → Action B)
      → ((a : A) → Keeps (next a))
      → Keeps (and_then r next)
  Keeps-and_then (ok a) next h = h a
  Keeps-and_then (err e) next h = λ db held. held

  pub Keeps->>= :
      {A B : Type 0} (m : Action A) (next : A → Action B)
      → Keeps m
      → ((a : A) → Keeps (next a))
      → Keeps (m >>= next)
  unfolding ◌>>=◌
  Keeps->>= m next k h db held = Keeps-and_then (m db).0 next h (m db).1 (k db held)

  pub Keeps-for_each :
      {A : Type 0} (xs : List A) (body : A → Action (Unit {0}))
      → ((x : A) → Keeps (body x))
      → Keeps (for_each xs body)
  Keeps-for_each [] body h = λ db held. held
  Keeps-for_each (x ∷ xs) body h =
      Keeps->>= (body x) (λ _. for_each xs body) (h x) (λ _. Keeps-for_each xs body h)
