-- ===== src/Tasks/Progress/Pages.antt =====
-- Reading a stream page by page with `events_since` of uta/tasks/progress_store.py.
use unit_test_agent.Prelude.{
  arith, ℕ, zero, suc, ◌+◌, ◌≤◌, ◌<◌, ℤ, pos, true, false, ◌&&◌, List, [], ◌∷◌, ◌++◌, ok, err, ◌≡◌,
  refl, sym, ap, ◌∙◌, subst, ◌⊎◌, inl, inr, ltb, ltb→lt, length, Bool-cases, All, ◌==◌, nat_eq,
  if◌then◌else◌,
}
use unit_test_agent.Tasks.{Db, Event}
use unit_test_agent.Tasks.Progress.{after_cursor, first_events, bounded_limit, events_since}

-- The ids of a table of events rise.
abbrev pub Rising : List Event → Type 0
Rising [] = Unit
Rising (e ∷ es) = All (λ d. e.id < d.id) es × Rising es

-- The cursor after a page.
abbrev pub last_id : ℕ → List Event → ℕ
last_id c [] = c
last_id c (e ∷ es) = last_id e.id es

All-after_cursor :
    (P : Event → Type 0) (i c : ℕ) (es : List Event) → All P es → All P (after_cursor i c es)
All-after_cursor P i c [] all = tt
All-after_cursor P i c (e ∷ es) all = elim (Bool-cases (e.repo_task_id == i && ltb c e.id)) [
  | inl h ↦ rw h (all.0, All-after_cursor P i c es all.1)
  | inr h ↦ rw h (All-after_cursor P i c es all.1)
]

after_cursor-Rising : (i c : ℕ) (es : List Event) → Rising es → Rising (after_cursor i c es)
after_cursor-Rising i c [] r = tt
after_cursor-Rising i c (e ∷ es) r = elim (Bool-cases (e.repo_task_id == i && ltb c e.id)) [
  | inl h ↦ rw h (All-after_cursor (λ d. e.id < d.id) i c es r.0, after_cursor-Rising i c es r.1)
  | inr h ↦ rw h (after_cursor-Rising i c es r.1)
]

after_cursor-above : (i c : ℕ) (es : List Event) → All (λ d. c < d.id) (after_cursor i c es)
after_cursor-above i c [] = tt
after_cursor-above i c (e ∷ es) = elim (Bool-cases (e.repo_task_id == i && ltb c e.id)) [
  | inl h ↦ rw h (ltb→lt c e.id (ground arith), after_cursor-above i c es)
  | inr h ↦ rw h (after_cursor-above i c es)
]

after_cursor-append :
    (i c : ℕ) (es fs : List Event)
    → after_cursor i c (es ++ fs) ≡ after_cursor i c es ++ after_cursor i c fs
after_cursor-append i c [] fs = refl
after_cursor-append i c (e ∷ es) fs = elim (Bool-cases (e.repo_task_id == i && ltb c e.id)) [
  | inl h ↦ rw h (ap (λ xs. e ∷ xs) (after_cursor-append i c es fs))
  | inr h ↦ rw h (after_cursor-append i c es fs)
]

-- The events of a list behind a cursor.
abbrev beyond : ℕ → List Event → List Event
beyond c [] = []
beyond c (e ∷ es) = let rest = beyond c es in if ltb c e.id then e ∷ rest else rest

after_cursor-beyond :
    (i c d : ℕ) (es : List Event) → c ≤ d → after_cursor i d es ≡ beyond d (after_cursor i c es)
after_cursor-beyond i c d [] h = refl
after_cursor-beyond i c d (e ∷ es) h =
    go (Bool-cases (e.repo_task_id == i && ltb c e.id)) (after_cursor-beyond i c d es h)
  where
    go :
        ((e.repo_task_id == i && ltb c e.id) ≡ true) ⊎ ((e.repo_task_id == i && ltb c e.id) ≡ false)
        → after_cursor i d es ≡ beyond d (after_cursor i c es)
        → after_cursor i d (e ∷ es) ≡ beyond d (after_cursor i c (e ∷ es))
    go (inl h') rest = elim (Bool-cases (ltb d e.id)) [
      | inl far ↦
          (let own : (e.repo_task_id == i && ltb d e.id) ≡ true = ground arith in
            rw (own, h', far) (ap (λ xs. e ∷ xs) rest))
      | inr near ↦
          (let own : (e.repo_task_id == i && ltb d e.id) ≡ false = ground arith in
            rw (own, h', near) rest)
    ]
    go (inr h') rest =
        (let own : (e.repo_task_id == i && ltb d e.id) ≡ false = ground arith in rw (own, h') rest)

beyond-all : (c : ℕ) (es : List Event) → All (λ d. c < d.id) es → beyond c es ≡ es
beyond-all c [] all = refl
beyond-all c (e ∷ es) all =
    let far : ltb c e.id ≡ true = ground (arith, all.0) in
    rw far (ap (λ xs. e ∷ xs) (beyond-all c es all.1))

last_id-above :
    (c : ℕ) (p rest : List Event)
    → All (λ d. c < d.id) (p ++ rest)
    → Rising (p ++ rest)
    → c ≤ last_id c p
last_id-above c [] rest all r = omega arith
last_id-above c (e ∷ p) rest all r = omega (arith, all.0, last_id-above e.id p rest r.0 r.1)

-- Behind the last of a page is what the page left.
beyond-page :
    (c : ℕ) (p rest : List Event)
    → All (λ d. c < d.id) (p ++ rest)
    → Rising (p ++ rest)
    → beyond (last_id c p) (p ++ rest) ≡ rest
beyond-page c [] rest all r = beyond-all c rest all
beyond-page c (e ∷ p) rest all r =
    let near : ltb (last_id e.id p) e.id ≡ false =
      ground (arith, last_id-above e.id p rest r.0 r.1) in
    rw near (beyond-page e.id p rest r.0 r.1)

first_events-split :
    (n : ℕ) (es : List Event) → (rest : List Event) × (es ≡ first_events n es ++ rest)
first_events-split zero es = (es, refl)
first_events-split (suc n) [] = ([], refl)
first_events-split (suc n) (e ∷ es) =
    (let s = first_events-split n es in (s.0, ap (λ xs. e ∷ xs) s.1))

first_events-append :
    (m : ℕ) (p rest : List Event)
    → first_events (length p + m) (p ++ rest) ≡ p ++ first_events m rest
first_events-append m [] rest = (let e : 0 + m ≡ m = omega arith in rw e refl)
first_events-append m (e ∷ p) rest =
    let k : suc (length p) + m ≡ suc (length p + m) = omega arith in
    rw k (ap (λ xs. e ∷ xs) (first_events-append m p rest))

append_assoc : (xs ys zs : List Event) → (xs ++ ys) ++ zs ≡ xs ++ (ys ++ zs)
append_assoc [] ys zs = refl
append_assoc (x ∷ xs) ys zs = ap (λ ws. x ∷ ws) (append_assoc xs ys zs)

pages :
    (i c n m : ℕ) (es more : List Event)
    → Rising (es ++ more)
    → let p : List Event = first_events n (after_cursor i c es) in
      p ++ first_events m (after_cursor i (last_id c p) (es ++ more))
      ≡ first_events (length p + m) (after_cursor i c (es ++ more))
pages i c n m es more r =
    let all : List Event = after_cursor i c (es ++ more) in
    let split = first_events-split n (after_cursor i c es) in
    let p : List Event = first_events n (after_cursor i c es) in
    let rest : List Event = split.0 ++ after_cursor i c more in
    let whole : all ≡ p ++ rest =
      after_cursor-append i c es more
      ∙ ap (λ xs. xs ++ after_cursor i c more) split.1
      ∙ append_assoc p split.0 (after_cursor i c more) in
    let above : All (λ d. c < d.id) (p ++ rest) =
      subst (All (λ d. c < d.id)) whole (after_cursor-above i c (es ++ more)) in
    let rising : Rising (p ++ rest) = subst Rising whole (after_cursor-Rising i c (es ++ more) r) in
    let tail : after_cursor i (last_id c p) (es ++ more) ≡ rest =
      after_cursor-beyond i c (last_id c p) (es ++ more) (last_id-above c p rest above rising)
      ∙ ap (beyond (last_id c p)) whole
      ∙ beyond-page c p rest above rising in
    ap (λ xs. p ++ first_events m xs) tail
    ∙ sym (ap (first_events (length p + m)) whole ∙ first_events-append m p rest)

-- A reader that asks again from the last id it got misses nothing and gets nothing twice, also when
-- events were appended between the two calls: what the two pages hold together is what one read
-- from the first cursor holds now, up to their length.
pub events_since_pages :
    (i c : ℕ) (limit limit' : ℤ) (db db' : Db) (more page : List Event)
    → db'.events ≡ db.events ++ more
    → Rising db'.events
    → events_since i (pos c) limit db ≡ (ok page, db)
    → (next : List Event) × (events_since i (pos (last_id c page)) limit' db' ≡ (ok next, db'))
      × (page ++ next
          ≡ first_events (length page + bounded_limit limit') (after_cursor i c db'.events))
unfolding events_since
events_since_pages i c limit limit' db db' more page grown rising read =
    let p : List Event = first_events (bounded_limit limit) (after_cursor i c db.events) in
    let own : p ≡ page = ap (λ r. elim r.0 as (λ _. List Event) [ ok x ↦ x | err _ ↦ [] ]) read in
    (
      first_events (bounded_limit limit') (after_cursor i (last_id c page) db'.events),
      refl,
      subst
          (λ q.
            q ++ first_events (bounded_limit limit') (after_cursor i (last_id c q) db'.events)
            ≡ first_events (length q + bounded_limit limit') (after_cursor i c db'.events))
          own
          (rw grown (
            pages i c (bounded_limit limit) (bounded_limit limit') db.events more
              (subst Rising grown rising))),
    )
