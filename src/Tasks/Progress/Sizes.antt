-- ===== src/Tasks/Progress/Sizes.antt =====
-- The items of a batch of progress, and their sizes: uta/tasks/progress_store.py.
use unit_test_agent.Prelude.{
  ℕ, ◌+◌, Bool, true, false, none, some, List, [], ◌∷◌, ◌≡◌, refl, sym, ap, ◌∙◌, inl, inr, any,
  ◌==◌, string_eq, sum_by, ◌||◌, if◌then◌else◌, String, Bool-cases,
}
use unit_test_agent.Tasks.{Env}
use Prim.Native.Char.{Char, code, len_utf8, len_utf8_def, width}
use Prim.Native.Nat.{Ordering, compare}
use Prim.Native.String.{len}
use Prim.Native.String.len.{cons as len_cons, nil as len_nil}
use unit_test_agent.Tasks.Progress.{
  ProgressItem, marker_requested, utf8_width, utf8_length, prepared, serialized_bytes, total_bytes,
}

-- `utf8_length` is the number of bytes of the text's UTF-8.
utf8_width-len : (c : Char) → utf8_width (code c) ≡ len_utf8 c
utf8_width-len c =
    go (compare (code c) 128) (compare (code c) 2048) (compare (code c) 65536)
    ∙ sym (λ i. len_utf8_def c i)
  where
    go :
        (a b d : Ordering)
        → (if elim a [ Ordering.lt ↦ true | _ ↦ false ]
            then 1
            else if elim b [ Ordering.lt ↦ true | _ ↦ false ]
            then 2
            else if elim d [ Ordering.lt ↦ true | _ ↦ false ]
            then 3
            else 4)
          ≡ width a b d
    go Ordering.lt b d = refl
    go Ordering.eq Ordering.lt d = refl
    go Ordering.gt Ordering.lt d = refl
    go Ordering.eq Ordering.eq Ordering.lt = refl
    go Ordering.eq Ordering.eq Ordering.eq = refl
    go Ordering.eq Ordering.eq Ordering.gt = refl
    go Ordering.eq Ordering.gt Ordering.lt = refl
    go Ordering.eq Ordering.gt Ordering.eq = refl
    go Ordering.eq Ordering.gt Ordering.gt = refl
    go Ordering.gt Ordering.eq Ordering.lt = refl
    go Ordering.gt Ordering.eq Ordering.eq = refl
    go Ordering.gt Ordering.eq Ordering.gt = refl
    go Ordering.gt Ordering.gt Ordering.lt = refl
    go Ordering.gt Ordering.gt Ordering.eq = refl
    go Ordering.gt Ordering.gt Ordering.gt = refl

utf8_length-len : (s : String) → utf8_length s ≡ len s
unfolding utf8_length
utf8_length-len String.[] = sym (λ i. len_nil i)
utf8_length-len (String.◌∷◌ c s) =
    ap (λ n. n + utf8_length s) (utf8_width-len c)
    ∙ ap (λ n. len_utf8 c + n) (utf8_length-len s)
    ∙ sym (λ i. len_cons c s i)

-- A marker is asked for by the type of an item; the others are the items to admit.
abbrev pub asks : ProgressItem → Bool
asks e = elim e.event_type [ some s ↦ s == "progress_truncated" | none ↦ false ]

abbrev pub plain : List ProgressItem → List ProgressItem
plain [] = []
plain (e ∷ es) = if asks e then plain es else e ∷ plain es

pub prepared-plain : (es : List ProgressItem) → prepared es ≡ plain es
prepared-plain [] = refl
prepared-plain (e ∷ es) = elim (Bool-cases (asks e)) [
  | inl h ↦ rw h (prepared-plain es)
  | inr h ↦ rw h (ap (λ ds. e ∷ ds) (prepared-plain es))
]

pub marker_requested-any : (es : List ProgressItem) → marker_requested es ≡ any asks es
marker_requested-any [] = refl
marker_requested-any (e ∷ es) = ap (λ b. asks e || b) (marker_requested-any es)

module _ (env : Env) where
  -- The size of an item: the bytes of its payload in UTF-8.
  abbrev pub payload_bytes : ProgressItem → ℕ
  payload_bytes e = len (env.dumps e.payload)

  pub total_bytes-sum_by : (es : List ProgressItem) → total_bytes env es ≡ sum_by payload_bytes es
  unfolding serialized_bytes
  total_bytes-sum_by [] = refl
  total_bytes-sum_by (e ∷ es) =
      ap (λ n. n + total_bytes env es) (utf8_length-len (env.dumps e.payload))
      ∙ ap (λ n. payload_bytes e + n) (total_bytes-sum_by es)
