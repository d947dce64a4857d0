-- ===== src/Batching/Costs.antt =====
-- What the batches of tools/python-enforcement/uta_enforce_core/mutation_batching.py are made of.
use unit_test_agent.Prelude.{
  ℕ, String, suc, zero, ◌+◌, ◌*◌, ◌≡◌, refl, sym, ap, ◌∙◌, Bool, true, false, Option, none, some,
  List, [], ◌∷◌, ◌++◌, map, ltb, leb, if◌then◌else◌, nat_eq, ==_refl, Bool-cases, Option-cases, inl,
  inr, length, elem, All, All-append, All-imp, sort_by, All-sort_by, sum_by, sum_by-append, arith,
}
use mathlib.Core.List.{append_assoc, append-nil}
use unit_test_agent.Batching.{
  MutationUnit, BatchPlan, Bin, Packing, max, take, drop, unit_le, lines_kept, add_to, first_fit,
  place, pack_lines, pack_unit, pack, bin_le, with_lines, number_from, partition_units_into_batches,
}

-- A unit with those of its lines that a batch takes.
abbrev pub Part : Type 0
Part = MutationUnit × List ℕ

-- The unit is copied once for each line, and once more.
abbrev pub part_bytes : Part → ℕ
part_bytes p = (length p.1 + 1) * p.0.unit_bytes

abbrev pub part_lines : List Part → List ℕ
part_lines [] = []
part_lines (p ∷ ps) = p.1 ++ part_lines ps

abbrev pub part_symbols : List Part → List String
part_symbols = map (λ p. p.0.symbol)

part_lines-append : (ps : List Part) (p : Part) → part_lines (ps ++ p ∷ []) ≡ part_lines ps ++ p.1
part_lines-append [] p = append-nil p.1
part_lines-append (q ∷ ps) p =
    ap (λ ls. q.1 ++ ls) (part_lines-append ps p) ∙ sym (append_assoc q.1 (part_lines ps) p.1)

part_symbols-append :
    (ps : List Part) (p : Part) → part_symbols (ps ++ p ∷ []) ≡ part_symbols ps ++ p.0.symbol ∷ []
part_symbols-append [] p = refl
part_symbols-append (q ∷ ps) p = ap (λ ss. q.0.symbol ∷ ss) (part_symbols-append ps p)

All-take : (P : ℕ → Type 0) (n : ℕ) (xs : List ℕ) → All P xs → All P (take n xs)
All-take P zero xs all = tt
All-take P (suc n) [] all = tt
All-take P (suc n) (x ∷ xs) all = (all.0, All-take P n xs all.1)

All-elem : (xs : List ℕ) → All (λ l. elem l xs ≡ true) xs
All-elem [] = tt
All-elem (x ∷ xs) = (rw (==_refl x) refl, All-imp xs (λ l h. ground (arith, h)) (All-elem xs))

-- P holds of the units that are given.
module _ (P : MutationUnit → Type 0) where
  -- A part of one of the units.
  abbrev pub Fair : Part → Type 0
  Fair p = P p.0 × All (λ l. elem l p.0.lines ≡ true) p.1

  abbrev Made : Bin → Type 0
  Made b =
      (parts : List Part) × (b.symbols ≡ part_symbols parts)
      × (b.lines ≡ part_lines parts)
      × (b.used ≡ sum_by part_bytes parts)
      × All Fair parts

  -- The symbols, the lines and the size of a batch are those of parts of the units.
  abbrev pub PlanMade : BatchPlan → Type 0
  PlanMade b =
      (parts : List Part) × (b.symbols ≡ part_symbols parts)
      × (b.lines ≡ sort_by leb (part_lines parts))
      × (b.estimated_bytes ≡ sum_by part_bytes parts)
      × All Fair parts

  add_to-Made :
      (b : Bin) (p : Part) → Made b → Fair p → Made (add_to b (part_bytes p) p.0.symbol p.1)
  add_to-Made b p (parts, symbols, lines, used, fair) part = (
    parts ++ p ∷ [],
    ap (λ ss. ss ++ p.0.symbol ∷ []) symbols ∙ sym (part_symbols-append parts p),
    ap (λ ls. ls ++ p.1) lines ∙ sym (part_lines-append parts p),
    omega (arith, used, sum_by-append part_bytes parts (p ∷ [])),
    All-append Fair parts (p ∷ []) fair (part, tt),
  )

  first_fit-Made :
      (budget : ℕ) (p : Part) (bs : List Bin) {bs' : List Bin}
      → first_fit budget (part_bytes p) p.0.symbol p.1 bs ≡ some bs'
      → Fair p
      → All Made bs
      → All Made bs'
  unfolding first_fit
  first_fit-Made budget p [] h part all = absurd (cc)
  first_fit-Made budget p (b ∷ bs) {bs'} h part all =
      elim (Bool-cases (leb (b.used + part_bytes p) budget)) [
        | inl room ↦
            let e : add_to b (part_bytes p) p.0.symbol p.1 ∷ bs ≡ bs' = cc (rw room at h) in
            rw (← e) (add_to-Made b p all.0 part, all.1)
        | inr full ↦ elim (Option-cases (first_fit budget (part_bytes p) p.0.symbol p.1 bs)) [
          | inl nowhere ↦ absurd (cc (rw (full, nowhere) at h))
          | inr (rest, fits) ↦
              let e : b ∷ rest ≡ bs' = cc (rw (full, fits) at h) in
              rw (← e) (all.0, first_fit-Made budget p bs fits part all.1)
        ]
      ]

  place-Made :
      (found : Option (List Bin)) (max_batches : ℕ) (p : Part) (packing : Packing)
      → ((bs : List Bin) → found ≡ some bs → All Made bs)
      → Fair p
      → All Made packing.bins
      → All Made (place found max_batches (part_bytes p) p.0.symbol p.1 packing).bins
  place-Made (some bs) max_batches p packing fits part all = fits bs refl
  place-Made none max_batches p packing fits part all =
      elim (Bool-cases (ltb (length packing.bins) max_batches)) [
        | inr full ↦ rw full all
        | inl room ↦
            let new : Bin = record {
              used = part_bytes p;
              symbols = p.0.symbol ∷ [];
              lines = p.1;
            } in
            rw room (
              All-append Made packing.bins (new ∷ []) all
                ((p ∷ [], refl, sym (append-nil p.1), omega arith, (part, tt)), tt))
      ]

  looked_up :
      (b : Bool) (budget : ℕ) (p : Part) (bs bs' : List Bin)
      → if◌then◌else◌ {A = Option (List Bin)} b
          (first_fit budget (part_bytes p) p.0.symbol p.1 bs)
          none
        ≡ some bs'
      → Fair p
      → All Made bs
      → All Made bs'
  looked_up true budget p bs bs' h part all = first_fit-Made budget p bs h part all
  looked_up false budget p bs bs' h part all = absurd (cc)

  pack_lines-Made :
      (budget max_batches : ℕ) (u : MutationUnit) (ls : List ℕ) (packing : Packing)
      → P u
      → All (λ l. elem l u.lines ≡ true) ls
      → All Made packing.bins
      → All Made (pack_lines budget max_batches u ls packing).bins
  unfolding pack_lines
  pack_lines-Made budget max_batches u [] packing held own all = all
  pack_lines-Made budget max_batches u (l ∷ ls) packing held own all =
      let k = lines_kept budget u.unit_bytes (length (l ∷ ls)) in
      let p : Part = (u, take k (l ∷ ls)) in
      let part : Fair p = (held, All-take (λ m. elem m u.lines ≡ true) k (l ∷ ls) own) in
      place-Made
        (if leb (part_bytes p) budget
          then first_fit budget (part_bytes p) u.symbol p.1 packing.bins
          else none)
        max_batches p (record packing { cap_omitted = packing.cap_omitted ++ drop k (l ∷ ls) })
        (λ bs e. looked_up (leb (part_bytes p) budget) budget p packing.bins bs e part all) part all

  pack-Made :
      (budget max_batches : ℕ) (us : List MutationUnit) (packing : Packing)
      → All P us
      → All Made packing.bins
      → All Made (pack budget max_batches us packing).bins
  unfolding pack pack_unit
  pack-Made budget max_batches [] packing held all = all
  pack-Made budget max_batches (u ∷ us) packing held all =
      pack-Made budget max_batches us (pack_unit budget max_batches u packing) held.1 (
        pack_lines-Made budget max_batches u (sort_by leb u.lines) packing held.0
          (All-sort_by (λ l. elem l u.lines ≡ true) leb u.lines (All-elem u.lines)) all)

  number_from-Made : (i : ℕ) (bs : List Bin) → All Made bs → All PlanMade (number_from i bs)
  number_from-Made i [] all = tt
  number_from-Made i (b ∷ bs) (made, all) =
      let (parts, symbols, lines, used, fair) = made in
      ((parts, symbols, ap (sort_by leb) lines, used, fair), number_from-Made (suc i) bs all)

with_lines-All : (P : Bin → Type 0) (bs : List Bin) → All P bs → All P (with_lines bs)
with_lines-All P [] all = tt
with_lines-All P (b ∷ bs) all = either b.lines (with_lines-All P bs all.1)
  where
    either :
        (ls : List ℕ)
        → All P (with_lines bs)
        → let rest : List Bin = elim ls [ [] ↦ with_lines bs | _ ∷ _ ↦ b ∷ with_lines bs ] in
          All P rest
    either [] p = p
    either (l ∷ ls) p = (all.0, p)

pub partition_units_into_batches-PlanMade :
    (hexdigest : String → String) (budget max_batches : ℕ) (units : List MutationUnit)
    (P : MutationUnit → Type 0)
    → All P units
    → All (PlanMade P) (partition_units_into_batches hexdigest budget max_batches units).batches
unfolding partition_units_into_batches
partition_units_into_batches-PlanMade hexdigest budget max_batches units P held =
    let none_yet : Packing = record { bins = []; cap_omitted = []; max_omitted = [] } in
    let packed = pack budget (max 1 max_batches) (sort_by unit_le units) none_yet in
    let made =
      pack-Made P budget (max 1 max_batches) (sort_by unit_le units) none_yet
        (All-sort_by P unit_le units held) tt in
    number_from-Made P 0 (sort_by bin_le (with_lines packed.bins)) (
      All-sort_by (Made P) bin_le (with_lines packed.bins)
        (with_lines-All (Made P) packed.bins made))
