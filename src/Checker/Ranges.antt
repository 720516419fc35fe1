-- ===== src/Checker/Ranges.antt =====
-- checker.py: the ranges of `_log_problem_intervals` cover the buckets of the problems.
use faultstorm.Prelude.{
  if◌then◌else◌, ◌-◌, ◌/◌, ◌<◌, ℕ, zero, suc, ◌+◌, ◌≤◌, ◌≡◌, ◌∙◌, refl, Bool, true, false, ◌&&◌,
  ◌||◌, List, [], ◌∷◌, Option, none, some, ℤ, map, is_empty, pos, leb, ltb, contains, contains-add,
  lookup, arith, int_eq, nat_eq, ◌==◌, Bool-cases, Option-cases, inl, inr,
}
use faultstorm.Prelude.Dict.{Dict}
use faultstorm.Checker.Availability.{bucket, total_intervals}
use faultstorm.Checker.Problems.{
  clamped, at_time, log_problem_intervals, problem_indices, ranges_from, flush, opened,
}

-- The bucket lies in some range.
abbrev pub covered : ℕ → List (ℕ × ℕ) → Bool
covered i [] = false
covered i ((since, end) ∷ ranges) = (leb since i && ltb i end) || covered i ranges

abbrev pending : Option ℕ → ℕ → ℕ → Bool
pending none idx i = false
pending (some since) idx i = leb since i && ltb i idx

abbrev IsBehind : Option ℕ → ℕ → Type 0
IsBehind none idx = Unit
IsBehind (some since) idx = since ≤ idx

flush-covered :
    (o : Option ℕ) (idx i : ℕ) (ranges : List (ℕ × ℕ))
    → covered i (flush o idx ranges) ≡ (pending o idx i || covered i ranges)
flush-covered none idx i ranges = refl
flush-covered (some since) idx i ranges = refl

opened-IsBehind : (o : Option ℕ) (idx : ℕ) → IsBehind o idx → opened o idx ≤ idx
opened-IsBehind none idx h = omega arith
opened-IsBehind (some since) idx h = h

at_index :
    (indices : List ℤ) (idx i : ℕ) (b : Bool)
    → contains indices (pos idx) ≡ b
    → (i == idx) ≡ true
    → contains indices (pos i) ≡ b
at_index indices idx i b h e = let same : i ≡ idx = (nat_eq.beq_iff i idx).0 e in rw same h

-- A bucket with a problem belongs to the range that is open behind it.
here_lem :
    (indices : List ℤ) (k idx i : ℕ) (since : Option ℕ)
    → IsBehind since idx
    → contains indices (pos idx) ≡ true
    → (pending (some (opened since idx)) (idx + 1) i
        || ((leb (idx + 1) i && ltb i (idx + 1 + k)) && contains indices (pos i)))
      ≡ (pending since idx i || ((leb idx i && ltb i (idx + suc k)) && contains indices (pos i)))
here_lem indices k idx i none h p = let same = at_index indices idx i true p in ground arith
here_lem indices k idx i (some since) h p = let same = at_index indices idx i true p in ground arith

past_lem :
    (indices : List ℤ) (k idx i : ℕ) (since : Option ℕ)
    → contains indices (pos idx) ≡ false
    → (pending since idx i
        || ((leb (idx + 1) i && ltb i (idx + 1 + k)) && contains indices (pos i)))
      ≡ (pending since idx i || ((leb idx i && ltb i (idx + suc k)) && contains indices (pos i)))
past_lem indices k idx i since p = let same = at_index indices idx i false p in ground arith

ranges_from-covered :
    (indices : List ℤ) (k idx i : ℕ) (since : Option ℕ)
    → IsBehind since idx
    → covered i (ranges_from indices k idx since)
      ≡ (pending since idx i || ((leb idx i && ltb i (idx + k)) && contains indices (pos i)))
unfolding ranges_from
ranges_from-covered indices zero idx i since h = flush-covered since idx i [] ∙ ground arith
ranges_from-covered indices (suc k) idx i since h = elim (Bool-cases (contains indices (pos idx))) [
  | inl p ↦ rw p (
      ranges_from-covered indices k (idx + 1) i (some (opened since idx))
        (omega (arith, opened-IsBehind since idx h))
      ∙ here_lem indices k idx i since h p)
  | inr p ↦ rw p (
      flush-covered since idx i (ranges_from indices k (idx + 1) none)
      ∙ rw (ranges_from-covered indices k (idx + 1) i none tt) (past_lem indices k idx i since p))
]

-- The bucket `i` of `total` ones has the time `ts`; the last one has all that is behind it.
abbrev is_at : ℕ → ℕ → ℕ → Option ℕ → ℕ → Bool
is_at start total interval none i = false
is_at start total interval (some ts) i =
    if i + 1 == total then leb i ((ts - start) / interval) else (ts - start) / interval == i

abbrev pub has_problem : Dict ℤ ℕ → ℕ → ℕ → ℕ → List ℤ → ℕ → Bool
has_problem times start total interval [] i = false
has_problem times start total interval (v ∷ vs) i =
    is_at start total interval (lookup v times) i || has_problem times start total interval vs i

nothing_over : (n : ℕ) → 0 / n ≡ 0
nothing_over n = grind arith

clamped-is_at :
    (start total interval ts i : ℕ)
    → i < total
    → (clamped start total interval ts == pos i) ≡ is_at start total interval (some ts) i
unfolding bucket
clamped-is_at start total interval ts i h = elim (Bool-cases (leb start ts)) [
  | inl p ↦ rw p (ground arith)
  | inr p ↦
      let early : ts - start ≡ 0 = ground (arith, p) in
      rw (p, early, nothing_over interval) (ground arith)
]

module _ (times : Dict ℤ ℕ) (start : ℕ) where
  contains-problem_indices :
      (total interval : ℕ) (vs : List ℤ) (i : ℕ)
      → i < total
      → contains (problem_indices times start total interval vs) (pos i)
        ≡ has_problem times start total interval vs i
  unfolding problem_indices
  contains-problem_indices total interval [] i h = refl
  contains-problem_indices total interval (v ∷ vs) i h =
      let indices = problem_indices times start total interval vs in
      let before = contains-problem_indices total interval vs i h in
      elim (Option-cases (lookup v times)) [
        | inl e ↦ rw e before
        | inr (ts, e) ↦ rw e (
            contains-add (clamped start total interval ts) (pos i) indices
            ∙ rw (before, clamped-is_at start total interval ts i h) refl)
      ]

  inside_lem :
      (total interval : ℕ) (vs : List ℤ) (i : ℕ)
      → (ltb i total && contains (problem_indices times start total interval vs) (pos i))
        ≡ (ltb i total && has_problem times start total interval vs i)
  inside_lem total interval vs i = elim (Bool-cases (ltb i total)) [
    | inl p ↦ rw p (contains-problem_indices total interval vs i (ground (arith, p)))
    | inr p ↦ rw p refl
  ]

  pub log_problem_intervals-covered :
      (vs : List ℤ) (end interval : ℕ)
      → (rs : List (ℕ × ℕ)) × (log_problem_intervals vs times start end interval
          ≡ map (at_time start interval) rs)
        × ((i : ℕ)
            → covered i rs ≡ (
                ltb i (total_intervals start end interval)
                && has_problem times start (total_intervals start end interval) interval vs i))
  unfolding log_problem_intervals
  log_problem_intervals-covered vs end interval =
      let total = total_intervals start end interval in
      let indices = problem_indices times start total interval vs in
      elim (Bool-cases (is_empty indices)) [
        | inl p ↦ (
          [],
          rw p refl,
          λ i.
              let nothing : indices ≡ [] = ground (arith, p) in
              ground (arith, inside_lem total interval vs i, nothing),
        )
        | inr p ↦ (
          ranges_from indices total 0 none,
          rw p refl,
          λ i.
              ranges_from-covered indices total 0 i none tt
              ∙ (ground arith)
              ∙ inside_lem total interval vs i,
        )
      ]
