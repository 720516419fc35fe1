-- ===== src/Checker/Bounds.antt =====
-- checker.py: the range of the write availability.
use faultstorm.Prelude.{
  ℕ, zero, suc, ◌+◌, ◌-◌, ◌≤◌, ◌<◌, ◌≡◌, refl, false, not, List, [], ◌∷◌, ℤ, pos, negsuc, pos_part,
  neg_part, length, contains, contains-filter_by, filter_by, add, IsNodup, add-IsNodup, All, arith,
  ◌==◌, int_eq,
}
use faultstorm.Checker.Availability.{
  min_of, max_of, total_intervals, bucket, min_ℤ, available_intervals,
  compute_interval_availability,
}

abbrev others : ℤ → List ℤ → List ℤ
others a xs = filter_by (λ z. not (z == a)) xs

others_absent : (a : ℤ) (xs : List ℤ) → contains xs a ≡ false → others a xs ≡ xs
others_absent a [] h = refl
others_absent a (x ∷ xs) h = ground (arith, others_absent a xs)

length-others : (a : ℤ) (xs : List ℤ) → IsNodup xs → length xs ≤ length (others a xs) + 1
length-others a [] h = omega arith
length-others a (x ∷ xs) h =
    ground (arith, length-others a xs h.1, others_absent a xs, int_eq.beq_iff x a)

others-IsNodup : (a : ℤ) (xs : List ℤ) → IsNodup xs → IsNodup (others a xs)
others-IsNodup a [] h = tt
others-IsNodup a (x ∷ xs) h =
    ground (arith, others-IsNodup a xs h.1, contains-filter_by (λ z. not (z == a)) x xs)

abbrev IsIndex : ℕ → ℤ → Type 0
IsIndex n z = (neg_part z ≡ 0) × (pos_part z < n)

others-IsIndex :
    (n : ℕ) (xs : List ℤ) → All (IsIndex (suc n)) xs → All (IsIndex n) (others (pos n) xs)
others-IsIndex n [] h = tt
others-IsIndex n (pos k ∷ xs) h = ground (arith, others-IsIndex n xs h.1)
others-IsIndex n (negsuc k ∷ xs) h = absurd (omega arith)

-- At most `n` different indices lie below `n`.
length-le_of_IsIndex : (n : ℕ) (xs : List ℤ) → IsNodup xs → All (IsIndex n) xs → length xs ≤ n
length-le_of_IsIndex n [] d h = omega arith
length-le_of_IsIndex zero (x ∷ xs) d h = absurd (omega arith)
length-le_of_IsIndex (suc n) (x ∷ xs) d h =
    let ys = x ∷ xs in
    omega (
      arith,
      length-others (pos n) ys d,
      length-le_of_IsIndex n (others (pos n) ys) (others-IsNodup (pos n) ys d)
          (others-IsIndex n ys h),
    )

module _ (start total interval : ℕ) where
  available_intervals-IsNodup :
      (oks : List ℕ) → IsNodup (available_intervals start total interval oks)
  unfolding available_intervals
  available_intervals-IsNodup [] = tt
  available_intervals-IsNodup (ts ∷ oks) = add-IsNodup _ _ (available_intervals-IsNodup oks)

  add-IsIndex :
      (n : ℕ) (z : ℤ) (xs : List ℤ) → IsIndex n z → All (IsIndex n) xs → All (IsIndex n) (add z xs)
  unfolding add
  add-IsIndex n z xs h hs = ground arith

  bucket-IsIndex :
      (ts : ℕ)
      → start ≤ ts
      → 0 < total
      → IsIndex total (min_ℤ (bucket start interval ts) (pos (total - 1)))
  unfolding bucket
  bucket-IsIndex ts h t = ground arith

  available_intervals-IsIndex :
      (oks : List ℕ)
      → 0 < total
      → All (λ ts. start ≤ ts) oks
      → All (IsIndex total) (available_intervals start total interval oks)
  unfolding available_intervals
  available_intervals-IsIndex [] t h = tt
  available_intervals-IsIndex (ts ∷ oks) t h =
      add-IsIndex total _ _ (bucket-IsIndex ts h.0 t) (available_intervals-IsIndex oks t h.1)

  length-available_intervals :
      (oks : List ℕ)
      → 0 < total
      → All (λ ts. start ≤ ts) oks
      → length (available_intervals start total interval oks) ≤ total
  length-available_intervals oks t h =
      length-le_of_IsIndex total _ (available_intervals-IsNodup oks)
        (available_intervals-IsIndex oks t h)

total_intervals-pos : (start end interval : ℕ) → 0 < total_intervals start end interval
unfolding total_intervals
total_intervals-pos start end interval = omega arith

-- With at least one attempt, availability lies in [0, 1], if no successful write is stamped before
-- the first attempt.
pub compute_interval_availability-le_one :
    (w : ℕ) (ws oks : List ℕ) (interval : ℕ)
    → All (λ ts. min_of w ws ≤ ts) oks
    → ((compute_interval_availability (w ∷ ws) oks interval).num
        ≤ (compute_interval_availability (w ∷ ws) oks interval).den)
      × (0 < (compute_interval_availability (w ∷ ws) oks interval).den)
unfolding compute_interval_availability
compute_interval_availability-le_one w ws [] interval h = omega arith
compute_interval_availability-le_one w ws (o ∷ oks) interval h =
    let start = min_of w ws in
    let total = total_intervals start (max_of w ws) interval in
    (
      length-available_intervals start total interval (o ∷ oks)
          (total_intervals-pos start (max_of w ws) interval) h,
      total_intervals-pos start (max_of w ws) interval,
    )
