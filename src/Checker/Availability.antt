-- ===== src/Checker/Availability.antt =====
-- checker.py: write availability by time buckets.
-- A time stamp is a count of clock ticks, and `interval` the ticks of one bucket.
use Prim.Native.Nat.{max}
use faultstorm.Prelude.{
  ℕ, zero, suc, ◌+◌, ◌-◌, ◌/◌, ◌≡◌, refl, List, [], ◌∷◌, ℤ, pos, negsuc, leb, ltb, ltb_ℤ,
  if◌then◌else◌, length, add, int_eq,
}

-- A quotient of two counts; the source divides them as floats.
pub record Ratio : Type 0 where
  pub num : ℕ
  pub den : ℕ

abbrev pub no_availability : Ratio
no_availability = record { num = 0; den = 1 }

-- `min(x, *xs)` and `max(x, *xs)`
unfoldable pub min_of : ℕ → List ℕ → ℕ
min_of x [] = x
min_of x (y ∷ ys) = min_of (if ltb y x then y else x) ys

unfoldable pub max_of : ℕ → List ℕ → ℕ
max_of x [] = x
max_of x (y ∷ ys) = max_of (if ltb x y then y else x) ys

-- `max(1, math.ceil((end - start) / interval))`
unfoldable pub total_intervals : ℕ → ℕ → ℕ → ℕ
total_intervals start end interval = max 1 ((end - start + interval - 1) / interval)

abbrev pub minus : ℕ → ℤ
minus zero = pos 0
minus (suc n) = negsuc n

-- `int((ts - start) / interval)`: `int` rounds towards zero, on either side of `start`
unfoldable pub bucket : ℕ → ℕ → ℕ → ℤ
bucket start interval ts =
    if leb start ts then pos ((ts - start) / interval) else minus ((start - ts) / interval)

abbrev pub min_ℤ : ℤ → ℤ → ℤ
min_ℤ a b = if ltb_ℤ b a then b else a

abbrev pub max_ℤ : ℤ → ℤ → ℤ
max_ℤ a b = if ltb_ℤ a b then b else a

-- The buckets with a successful write; the last boundary falls into the last bucket.
unfoldable pub available_intervals : ℕ → ℕ → ℕ → List ℕ → List ℤ
unfolding bucket add
available_intervals start total interval [] = []
available_intervals start total interval (ts ∷ oks) =
    add (min_ℤ (bucket start interval ts) (pos (total - 1)))
      (available_intervals start total interval oks)

unfoldable pub compute_interval_availability : List ℕ → List ℕ → ℕ → Ratio
unfolding min_of max_of total_intervals available_intervals
compute_interval_availability [] oks interval = no_availability
compute_interval_availability (w ∷ ws) [] interval = no_availability
compute_interval_availability (w ∷ ws) (o ∷ oks) interval =
    let start = min_of w ws in
    let total = total_intervals start (max_of w ws) interval in
    record { num = length (available_intervals start total interval (o ∷ oks)); den = total }

two_of_three :
    compute_interval_availability (100 ∷ 150 ∷ 390 ∷ []) (120 ∷ 180 ∷ 395 ∷ []) 100
    ≡ record { num = 2; den = 3 }
unfolding compute_interval_availability
two_of_three = refl
