-- ===== src/Actions/Base.antt =====
-- faults/actions.py: what all fault actions share: the fields of the base class, the keyword
-- arguments of the constructors, and the text helpers of `serialize` and `deserialize`.
use faultstorm.Prelude.{
  ℕ, ◌≡◌, refl, Bool, true, false, List, [], ◌∷◌, ◌++◌, Option, none, some, ℤ, pos, Result, ok, err,
  index_error, value_error, get_elem?, ◌>>=◌,
}
use faultstorm.Prelude.Dict.{Dict}
use faultstorm.Text.{Text, codes, split, strip, split_on, join}
use faultstorm.Text.Decimal.{int, str}

-- The arguments of every constructor and of `deserialize` that describe the cluster.
pub record Nodes : Type 0 where
  pub db_nodes : List Text
  pub extra_nodes : List Text
  pub dc_map : Dict Text (List Text)

-- The fields of `class FaultAction`.
pub record FaultAction : Type 0 where
  pub nodes : Nodes
  pub open nodes use *
  pub ordinal : ℤ

abbrev pub all_nodes : FaultAction → List Text
all_nodes a = a.db_nodes ++ a.extra_nodes

-- A `(min_ms, max_ms)` tuple.
abbrev pub Range : Type 0
Range = ℤ × ℤ

-- The keyword arguments behind `dc_map` of all constructors; `none` is an argument that is left
-- out, or None.
pub record Kwargs : Type 0 where
  pub seconds : Option ℤ
  pub process : Option Text
  pub node : Option Text
  pub processes : Option (List Text)
  pub group1 : Option (List Text)
  pub group2 : Option (List Text)
  pub ordered : Option (List Text)
  pub direction : Option Text
  pub subnet_type : Option Text
  pub blocked_nodes : Option (List Text)
  pub dc_name : Option Text
  pub group : Option Text
  pub freeze_duration_range : Option Range
  pub freeze_pause_range : Option Range

abbrev pub no_kwargs : Kwargs
no_kwargs = record {
  seconds = none;
  process = none;
  node = none;
  processes = none;
  group1 = none;
  group2 = none;
  ordered = none;
  direction = none;
  subnet_type = none;
  blocked_nodes = none;
  dc_name = none;
  group = none;
  freeze_duration_range = none;
  freeze_pause_range = none;
}

module _ {ℓ} {A : Type ℓ} where
  abbrev pub given : Option A → Bool
  given none = false
  given (some a) = true

  -- `x or default`, at None
  abbrev pub or_else : Option A → A → A
  or_else none d = d
  or_else (some a) d = a

-- `xs or default`, at a list: an empty one is replaced too
abbrev pub or_default : Option (List Text) → List Text → List Text
or_default none d = d
or_default (some []) d = d
or_default (some (x ∷ xs)) d = x ∷ xs

-- `f"{x}"` for a text that may be None
abbrev pub show_option : Option Text → Text
show_option none = codes "None"
show_option (some t) = t

-- `parts[i]`
unfoldable pub part : List Text → ℕ → Result Text
part parts i = elim (get_elem? parts i) [ none ↦ err index_error | some t ↦ ok t ]

-- `params.strip().split()`
unfoldable pub split_params : Text → List Text
unfolding split strip
split_params params = split (strip params)

-- `",".join(xs)` and `t.split(",")`
unfoldable pub to_csv : List Text → Text
unfolding join
to_csv xs = join b',' xs

unfoldable pub of_csv : Text → List Text
unfolding split_on
of_csv t = split_on b',' t

-- `f"{a} {b} …"`
unfoldable pub spaced : List Text → Text
unfolding join
spaced xs = join b' ' xs

-- `_serialize_range` and `_deserialize_range`
unfoldable pub serialize_range : Range → Text
unfolding str
serialize_range (lo, hi) = str lo ++ (b'-' ∷ str hi)

unfoldable pub range_of : List Text → Result Range
unfolding int
range_of (lo ∷ hi ∷ []) = do l ← int lo; h ← int hi; ok (l, h)
range_of _ = err value_error

unfoldable pub deserialize_range : Text → Result Range
unfolding range_of split_on
deserialize_range token = range_of (split_on b'-' token)

range_examples :
    (deserialize_range (codes "100-3000") ≡ ok (pos 100, pos 3000))
    × (deserialize_range (codes "-1-5") ≡ err value_error)
unfolding deserialize_range
range_examples = (refl, refl)
