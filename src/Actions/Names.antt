-- ===== src/Actions/Names.antt =====
-- faults/actions.py: the parameters of an action in its log line, and the words that they split
-- into again.
use faultstorm.Prelude.{ℕ, ◌≡◌, refl, ◌∙◌, List, [], ◌∷◌, ◌++◌, ℤ, pos, ok, All, arith}
use faultstorm.Text.{Text, is_space, split, split_on, join}
use faultstorm.Text.Split.{
  HasNoSpace, IsToken, Lacks, IsToken-HasNoSpace, split-strip, split-append, split-join,
  split-join_open, join-IsToken, split_on-join,
}
use faultstorm.Text.Decimal.{str, int-str, str-IsToken, str-Lacks_dash}
use faultstorm.Actions.Base.{
  Range, split_params, spaced, to_csv, of_csv, serialize_range, deserialize_range, range_of,
}

-- A node or process name as the log can hold it: not empty, no white space, no comma.
abbrev pub IsName : Text → Type 0
IsName t = IsToken t × Lacks b',' t

-- A list of names that is not empty.
abbrev pub AreNames : List Text → Type 0
AreNames [] = ⊥
AreNames (x ∷ xs) = IsName x × All IsName xs

pub split_params-spaced :
    (w : Text) (ws : List Text)
    → IsToken w
    → All IsToken ws
    → split_params (spaced (w ∷ ws)) ≡ w ∷ ws
unfolding split_params spaced
split_params-spaced w ws h hs = split-strip (join b' ' (w ∷ ws)) ∙ split-join w ws h hs

pub split_params-spaced_open :
    (w : Text) (ws : List Text)
    → IsToken w
    → All IsToken ws
    → split_params (spaced (w ∷ (ws ++ [] ∷ []))) ≡ w ∷ ws
unfolding split_params spaced
split_params-spaced_open w ws h hs =
    split-strip (join b' ' (w ∷ (ws ++ [] ∷ []))) ∙ split-join_open w ws h hs

pub split_params-spaced_blank :
    (w : Text) → IsToken w → split_params (spaced (w ∷ [] ∷ [] ∷ [])) ≡ w ∷ []
unfolding split_params spaced join split
split_params-spaced_blank w h =
    split-strip (join b' ' (w ∷ [] ∷ [] ∷ [])) ∙ split-append w (b' ' ∷ []) h

names-HasNoSpace : (xs : List Text) → All IsName xs → All HasNoSpace xs
names-HasNoSpace [] h = tt
names-HasNoSpace (x ∷ xs) h = (IsToken-HasNoSpace x h.0.0, names-HasNoSpace xs h.1)

names-Lacks : (xs : List Text) → All IsName xs → All (Lacks b',') xs
names-Lacks [] h = tt
names-Lacks (x ∷ xs) h = (h.0.1, names-Lacks xs h.1)

pub to_csv-IsToken : (xs : List Text) → AreNames xs → IsToken (to_csv xs)
unfolding to_csv is_space
to_csv-IsToken [] h = elim h [ ]
to_csv-IsToken (x ∷ xs) h = join-IsToken b',' x xs refl h.0.0 (names-HasNoSpace xs h.1)

pub of_csv-to_csv : (xs : List Text) → AreNames xs → of_csv (to_csv xs) ≡ xs
unfolding of_csv to_csv
of_csv-to_csv [] h = elim h [ ]
of_csv-to_csv (x ∷ xs) h = split_on-join b',' x xs h.0.1 (names-Lacks xs h.1)

serialize_range_lem : (r : Range) → serialize_range r ≡ join b'-' (str r.0 ∷ str r.1 ∷ [])
unfolding serialize_range join
serialize_range_lem r = refl

pub serialize_range-IsToken : (r : Range) → IsToken (serialize_range r)
unfolding is_space
serialize_range-IsToken r = rw (serialize_range_lem r) (
    join-IsToken b'-' (str r.0) (str r.1 ∷ []) refl (str-IsToken r.0)
      (IsToken-HasNoSpace (str r.1) (str-IsToken r.1), tt))

range_of-str : (l h : ℤ) → range_of (str l ∷ str h ∷ []) ≡ ok (l, h)
unfolding range_of
range_of-str l h = ground (arith, int-str l, int-str h)

deserialize_range_lem : (t : Text) → deserialize_range t ≡ range_of (split_on b'-' t)
unfolding deserialize_range
deserialize_range_lem t = refl

-- A range with natural bounds is read back.
pub deserialize-serialize_range :
    (lo hi : ℕ) → deserialize_range (serialize_range (pos lo, pos hi)) ≡ ok (pos lo, pos hi)
deserialize-serialize_range lo hi =
    rw
      (
        deserialize_range_lem (serialize_range (pos lo, pos hi)),
        serialize_range_lem (pos lo, pos hi),
        split_on-join b'-' (str (pos lo)) (str (pos hi) ∷ []) (str-Lacks_dash lo)
            (str-Lacks_dash hi, tt),
      )
      (range_of-str (pos lo) (pos hi))
