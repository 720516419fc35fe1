-- ===== src/Text.antt =====
-- The Python text operations that the scenario log is written and read with (`str.strip`,
-- `str.split`, `str.join`, `int`, `str`). A text is the list of its code points.
pub mod Split
pub mod Decimal
use Prim.Native.Char.{code}
use Prim.Native.String.{String}
use faultstorm.Prelude.{
  ℕ, zero, suc, ◌+◌, ◌-◌, ◌*◌, ◌/◌, ◌%◌, ◌≡◌, refl, Bool, true, false, not, ◌&&◌, ◌||◌, List, [],
  ◌∷◌, ◌++◌, Option, none, some, ℤ, pos, negsuc, leb, ltb, if◌then◌else◌, ◌==◌, nat_eq, is_empty,
}

abbrev pub Text : Type 0
Text = List ℕ

abbrev pub codes : String → Text
codes String.[] = []
codes (String.◌∷◌ c s) = code c ∷ codes s

-- `c.isspace()`
unfoldable pub is_space : ℕ → Bool
is_space c =
    (leb 9 c && leb c 13)
    || (leb 28 c && leb c 32)
    || (c == 0x85)
    || (c == 0xa0)
    || (c == 0x1680)
    || (leb 0x2000 c && leb c 0x200a)
    || (c == 0x2028)
    || (c == 0x2029)
    || (c == 0x202f)
    || (c == 0x205f)
    || (c == 0x3000)

unfoldable pub lstrip : Text → Text
lstrip [] = []
lstrip (c ∷ s) = let rest = lstrip s in if is_space c then rest else (c ∷ s)

unfoldable pub rstrip : Text → Text
rstrip [] = []
rstrip (c ∷ s) = let rest = rstrip s in if is_space c && is_empty rest then [] else (c ∷ rest)

-- `s.strip()`
unfoldable pub strip : Text → Text
unfolding lstrip rstrip is_space
strip s = rstrip (lstrip s)

-- A word that is complete; two separators in a row leave none between them.
abbrev pub cons_word : Text → List Text → List Text
cons_word [] ws = ws
cons_word (c ∷ w) ws = (c ∷ w) ∷ ws

-- The word that a text begins with, and the words behind it.
unfoldable pub words : Text → Text × List Text
words [] = ([], [])
words (c ∷ s) = let (w, ws) = words s in if is_space c then ([], cons_word w ws) else (c ∷ w, ws)

-- `s.split()`
unfoldable pub split : Text → List Text
unfolding words is_space
split s = let (w, ws) = words s in cons_word w ws

-- The field that a text begins with, and the fields behind it.
unfoldable pub fields : ℕ → Text → Text × List Text
fields sep [] = ([], [])
fields sep (c ∷ s) = let (w, ws) = fields sep s in if c == sep then ([], w ∷ ws) else (c ∷ w, ws)

-- `s.split(sep)`, for a separator of one character
unfoldable pub split_on : ℕ → Text → List Text
unfolding fields
split_on sep s = let (w, ws) = fields sep s in w ∷ ws

-- `sep.join(xs)`, for a separator of one character
unfoldable pub join : ℕ → List Text → Text
join sep [] = []
join sep (x ∷ []) = x
join sep (x ∷ y ∷ ys) = x ++ (sep ∷ join sep (y ∷ ys))

-- The rest of `s` behind `prefix`.
unfoldable pub remove_prefix : Text → Text → Option Text
remove_prefix [] s = some s
remove_prefix (p ∷ ps) [] = none
remove_prefix (p ∷ ps) (c ∷ s) = let rest = remove_prefix ps s in if p == c then rest else none

-- The text up to the first white space, and the text from there.
unfoldable pub first_word : Text → Text × Text
first_word [] = ([], [])
first_word (c ∷ s) =
    let (w, rest) = first_word s in if is_space c then ([], c ∷ s) else (c ∷ w, rest)

-- `a < b` on texts
unfoldable pub ltb_text : Text → Text → Bool
ltb_text [] [] = false
ltb_text [] (d ∷ b) = true
ltb_text (c ∷ a) [] = false
ltb_text (c ∷ a) (d ∷ b) = let rest = ltb_text a b in if c == d then rest else ltb c d
