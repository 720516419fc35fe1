-- ===== src/Text/Split.antt =====
-- What the text operations do to words that hold no separator.
use faultstorm.Prelude.{
  ℕ, ◌≡◌, refl, false, List, [], ◌∷◌, ◌++◌, ◌∙◌, ap, All, All-append, arith, ◌==◌, nat_eq,
}
use faultstorm.Text.{Text, is_space, lstrip, rstrip, strip, words, split, fields, split_on, join}

abbrev pub HasNoSpace : Text → Type 0
HasNoSpace = All (λ c. is_space c ≡ false)

-- A word that `split` gives back: not empty, and without white space.
abbrev pub IsToken : Text → Type 0
IsToken [] = ⊥
IsToken (c ∷ w) = (is_space c ≡ false) × HasNoSpace w

abbrev pub Lacks : ℕ → Text → Type 0
Lacks sep = All (λ c. (c == sep) ≡ false)

pub IsToken-HasNoSpace : (w : Text) → IsToken w → HasNoSpace w
IsToken-HasNoSpace [] h = elim h [ ]
IsToken-HasNoSpace (c ∷ w) h = h

pub words-lstrip : (s : Text) → split (lstrip s) ≡ split s
unfolding split lstrip words
words-lstrip [] = refl
words-lstrip (c ∷ s) = ground (arith, words-lstrip s)

pub words-rstrip : (s : Text) → words (rstrip s) ≡ words s
unfolding rstrip words
words-rstrip [] = refl
words-rstrip (c ∷ s) = ground (arith, words-rstrip s)

-- `s.strip().split()` is `s.split()`.
pub split-strip : (s : Text) → split (strip s) ≡ split s
unfolding strip split
split-strip s = ground (arith, words-rstrip (lstrip s), words-lstrip s)

lstrip-HasNoSpace : (s : Text) → HasNoSpace s → lstrip s ≡ s
unfolding lstrip
lstrip-HasNoSpace [] h = refl
lstrip-HasNoSpace (c ∷ s) h = ground arith

rstrip-HasNoSpace : (s : Text) → HasNoSpace s → rstrip s ≡ s
unfolding rstrip
rstrip-HasNoSpace [] h = refl
rstrip-HasNoSpace (c ∷ s) h = ground (arith, rstrip-HasNoSpace s h.1)

pub strip-HasNoSpace : (s : Text) → HasNoSpace s → strip s ≡ s
unfolding strip
strip-HasNoSpace s h = ground (arith, lstrip-HasNoSpace s h, rstrip-HasNoSpace s h)

words-HasNoSpace : (w : Text) → HasNoSpace w → words w ≡ (w, [])
unfolding words
words-HasNoSpace [] h = refl
words-HasNoSpace (c ∷ w) h = ground (arith, words-HasNoSpace w h.1)

words-append : (w s : Text) → HasNoSpace w → words (w ++ (b' ' ∷ s)) ≡ (w, split s)
unfolding words split is_space
words-append [] s h = refl
words-append (c ∷ w) s h = rw (h.0, words-append w s h.1)

pub split-IsToken : (w : Text) → IsToken w → split w ≡ w ∷ []
unfolding split
split-IsToken [] h = elim h [ ]
split-IsToken (c ∷ w) h = ground (arith, words-HasNoSpace (c ∷ w) h)

pub split-append : (w s : Text) → IsToken w → split (w ++ (b' ' ∷ s)) ≡ w ∷ split s
unfolding split
split-append [] s h = elim h [ ]
split-append (c ∷ w) s h = ground (arith, words-append (c ∷ w) s h)

pub fields-Lacks : (sep : ℕ) (w : Text) → Lacks sep w → fields sep w ≡ (w, [])
unfolding fields
fields-Lacks sep [] h = refl
fields-Lacks sep (c ∷ w) h = ground (arith, fields-Lacks sep w h.1)

pub fields-append :
    (sep : ℕ) (w s : Text) → Lacks sep w → fields sep (w ++ (sep ∷ s)) ≡ (w, split_on sep s)
unfolding fields split_on
fields-append sep [] s h = ground arith
fields-append sep (c ∷ w) s h = ground (arith, fields-append sep w s h.1)

-- `sep.join(xs).split(sep)` is `xs`, unless `xs` is empty or one of its texts holds `sep`.
pub split_on-join :
    (sep : ℕ) (x : Text) (xs : List Text)
    → Lacks sep x
    → All (Lacks sep) xs
    → split_on sep (join sep (x ∷ xs)) ≡ x ∷ xs
unfolding split_on join
split_on-join sep x [] h hs = ground (arith, fields-Lacks sep x h)
split_on-join sep x (y ∷ ys) h hs =
    ground (arith, fields-append sep x (join sep (y ∷ ys)) h, split_on-join sep y ys hs.0 hs.1)

pub join-HasNoSpace :
    (sep : ℕ) (xs : List Text) → is_space sep ≡ false → All HasNoSpace xs → HasNoSpace (join sep xs)
unfolding join
join-HasNoSpace sep [] s h = tt
join-HasNoSpace sep (x ∷ []) s h = h.0
join-HasNoSpace sep (x ∷ y ∷ ys) s h =
    All-append (λ c. is_space c ≡ false) x _ h.0 (s, join-HasNoSpace sep (y ∷ ys) s h.1)

-- `" ".join(ws).split()` is `ws`, for words that are not empty and hold no white space.
pub split-join :
    (w : Text) (ws : List Text) → IsToken w → All IsToken ws → split (join b' ' (w ∷ ws)) ≡ w ∷ ws
unfolding join
split-join w [] h hs = split-IsToken w h
split-join w (v ∷ vs) h hs =
    split-append w (join b' ' (v ∷ vs)) h ∙ ap (λ l. w ∷ l) (split-join v vs hs.0 hs.1)

-- Words joined by a character that is no white space are one word.
pub join-IsToken :
    (sep : ℕ) (x : Text) (xs : List Text)
    → is_space sep ≡ false
    → IsToken x
    → All HasNoSpace xs
    → IsToken (join sep (x ∷ xs))
unfolding join
join-IsToken sep [] xs s h hs = elim h [ ]
join-IsToken sep (c ∷ x) [] s h hs = h
join-IsToken sep (c ∷ x) (y ∷ ys) s h hs =
    All-append (λ c. is_space c ≡ false) (c ∷ x) _ h (s, join-HasNoSpace sep (y ∷ ys) s hs)

words-HasNoSpace_then : (w : Text) → HasNoSpace w → words (w ++ b' ' ∷ []) ≡ (w, [])
unfolding words is_space
words-HasNoSpace_then [] h = refl
words-HasNoSpace_then (c ∷ w) h = rw (h.0, words-HasNoSpace_then w h.1)

-- An empty text at the end is no word.
pub split-join_open :
    (w : Text) (ws : List Text)
    → IsToken w
    → All IsToken ws
    → split (join b' ' (w ∷ (ws ++ [] ∷ []))) ≡ w ∷ ws
unfolding join
split-join_open [] ws h hs = elim h [ ]
split-join_open (c ∷ w) [] h hs = unfold split in ground (arith, words-HasNoSpace_then (c ∷ w) h)
split-join_open (c ∷ w) (v ∷ vs) h hs =
    split-append (c ∷ w) (join b' ' (v ∷ (vs ++ [] ∷ []))) h
    ∙ ap (λ l. (c ∷ w) ∷ l) (split-join_open v vs hs.0 hs.1)
