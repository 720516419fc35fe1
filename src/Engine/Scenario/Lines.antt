-- ===== src/Engine/Scenario/Lines.antt =====
-- faults/engine.py: the text operations of `_parse_log` on a line as `_write_action` writes it.
use faultstorm.Prelude.{
  ◌≡◌, refl, ◌∙◌, ap, ◌⊎◌, inl, inr, Bool, true, false, [], ◌∷◌, ◌++◌, some, ok, All, arith,
  is_empty, if◌then◌else◌, nat_eq,
}
use faultstorm.Text.{Text, is_space, strip, lstrip, rstrip, words, split, first_word}
use faultstorm.Text.Split.{IsToken, HasNoSpace, words-lstrip, words-rstrip}
use faultstorm.Engine.State.{newline}
use faultstorm.Engine.Scenario.{is_stamp, behind_stamp, strip_timestamp, split_name}

-- A time as the pattern of `_TIMESTAMP_RE` takes it.
abbrev pub IsStamp : Text → Type 0
IsStamp [] = ⊥
IsStamp (c ∷ s) = All (λ d. is_stamp d ≡ true) (c ∷ s)

rstrip-append : (w s : Text) → HasNoSpace w → rstrip (w ++ s) ≡ w ++ rstrip s
unfolding rstrip
rstrip-append [] s h = refl
rstrip-append (c ∷ w) s h = ground (arith, rstrip-append w s h.1)

stamp-HasNoSpace : (now : Text) → All (λ d. is_stamp d ≡ true) now → HasNoSpace now
unfolding is_stamp is_space
stamp-HasNoSpace [] h = tt
stamp-HasNoSpace (c ∷ s) h = (ground arith, stamp-HasNoSpace s h.1)

behind_stamp_lem :
    (more : Bool) (now s : Text)
    → All (λ d. is_stamp d ≡ true) now
    → (more ≡ true) ⊎ (is_empty now ≡ false)
    → behind_stamp more (now ++ (b']' ∷ s)) ≡ some (lstrip s)
unfolding behind_stamp is_stamp
behind_stamp_lem more [] s h ne = ground arith
behind_stamp_lem more (c ∷ now) s h ne = rw (h.0, behind_stamp_lem true now s h.1 (inl refl))

-- The rest of a line behind the name of its action.
abbrev pub tail_of : Text → Text
tail_of params = (if is_empty params then [] else (b' ' ∷ params)) ++ newline ∷ []

lstrip-IsToken : (w s : Text) → IsToken w → lstrip (w ++ s) ≡ w ++ s
unfolding lstrip
lstrip-IsToken [] s h = elim h [ ]
lstrip-IsToken (c ∷ w) s h = ground arith

rstrip_space : (w s : Text) → IsToken w → rstrip (b' ' ∷ (w ++ s)) ≡ b' ' ∷ (w ++ rstrip s)
unfolding rstrip is_space
rstrip_space [] s h = elim h [ ]
rstrip_space (c ∷ w) s h = rw (rstrip-append (c ∷ w) s h) refl

rstrip_bracket :
    (w s : Text) → IsToken w → rstrip (b']' ∷ b' ' ∷ (w ++ s)) ≡ b']' ∷ b' ' ∷ (w ++ rstrip s)
unfolding is_space
rstrip_bracket w s h =
    rstrip-append (b']' ∷ []) (b' ' ∷ (w ++ s)) (refl, tt) ∙ ap (λ l. b']' ∷ l) (rstrip_space w s h)

IsStamp-HasNoSpace : (now : Text) → IsStamp now → HasNoSpace now
IsStamp-HasNoSpace [] h = elim h [ ]
IsStamp-HasNoSpace (c ∷ s) h = stamp-HasNoSpace (c ∷ s) h

pub strip_line :
    (now w s : Text)
    → IsStamp now
    → IsToken w
    → strip (b'[' ∷ (now ++ (b']' ∷ b' ' ∷ (w ++ s))))
      ≡ b'[' ∷ (now ++ (b']' ∷ b' ' ∷ (w ++ rstrip s)))
unfolding strip lstrip is_space
strip_line now w s n h =
    rstrip-append (b'[' ∷ now) (b']' ∷ b' ' ∷ (w ++ s)) (refl, IsStamp-HasNoSpace now n)
    ∙ ap (λ l. b'[' ∷ (now ++ l)) (rstrip_bracket w s h)

pub strip_timestamp-line :
    (now w s : Text)
    → IsStamp now
    → IsToken w
    → strip_timestamp (b'[' ∷ (now ++ (b']' ∷ b' ' ∷ (w ++ s)))) ≡ w ++ s
unfolding strip_timestamp lstrip is_space
strip_timestamp-line [] w s n h = elim n [ ]
strip_timestamp-line (c ∷ now) w s n h =
    rw (behind_stamp_lem false (c ∷ now) (b' ' ∷ (w ++ s)) n (inr refl)) (lstrip-IsToken w s h)

words-newline : (s : Text) → words (s ++ newline ∷ []) ≡ words s
unfolding words is_space
words-newline [] = refl
words-newline (c ∷ s) = ground (arith, words-newline s)

-- What is left of `params` behind the name: nothing, or a space and more.
abbrev IsGap : Text → Type 0
IsGap [] = Unit
IsGap (c ∷ s) = is_space c ≡ true

rstrip-IsGap : (s : Text) → IsGap (rstrip (b' ' ∷ s))
unfolding rstrip is_space
rstrip-IsGap s = ground arith

tail-IsGap : (params : Text) → IsGap (rstrip (tail_of params))
unfolding rstrip is_space
tail-IsGap [] = tt
tail-IsGap (c ∷ s) = rstrip-IsGap (c ∷ (s ++ newline ∷ []))

first_word-gap : (w s : Text) → HasNoSpace w → IsGap s → first_word (w ++ s) ≡ (w, s)
unfolding first_word
first_word-gap [] [] h g = refl
first_word-gap [] (c ∷ s) h g = rw g refl
first_word-gap (c ∷ w) s h g = rw (h.0, first_word-gap w s h.1 g) refl

split_name-gap : (w s : Text) → IsToken w → IsGap s → split_name (w ++ s) ≡ ok (w, lstrip s)
unfolding split_name
split_name-gap [] s h g = elim h [ ]
split_name-gap (c ∷ w) s h g =
    ground (arith, lstrip-IsToken (c ∷ w) s h, first_word-gap (c ∷ w) s h g)

split-tail : (params : Text) → split (lstrip (rstrip (tail_of params))) ≡ split params
unfolding split words rstrip is_space lstrip
split-tail [] = refl
split-tail (c ∷ s) =
    words-lstrip (rstrip (tail_of (c ∷ s)))
    ∙ ground (arith, words-rstrip (tail_of (c ∷ s)), words-newline (c ∷ s))

-- The name and the parameters of a line that was stripped: the parameters split as those written.
pub split_name-line :
    (w params : Text)
    → IsToken w
    → (t : Text) × (split_name (w ++ rstrip (tail_of params)) ≡ ok (w, t))
      × (split t ≡ split params)
split_name-line w params h = (
  lstrip (rstrip (tail_of params)),
  split_name-gap w (rstrip (tail_of params)) h (tail-IsGap params),
  split-tail params,
)
