-- ===== src/Text/Decimal.antt =====
-- `str` and `int` on integers, in decimal.
use faultstorm.Prelude.{
  ℕ, zero, suc, ◌+◌, ◌-◌, ◌*◌, ◌/◌, ◌%◌, ◌<◌, ◌≡◌, refl, Bool, true, false, ◌&&◌, ◌||◌, [], ◌∷◌,
  Option, none, some, ℤ, pos, negsuc, leb, ltb, if◌then◌else◌, ◌==◌, nat_eq, arith, Result, ok, err,
  value_error, All, Bool-cases, ap, inl, inr, ◌∙◌,
}
use faultstorm.Text.{Text, strip, codes, is_space}
use faultstorm.Text.Split.{HasNoSpace, IsToken, Lacks, strip-HasNoSpace, IsToken-HasNoSpace}

digits : ℕ → ℕ → Text → Text
digits zero n out = out
digits (suc fuel) n out =
    let more = digits fuel (n / 10) ((b'0' + n % 10) ∷ out) in
    if ltb n 10 then ((b'0' + n) ∷ out) else more

-- `str(n)`
unfoldable pub str_nat : ℕ → Text
unfolding digits
str_nat n = digits (suc n) n []

unfoldable pub str : ℤ → Text
unfolding str_nat
str (pos n) = str_nat n
str (negsuc n) = b'-' ∷ str_nat (suc n)

abbrev pub is_digit : ℕ → Bool
is_digit c = leb b'0' c && leb c b'9'

-- Digits, with single underscores between them; `prev` says that a digit stands before.
unfoldable pub scan : Bool → ℕ → Text → Option ℕ
scan prev acc [] = if prev then some acc else none
scan prev acc (c ∷ s) =
    let rest = scan (is_digit c) (if is_digit c then acc * 10 + (c - b'0') else acc) s in
    if is_digit c || (c == b'_' && prev) then rest else none

abbrev pub read : (ℕ → ℤ) → Option ℕ → Result ℤ
read f none = err value_error
read f (some n) = ok (f n)

abbrev pub minus : ℕ → ℤ
minus zero = pos 0
minus (suc n) = negsuc n

unfoldable pub int_signed : Text → Result ℤ
unfolding scan
int_signed [] = err value_error
int_signed (c ∷ s) =
    if c == b'-'
    then read minus (scan false 0 s)
    else if c == b'+'
    then read pos (scan false 0 s)
    else read pos (scan false 0 (c ∷ s))

-- `int(s)`, over the ASCII digits
unfoldable pub int : Text → Result ℤ
unfolding int_signed strip
int s = int_signed (strip s)

int_examples :
    (int (codes " -1_0 ") ≡ ok (negsuc 9))
    × (int (codes "_1") ≡ err value_error)
    × (int (codes "") ≡ err value_error)
    × (str (negsuc 99) ≡ codes "-100")
unfolding int str
int_examples = (refl, refl, refl, refl)

scan_last :
    (n : ℕ) (prev : Bool) (out : Text)
    → ltb n 10 ≡ true
    → scan prev 0 ((b'0' + n) ∷ out) ≡ scan true n out
unfolding scan
scan_last n prev out h = ground arith

scan_digit : (n : ℕ) (out : Text) → scan true (n / 10) ((b'0' + n % 10) ∷ out) ≡ scan true n out
unfolding scan
scan_digit n out = ground arith

scan-digits :
    (fuel n : ℕ) (prev : Bool) (out : Text)
    → n < fuel
    → scan prev 0 (digits fuel n out) ≡ scan true n out
unfolding digits scan
scan-digits zero n prev out h = elim h [ ]
scan-digits (suc fuel) n prev out h = elim (Bool-cases (ltb n 10)) [
  | inl small ↦ rw small (scan_last n prev out small)
  | inr large ↦
      rw large
        (scan-digits fuel (n / 10) prev ((b'0' + n % 10) ∷ out) (ground arith) ∙ scan_digit n out)
]

abbrev IsNumeral : Text → Type 0
IsNumeral [] = ⊥
IsNumeral (c ∷ s) = (is_digit c ≡ true) × All (λ d. is_digit d ≡ true) s

digits-IsNumeral :
    (fuel n : ℕ) (out : Text)
    → n < fuel
    → All (λ d. is_digit d ≡ true) out
    → IsNumeral (digits fuel n out)
unfolding digits
digits-IsNumeral zero n out h all = elim h [ ]
digits-IsNumeral (suc fuel) n out h all = elim (Bool-cases (ltb n 10)) [
  | inl small ↦ rw small (ground arith, all)
  | inr large ↦
      rw large
        (digits-IsNumeral fuel (n / 10) ((b'0' + n % 10) ∷ out) (ground arith) (ground arith, all))
]

str_nat-IsNumeral : (n : ℕ) → IsNumeral (str_nat n)
unfolding str_nat
str_nat-IsNumeral n = digits-IsNumeral (suc n) n [] (omega arith) tt

digit-HasNoSpace : (c : ℕ) → is_digit c ≡ true → is_space c ≡ false
unfolding is_space
digit-HasNoSpace c h = ground arith

digits-HasNoSpace : (s : Text) → All (λ d. is_digit d ≡ true) s → HasNoSpace s
digits-HasNoSpace [] h = tt
digits-HasNoSpace (c ∷ s) h = (digit-HasNoSpace c h.0, digits-HasNoSpace s h.1)

numeral-IsToken : (s : Text) → IsNumeral s → IsToken s
numeral-IsToken [] h = elim h [ ]
numeral-IsToken (c ∷ s) h = digits-HasNoSpace (c ∷ s) h

-- The text of an integer is one word.
pub str-IsToken : (z : ℤ) → IsToken (str z)
unfolding str is_space
str-IsToken (pos n) = numeral-IsToken (str_nat n) (str_nat-IsNumeral n)
str-IsToken (negsuc n) =
    (refl, IsToken-HasNoSpace (str_nat (suc n)) (numeral-IsToken _ (str_nat-IsNumeral (suc n))))

digits-Lacks :
    (sep : ℕ) (s : Text) → is_digit sep ≡ false → All (λ d. is_digit d ≡ true) s → Lacks sep s
digits-Lacks sep [] n h = tt
digits-Lacks sep (c ∷ s) n h = (ground (arith, h.0), digits-Lacks sep s n h.1)

numeral-Lacks : (sep : ℕ) (s : Text) → is_digit sep ≡ false → IsNumeral s → Lacks sep s
numeral-Lacks sep [] n h = tt
numeral-Lacks sep (c ∷ s) n h = digits-Lacks sep (c ∷ s) n h

-- The text of a natural number holds no dash.
pub str-Lacks_dash : (n : ℕ) → Lacks b'-' (str (pos n))
unfolding str
str-Lacks_dash n = numeral-Lacks b'-' (str_nat n) refl (str_nat-IsNumeral n)

-- The text of an integer holds no underscore.
pub str-Lacks_underscore : (z : ℤ) → Lacks b'_' (str z)
unfolding str
str-Lacks_underscore (pos n) = numeral-Lacks b'_' (str_nat n) refl (str_nat-IsNumeral n)
str-Lacks_underscore (negsuc n) =
    (refl, numeral-Lacks b'_' (str_nat (suc n)) refl (str_nat-IsNumeral (suc n)))

int_signed-IsNumeral :
    (s : Text) (n : ℕ) → IsNumeral s → scan false 0 s ≡ some n → int_signed s ≡ ok (pos n)
unfolding int_signed
int_signed-IsNumeral [] n h e = elim h [ ]
int_signed-IsNumeral (c ∷ s) n h e = ground (arith, h.0)

scan-str_nat : (n : ℕ) → scan false 0 (str_nat n) ≡ some n
unfolding str_nat scan
scan-str_nat n = scan-digits (suc n) n false [] (omega arith)

int-HasNoSpace : (s : Text) → HasNoSpace s → int s ≡ int_signed s
unfolding int
int-HasNoSpace s h = ap int_signed (strip-HasNoSpace s h)

int_signed-str : (z : ℤ) → int_signed (str z) ≡ ok z
unfolding int_signed str
int_signed-str (pos n) = int_signed-IsNumeral (str_nat n) n (str_nat-IsNumeral n) (scan-str_nat n)
int_signed-str (negsuc n) = rw (scan-str_nat (suc n))

-- `int(str(z))` is `z`.
pub int-str : (z : ℤ) → int (str z) ≡ ok z
int-str z = int-HasNoSpace (str z) (IsToken-HasNoSpace (str z) (str-IsToken z)) ∙ int_signed-str z
