-- ===== src/Actions/Chains/Numbers.antt =====
-- faults/partitioners.py: a chain name belongs to one ordinal.
use faultstorm.Prelude.{
  ℤ, ◌≡◌, ◌∙◌, sym, ap, refl, inl, inr, true, List, [], ◌∷◌, ◌++◌, ok, All, All-append, contains,
  ◌==◌, if◌then◌else◌, list_eq, nat_eq, Bool-cases, arith,
}
use faultstorm.Prelude.Equality.{list_beq_iff}
use faultstorm.Text.{Text, codes, fields}
use faultstorm.Text.Split.{fields-Lacks, fields-append}
use faultstorm.Text.Decimal.{str, int, int-str, str-Lacks_underscore}
use faultstorm.Effects.{Event, ran}
use faultstorm.Effects.Grows.{Runs}
use faultstorm.Partitioners.{get_chain_name, get_directional_chain_name, input}
use faultstorm.Actions.Base.{FaultAction}
use faultstorm.Actions.Chains.{named_by, used, IsChainOf, Names}

prefix-injective : (s t : Text) → codes "FSTORM_PART_" ++ s ≡ codes "FSTORM_PART_" ++ t → s ≡ t
prefix-injective s t h = cc

-- What stands behind the prefix begins with the ordinal, up to the first underscore.
IsChainOf-cases :
    (b : FaultAction) (x : Text)
    → IsChainOf b x
    → (t : Text) × (x ≡ codes "FSTORM_PART_" ++ t) × ((fields b'_' t).0 ≡ str b.ordinal)
unfolding get_chain_name get_directional_chain_name
IsChainOf-cases b x (inl e) =
    (str b.ordinal, e, rw (fields-Lacks b'_' (str b.ordinal) (str-Lacks_underscore b.ordinal)) refl)
IsChainOf-cases b x (inr (d, e)) =
    let way = if d == input then codes "IN" else codes "OUT" in
    (
      str b.ordinal ++ (b'_' ∷ way),
      e,
      rw (fields-append b'_' (str b.ordinal) way (str-Lacks_underscore b.ordinal)) refl,
    )

str-injective : (i j : ℤ) → str i ≡ str j → i ≡ j
str-injective i j h = let same : ok i ≡ ok j = sym (int-str i) ∙ ap int h ∙ int-str j in cc

-- Two actions that share a chain have the same ordinal.
pub IsChainOf-ordinal :
    (a b : FaultAction) (x : Text) → IsChainOf a x → IsChainOf b x → a.ordinal ≡ b.ordinal
IsChainOf-ordinal a b x h k =
    let (s, e, p) = IsChainOf-cases a x h in
    let (t, e', q) = IsChainOf-cases b x k in
    let same = prefix-injective s t (sym e ∙ e') in
    str-injective a.ordinal b.ordinal (sym p ∙ ap (λ r. (fields b'_' r).0) same ∙ q)

used-IsChainOf :
    (b : FaultAction) (es : List Event) → All (Runs (Names b)) es → All (IsChainOf b) (used es)
used-IsChainOf b [] h = tt
used-IsChainOf b (ran argv t ∷ es) (p, h) =
    All-append (IsChainOf b) (named_by argv) (used es) p (used-IsChainOf b es h)
used-IsChainOf b (_ ∷ es) (p, h) = used-IsChainOf b es h

same_text : (y x : Text) → (y == x) ≡ true → x ≡ y
same_text y x h = sym ((list_beq_iff y x).0 h)

contains-All :
    (P : Text → Type 0) (xs : List Text) (x : Text) → All P xs → contains xs x ≡ true → P x
contains-All P [] x h k = absurd (ground arith)
contains-All P (y ∷ ys) x (p, h) k = elim (Bool-cases (y == x)) [
  | inl e ↦ rw (same_text y x e) p
  | inr e ↦ contains-All P ys x h (ground (arith, e))
]

-- The chains that are named by commands of the action are its own.
pub contains-used :
    (b : FaultAction) (es : List Event) (x : Text)
    → All (Runs (Names b)) es
    → contains (used es) x ≡ true
    → IsChainOf b x
contains-used b es x h k = contains-All (IsChainOf b) (used es) x (used-IsChainOf b es h) k
