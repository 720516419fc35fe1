-- ===== src/Latency/Delays/Symmetry.antt =====
-- network_latency.py: the delay from one node to another is the delay back.
use faultstorm.Prelude.{
  ◌≡◌, refl, true, false, [], ◌∷◌, Option, none, some, ℤ, arith, lookup, list_eq, nat_eq, pair_eq,
  ◌==◌, Bool-cases, inl, inr,
}
use faultstorm.Prelude.Dict.{Dict}
use faultstorm.Text.{ltb_text, Text}
use faultstorm.Config.{TestConfig}
use faultstorm.Latency.Delays.{normalise_dc_pair, cross_dc_delay, db_zk_delay, delay_between}

ltb_text_asym : (a b : Text) → ltb_text a b ≡ true → ltb_text b a ≡ false
unfolding ltb_text
ltb_text_asym [] [] h = refl
ltb_text_asym [] (d ∷ b) h = refl
ltb_text_asym (c ∷ a) [] h = cc
ltb_text_asym (c ∷ a) (d ∷ b) h = ground (arith, ltb_text_asym a b)

ltb_text_total : (a b : Text) → ltb_text a b ≡ false → ltb_text b a ≡ false → a ≡ b
unfolding ltb_text
ltb_text_total [] [] h k = refl
ltb_text_total [] (d ∷ b) h k = cc
ltb_text_total (c ∷ a) [] h k = cc
ltb_text_total (c ∷ a) (d ∷ b) h k = ground (arith, ltb_text_total a b)

-- The key of a pair of datacenters does not see their order.
pub normalise_dc_pair_comm : (a b : Text) → normalise_dc_pair a b ≡ normalise_dc_pair b a
unfolding normalise_dc_pair
normalise_dc_pair_comm a b = elim (Bool-cases (ltb_text a b)) [
  | inl p ↦ rw (p, ltb_text_asym a b p) refl
  | inr p ↦ elim (Bool-cases (ltb_text b a)) [
    | inl q ↦ rw (p, q) refl
    | inr q ↦ rw (p, q, ltb_text_total a b p q) refl
  ]
]

==_comm : (a b : Text) → (a == b) ≡ (b == a)
==_comm a b = ground (arith, (list_eq ⦃e = nat_eq⦄).beq_iff a b, (list_eq ⦃e = nat_eq⦄).beq_iff b a)

cross_dc_delay_comm :
    (delays : Dict (Text × Text) ℤ) (a b : Option Text)
    → cross_dc_delay delays a b ≡ cross_dc_delay delays b a
unfolding cross_dc_delay
cross_dc_delay_comm delays none none = refl
cross_dc_delay_comm delays none (some b) = refl
cross_dc_delay_comm delays (some a) none = refl
cross_dc_delay_comm delays (some a) (some b) =
    rw (normalise_dc_pair_comm a b, ==_comm a b) (ground arith)

db_zk_delay_comm : (c : TestConfig) (a b : Text) → db_zk_delay c a b ≡ db_zk_delay c b a
unfolding db_zk_delay
db_zk_delay_comm c a b = ground arith

-- The delay from one node to another is the delay back, for all nodes, datacenters and settings.
pub delay_between_comm :
    (c : TestConfig) (delays : Dict (Text × Text) ℤ) (node_dc : Dict Text Text) (a b : Text)
    → delay_between c delays node_dc a b ≡ delay_between c delays node_dc b a
unfolding delay_between
delay_between_comm c delays node_dc a b =
    rw (cross_dc_delay_comm delays (lookup a node_dc) (lookup b node_dc), db_zk_delay_comm c a b)
      refl
