-- ===== src/Actions/Isolation.antt =====
-- faults/actions.py: the network that the symmetric partitions leave behind.
pub mod Halves
pub mod Node
pub mod Datacenter
pub mod Rotation
pub mod Ring
use Prim.Native.Nat.{min}
use mathlib.Core.List.{Perm}
use faultstorm.Prelude.{
  ℕ, ◌+◌, ◌/◌, ◌≡◌, refl, ◌∙◌, ap, false, List, [], ◌∷◌, ◌++◌, Option, none, some, Result, ok, err,
  arith, is_empty, length, take, drop, take-append-drop,
}
use mathlib.Core.List.{append_assoc}
use faultstorm.Text.{Text, strip}
use faultstorm.Effects.{Event, completed, Env, World}
use faultstorm.Effects.Methods.{Method, lift, ◌>>◌, ◌>>=◌}
use faultstorm.Effects.Random.{shuffle-perm}
use faultstorm.Cluster.{inspect_argv, ip_format}
use faultstorm.Partitioners.{get_chain_name}
use faultstorm.Actions.Base.{FaultAction, all_nodes}
use faultstorm.Actions.Sides.{block_side}
use faultstorm.Actions.Rules.{Works, Rule, rules, one_way, block_side-Blocks, Blocks, Blocks-seq}

module _ (env : Env) (works : Works env) where
  -- No packet passes between the two sides, in either direction.
  abbrev pub cut : Text → List Text → List Text → List Rule
  cut chain xs ys = one_way env works chain xs ys ++ one_way env works chain ys xs

  -- `execute`, called as `m` on the object `a`, returns, leaves the object as `a'`, and adds
  -- exactly the rules that cut `xs` from `ys`.
  abbrev pub Cuts :
      {S : Type 0} → Method S (Unit {0}) → S → S → World → Text → List Text → List Text → Type 0
  Cuts m a a' w chain xs ys =
      ((m a w).0 ≡ ok tt)
      × ((m a w).1 ≡ a')
      × (rules env (m a w).2.trace ≡ rules env w.trace ++ cut chain xs ys)

  abbrev pub both_sides : {S : Type 0} → Text → List Text → List Text → Method S (Unit {0})
  both_sides chain xs ys = lift (block_side env chain xs ys) >> lift (block_side env chain ys xs)

  pub both_sides-Cuts :
      {S : Type 0} (a : S) (w : World) (chain : Text) (xs ys : List Text)
      → Cuts (both_sides chain xs ys) a a w chain xs ys
  both_sides-Cuts a w chain xs ys =
      let there = block_side-Blocks env works chain xs ys in
      let back = block_side-Blocks env works chain ys xs in
      let w' = (block_side env chain xs ys w).1 in
      rw (there.returns w) (
        back.returns w',
        refl,
        back.adds w'
            ∙ ap (λ l. l ++ one_way env works chain ys xs) (there.adds w)
            ∙ append_assoc (rules env w.trace) _ _,
      )

  pub Cuts-after :
      {S A : Type 0} (m : Method S A) (k : A → Method S (Unit {0})) (a a' a'' : S) (x : A)
      (w w' : World) (chain : Text) (xs ys : List Text)
      → m a w ≡ (ok x, a', w')
      → w'.trace ≡ w.trace
      → Cuts (k x) a' a'' w' chain xs ys
      → Cuts (m >>= k) a a'' w chain xs ys
  Cuts-after m k a a' a'' x w w' chain xs ys e t (r, o, s) =
      rw e (r, o, s ∙ ap (λ l. rules env l ++ cut chain xs ys) t)
