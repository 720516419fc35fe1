-- ===== src/Actions/Isolation/Halves.antt =====
-- faults/actions.py: what PartitionRandomHalvesAction cuts.
use mathlib.Core.List.{Perm}
use faultstorm.Prelude.{◌/◌, ◌≡◌, refl, List, Option, none, some, ok, length, take, drop}
use faultstorm.Text.{Text}
use faultstorm.Effects.{Env, World}
use faultstorm.Effects.Random.{shuffle-perm}
use faultstorm.Partitioners.{get_chain_name}
use faultstorm.Actions.Base.{FaultAction, all_nodes}
use faultstorm.Actions.Rules.{Works}
use faultstorm.Actions.Halves
use faultstorm.Actions.Halves.{PartitionRandomHalvesAction}
use faultstorm.Actions.Isolation.{Cuts, both_sides-Cuts, Cuts-after}

abbrev pub halves_of :
    FaultAction → Option (List Text) → Option (List Text) → PartitionRandomHalvesAction
halves_of base g1 g2 = record { base = base; group1 = g1; group2 = g2 }

module _ (env : Env) (works : Works env) where
  -- If every command of Docker succeeds, with an address for every node, two groups that are given are cut from one another,
  -- in both directions.
  pub execute-halves :
      (base : FaultAction) (g1 g2 : List Text) (w : World)
      → let a = halves_of base (some g1) (some g2) in
        Cuts env works (Halves.execute env) a a w (get_chain_name base.ordinal) g1 g2
  unfolding Halves.execute Halves.resolve_groups
  execute-halves base g1 g2 w = both_sides-Cuts env works _ w (get_chain_name base.ordinal) g1 g2

  resolve_groups_random :
      (base : FaultAction) (w : World)
      → (nodes : List Text) × (w' : World) × (Halves.resolve_groups env none none
            (halves_of base none none)
            w
          ≡ (
            ok (take (length nodes / 2) nodes, drop (length nodes / 2) nodes),
            halves_of base
                (some (take (length nodes / 2) nodes))
                (some (drop (length nodes / 2) nodes)),
            w',
          ))
        × Perm nodes (all_nodes base)
        × (w'.trace ≡ w.trace)
  unfolding Halves.resolve_groups
  resolve_groups_random base w =
      let (nodes, n, e, p) = shuffle-perm env (all_nodes base) w in
      (nodes, record w { draws = n }, rw e, p, refl)

  -- If every command of Docker succeeds, with an address for every node and no group is given, some order of all nodes is cut in the middle: the object keeps the two
  -- halves, which together hold every node as often as the cluster does.
  pub execute-halves_random :
      (base : FaultAction) (w : World)
      → (nodes : List Text) × Perm nodes (all_nodes base)
        × Cuts env works
            (Halves.execute env)
            (halves_of base none none)
            (halves_of base
              (some (take (length nodes / 2) nodes))
              (some (drop (length nodes / 2) nodes)))
            w
            (get_chain_name base.ordinal)
            (take (length nodes / 2) nodes)
            (drop (length nodes / 2) nodes)
  unfolding Halves.execute
  execute-halves_random base w =
      let (nodes, w', e, p, t) = resolve_groups_random base w in
      let sides =
        both_sides-Cuts env works
          (halves_of base (some (take (length nodes / 2) nodes))
            (some (drop (length nodes / 2) nodes)))
          w' (get_chain_name base.ordinal) (take (length nodes / 2) nodes)
          (drop (length nodes / 2) nodes) in
      (
        nodes,
        p,
        Cuts-after env works (Halves.resolve_groups env none none) _ (halves_of base none none) _ _
            _ w w' (get_chain_name base.ordinal) (take (length nodes / 2) nodes)
            (drop (length nodes / 2) nodes) e t sides,
      )
