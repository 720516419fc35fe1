-- ===== src/Actions/Steady/Classes.antt =====
-- faults/actions.py: `execute` and `heal` of each class.
use faultstorm.Prelude.{
  ℕ, ◌+◌, refl, List, [], ◌∷◌, Option, none, some, length, take, drop, ◌/◌, list_eq, nat_eq,
}
use faultstorm.Text.{Text, codes}
use faultstorm.Effects.{Env, choice, shuffle, map_each}
use faultstorm.Effects.Methods.{lift, return}
use faultstorm.Effects.Grows.{
  Grows, pure-Grows, >>=-Grows, >>-Grows, ignore-Grows, map_each-Grows, choice-Grows, shuffle-Grows,
}
use faultstorm.Cluster.{get_node_ip}
use faultstorm.Partitioners.{create_chain}
use faultstorm.Actions.Base.{FaultAction, all_nodes}
use faultstorm.Actions.Sides.{block_side}
use faultstorm.Actions.Kill
use faultstorm.Actions.Kill.{KillProcessAction}
use faultstorm.Actions.Halves
use faultstorm.Actions.Halves.{PartitionRandomHalvesAction}
use faultstorm.Actions.Ring
use faultstorm.Actions.Ring.{PartitionMajoritiesRingAction, blocked}
use faultstorm.Actions.Node
use faultstorm.Actions.Node.{PartitionRandomNodeAction}
use faultstorm.Actions.Chains.{Names, IsChainOf, partition_chain}
use faultstorm.Actions.Commands.{
  exec_on_node-Grows, get_node_ip-Grows, create_chain-Grows, add_drop_rules_by_src-Grows,
  block_side-Grows, heal_partition-Grows,
}
use faultstorm.Actions.Steady.{
  choose-Steady, then-Steady, Steady, return-Steady, lift-Steady, >>=-Steady, >>-Steady,
}

module _ (env : Env) (b : FaultAction) where
  abbrev kill_base : KillProcessAction → FaultAction
  kill_base a = a.base

  kill_process : (o : Option Text) → Steady b kill_base (Kill.resolve_process env o)
  unfolding Kill.resolve_process
  kill_process (some p) = return-Steady kill_base p
  kill_process none =
      choose-Steady kill_base (λ a. choice env a.processes) _ return
        (λ a. choice-Grows env a.processes) (λ p s. refl) (return-Steady kill_base)

  kill_node : (o : Option Text) → Steady b kill_base (Kill.resolve_node env o)
  unfolding Kill.resolve_node
  kill_node (some n) = return-Steady kill_base n
  kill_node none =
      choose-Steady kill_base (λ a. choice env a.base.db_nodes) _ return
        (λ a. choice-Grows env a.base.db_nodes) (λ n s. refl) (return-Steady kill_base)

  pub kill_execute : Steady b kill_base (Kill.execute env)
  unfolding Kill.execute
  kill_execute = then-Steady kill_base _ (λ a at.
      >>=-Steady kill_base (Kill.resolve_process env a.process) _ (kill_process a.process) (λ p.
        >>=-Steady kill_base (Kill.resolve_node env a.node) _ (kill_node a.node) (λ n.
          lift-Steady kill_base _ (
            ignore-Grows _
              (exec_on_node-Grows env b n (codes "pkill" ∷ codes "-9" ∷ p ∷ []) 10 tt)))))

  abbrev halves_base : PartitionRandomHalvesAction → FaultAction
  halves_base a = a.base

  halves_random : Steady b halves_base (Halves.resolve_groups env none none)
  unfolding Halves.resolve_groups
  halves_random =
      choose-Steady halves_base (λ a. shuffle env (all_nodes a.base)) _
        (λ nodes. return (take (length nodes / 2) nodes, drop (length nodes / 2) nodes))
        (λ a. shuffle-Grows env (all_nodes a.base)) (λ n s. refl) (λ n. return-Steady halves_base _)

  halves_groups : (g h : Option (List Text)) → Steady b halves_base (Halves.resolve_groups env g h)
  unfolding Halves.resolve_groups
  halves_groups (some g) (some h) = return-Steady halves_base (g, h)
  halves_groups (some g) none = halves_random
  halves_groups none h = halves_random

  pub halves_execute : Steady b halves_base (Halves.execute env)
  unfolding Halves.execute
  halves_execute = then-Steady halves_base _ (λ a at.
      >>=-Steady halves_base (Halves.resolve_groups env a.group1 a.group2) _
        (halves_groups a.group1 a.group2)
        (λ g.
          >>-Steady halves_base (lift (block_side env _ g.0 g.1)) _
            (lift-Steady halves_base _ (block_side-Grows env b _ g.0 g.1 (partition_chain at)))
            (lift-Steady halves_base _ (block_side-Grows env b _ g.1 g.0 (partition_chain at)))))

  pub halves_heal : Steady b halves_base (Halves.heal env)
  unfolding Halves.heal
  halves_heal = then-Steady halves_base _ (λ a at.
      lift-Steady halves_base _
        (heal_partition-Grows env b a.base.ordinal (all_nodes a.base) (partition_chain at)))

  abbrev ring_base : PartitionMajoritiesRingAction → FaultAction
  ring_base a = a.base

  ring_ordered : (o : Option (List Text)) → Steady b ring_base (Ring.resolve_ordered env o)
  unfolding Ring.resolve_ordered
  ring_ordered (some o) = return-Steady ring_base o
  ring_ordered none =
      choose-Steady ring_base (λ a. shuffle env (all_nodes a.base)) _ return
        (λ a. shuffle-Grows env (all_nodes a.base)) (λ o s. refl) (return-Steady ring_base)

  block_node-Grows :
      (chain : Text) (o : List Text) (i : ℕ) (n : Text)
      → IsChainOf b chain
      → Grows (Names b) (Ring.block_node env chain o i n)
  unfolding Ring.block_node
  block_node-Grows chain o i n h =
      >>=-Grows (map_each (blocked o i) (get_node_ip env)) _
        (map_each-Grows (blocked o i) _ (get_node_ip-Grows env b))
        (λ ips.
          >>-Grows (create_chain env n chain) _ (create_chain-Grows env b n chain h)
            (add_drop_rules_by_src-Grows env b n chain ips h))

  block_from-Grows :
      (chain : Text) (o : List Text) (i : ℕ) (ns : List Text)
      → IsChainOf b chain
      → Grows (Names b) (Ring.block_from env chain o i ns)
  unfolding Ring.block_from
  block_from-Grows chain o i [] h = pure-Grows tt
  block_from-Grows chain o i (n ∷ ns) h =
      >>-Grows (Ring.block_node env chain o i n) _ (block_node-Grows chain o i n h)
        (block_from-Grows chain o (i + 1) ns h)

  pub ring_execute : Steady b ring_base (Ring.execute env)
  unfolding Ring.execute
  ring_execute = then-Steady ring_base _ (λ a at.
      >>=-Steady ring_base (Ring.resolve_ordered env a.ordered) _ (ring_ordered a.ordered)
        (λ o. lift-Steady ring_base _ (block_from-Grows _ o 0 o (partition_chain at))))

  pub ring_heal : Steady b ring_base (Ring.heal env)
  unfolding Ring.heal
  ring_heal = then-Steady ring_base _ (λ a at.
      lift-Steady ring_base _
        (heal_partition-Grows env b a.base.ordinal (all_nodes a.base) (partition_chain at)))

  abbrev node_base : PartitionRandomNodeAction → FaultAction
  node_base a = a.base

  node_node : (o : Option Text) → Steady b node_base (Node.resolve_node env o)
  unfolding Node.resolve_node
  node_node (some n) = return-Steady node_base n
  node_node none =
      choose-Steady node_base (λ a. choice env (all_nodes a.base)) _ return
        (λ a. choice-Grows env (all_nodes a.base)) (λ n s. refl) (return-Steady node_base)

  pub node_execute : Steady b node_base (Node.execute env)
  unfolding Node.execute
  node_execute = then-Steady node_base _ (λ a at.
      >>=-Steady node_base (Node.resolve_node env a.node) _ (node_node a.node) (λ n.
        >>-Steady node_base (lift (block_side env _ _ _)) _
          (lift-Steady node_base _ (
            block_side-Grows env b _ (n ∷ []) (Node.others n (all_nodes a.base))
              (partition_chain at)))
          (lift-Steady node_base _ (
            block_side-Grows env b _ (Node.others n (all_nodes a.base)) (n ∷ [])
              (partition_chain at)))))

  pub node_heal : Steady b node_base (Node.heal env)
  unfolding Node.heal
  node_heal = then-Steady node_base _ (λ a at.
      lift-Steady node_base _
        (heal_partition-Grows env b a.base.ordinal (all_nodes a.base) (partition_chain at)))
