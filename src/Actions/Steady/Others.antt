-- ===== src/Actions/Steady/Others.antt =====
-- faults/actions.py: `execute` and `heal` of the wait, datacenter and subnet actions.
use faultstorm.Prelude.{
  ◌+◌, ◌≡◌, refl, true, List, [], ◌∷◌, Option, none, some, ℤ, length, is_empty, keys, list_eq,
  nat_eq, assertion_error, ◌==◌, arith, length-append, All-append,
}
use faultstorm.Text.{Text}
use faultstorm.Effects.{Env, World, waited, emit, choice, map_each}
use faultstorm.Effects.Methods.{modify, lift, return}
use faultstorm.Effects.Grows.{
  if-Grows, Runs, written-snoc, Grows, >>-Grows, map_each-Grows, for_each-Grows, choice-Grows,
}
use faultstorm.Cluster.{get_node_ip}
use faultstorm.Partitioners.{
  input, get_directional_chain_name, create_chain_for_direction, add_drop_rules_by_src,
  add_drop_rules_by_dest,
}
use faultstorm.Actions.Base.{FaultAction, all_nodes}
use faultstorm.Actions.Sides.{block_side}
use faultstorm.Actions.Wait
use faultstorm.Actions.Wait.{WaitAction}
use faultstorm.Actions.Datacenter
use faultstorm.Actions.Datacenter.{PartitionRandomDcAction, get_dc_nodes}
use faultstorm.Actions.Subnet
use faultstorm.Actions.Subnet.{
  PartitionRandomSubnetAction, directions, subnet_types, resolve_blocked_nodes,
  get_iptables_directions,
}
use faultstorm.Actions.Chains.{Names, IsChainOf, partition_chain, directional_chain}
use faultstorm.Actions.Commands.{
  get_node_ip-Grows, create_chain_for_direction-Grows, add_drop_rules_by_src-Grows,
  add_drop_rules_by_dest-Grows, block_side-Grows, heal_partition-Grows,
  heal_directional_partition-Grows,
}
use faultstorm.Actions.Steady.{
  choose-Steady, then-Steady, Steady, return-Steady, throw-Steady, modify-Steady, lift-Steady,
  >>=-Steady, >>-Steady, if-Steady,
}

abbrev wait_base : WaitAction → FaultAction
wait_base a = a.base

pub waited_lem : (s : ℤ) (w : World) → length (emit (waited s) w).1.trace ≡ length w.trace + 1
unfolding emit
waited_lem s w = length-append w.trace (waited s ∷ [])

waited-Grows : (P : List Text → Type 0) (s : ℤ) → Grows P (emit (waited s))
unfolding emit
waited-Grows P s = record {
  grows = λ w. omega (arith, waited_lem s w);
  quiet = λ w. written-snoc w (waited s) refl;
  only = λ w p. All-append (Runs P) w.trace (waited s ∷ []) p (tt, tt);
}

pub wait_execute : (b : FaultAction) → Steady b wait_base (Wait.execute true)
unfolding Wait.execute
wait_execute b =
    then-Steady wait_base _ (λ a at. lift-Steady wait_base _ (waited-Grows (Names b) a.seconds))

module _ (env : Env) (b : FaultAction) where
  abbrev dc_base : PartitionRandomDcAction → FaultAction
  dc_base a = a.base

  dc_name : (o : Option Text) → Steady b dc_base (Datacenter.resolve_dc env o)
  unfolding Datacenter.resolve_dc
  dc_name (some d) = return-Steady dc_base d
  dc_name none =
      choose-Steady dc_base (λ a. choice env (keys a.base.dc_map)) _ return
        (λ a. choice-Grows env (keys a.base.dc_map)) (λ d s. refl) (return-Steady dc_base)

  dc_isolate : (ns : List Text) → Steady b dc_base (Datacenter.isolate env ns)
  unfolding Datacenter.isolate
  dc_isolate [] = return-Steady dc_base tt
  dc_isolate (n ∷ ns) = then-Steady dc_base _ (λ a at.
      >>-Steady dc_base (lift (block_side env _ _ _)) _
        (lift-Steady dc_base _ (
          block_side-Grows env b _ (n ∷ ns) (Datacenter.others (n ∷ ns) (all_nodes a.base))
            (partition_chain at)))
        (lift-Steady dc_base _ (
          block_side-Grows env b _ (Datacenter.others (n ∷ ns) (all_nodes a.base)) (n ∷ ns)
            (partition_chain at))))

  pub dc_execute : Steady b dc_base (Datacenter.execute env)
  unfolding Datacenter.execute
  dc_execute = then-Steady dc_base _ (λ a at.
      if-Steady dc_base (is_empty a.base.dc_map) (return tt) _ (return-Steady dc_base tt) (
        >>=-Steady dc_base (Datacenter.resolve_dc env a.dc_name) _ (dc_name a.dc_name)
          (λ d. dc_isolate (get_dc_nodes d a.base.nodes))))

  pub dc_heal : Steady b dc_base (Datacenter.heal env)
  unfolding Datacenter.heal
  dc_heal = then-Steady dc_base _ (λ a at.
      lift-Steady dc_base _
        (heal_partition-Grows env b a.base.ordinal (all_nodes a.base) (partition_chain at)))

  abbrev subnet_base : PartitionRandomSubnetAction → FaultAction
  subnet_base a = a.base

  subnet_node : (o : Option Text) → Steady b subnet_base (Subnet.resolve_node env o)
  unfolding Subnet.resolve_node
  subnet_node (some n) = return-Steady subnet_base n
  subnet_node none =
      choose-Steady subnet_base (λ a. choice env a.base.db_nodes) _ return
        (λ a. choice-Grows env a.base.db_nodes) (λ n s. refl) (return-Steady subnet_base)

  subnet_direction : (o : Option Text) → Steady b subnet_base (Subnet.resolve_direction env o)
  unfolding Subnet.resolve_direction
  subnet_direction (some d) = return-Steady subnet_base d
  subnet_direction none =
      >>=-Steady subnet_base (lift (choice env directions)) _
        (lift-Steady subnet_base _ (choice-Grows env directions))
        (λ d.
          >>-Steady subnet_base (modify _) _ (modify-Steady subnet_base _ (λ s. refl))
            (return-Steady subnet_base d))

  subnet_type : (o : Option Text) → Steady b subnet_base (Subnet.resolve_subnet_type env o)
  unfolding Subnet.resolve_subnet_type
  subnet_type (some d) = return-Steady subnet_base d
  subnet_type none =
      >>=-Steady subnet_base (lift (choice env subnet_types)) _
        (lift-Steady subnet_base _ (choice-Grows env subnet_types))
        (λ d.
          >>-Steady subnet_base (modify _) _ (modify-Steady subnet_base _ (λ s. refl))
            (return-Steady subnet_base d))

  subnet_blocked :
      (n t : Text) (o : Option (List Text))
      → Steady b subnet_base (Subnet.resolve_blocked env n t o)
  unfolding Subnet.resolve_blocked
  subnet_blocked n t (some b) = return-Steady subnet_base b
  subnet_blocked n t none = then-Steady subnet_base _ (λ a at.
      let b = resolve_blocked_nodes n t a.base.nodes in
      >>-Steady subnet_base (modify λ s. record s { blocked_nodes = some b }) (return b)
        (modify-Steady subnet_base _ (λ s. refl)) (return-Steady subnet_base b))

  block_direction-Grows :
      (o : ℤ) (n : Text) (ips : List Text) (d : Text)
      → IsChainOf b (get_directional_chain_name o d)
      → Grows (Names b) (Subnet.block_direction env o n ips d)
  unfolding Subnet.block_direction
  block_direction-Grows o n ips d h =
      let chain = get_directional_chain_name o d in
      >>-Grows (create_chain_for_direction env n chain d) _
        (create_chain_for_direction-Grows env b n chain d h)
        (if-Grows (d == input) (add_drop_rules_by_src env n chain ips)
          (add_drop_rules_by_dest env n chain ips) (add_drop_rules_by_src-Grows env b n chain ips h)
          (add_drop_rules_by_dest-Grows env b n chain ips h))

  pub subnet_execute : Steady b subnet_base (Subnet.execute env)
  unfolding Subnet.execute
  subnet_execute = then-Steady subnet_base _ (λ a at.
      >>=-Steady subnet_base (Subnet.resolve_node env a.node) _ (subnet_node a.node) (λ n.
        >>=-Steady subnet_base (Subnet.resolve_direction env a.direction) _
          (subnet_direction a.direction)
          (λ d.
            >>=-Steady subnet_base (Subnet.resolve_subnet_type env a.subnet_type) _
              (subnet_type a.subnet_type)
              (λ t.
                >>=-Steady subnet_base (Subnet.resolve_blocked env n t a.blocked_nodes) _
                  (subnet_blocked n t a.blocked_nodes)
                  (λ ns.
                    >>=-Steady subnet_base (lift (map_each ns (get_node_ip env))) _
                      (lift-Steady subnet_base _ (map_each-Grows ns _ (get_node_ip-Grows env b)))
                      (λ ips. lift-Steady subnet_base _ (
                        for_each-Grows (get_iptables_directions (some d)) _ (λ d.
                          block_direction-Grows a.base.ordinal n ips d
                            (directional_chain at d)))))))))

  subnet_heal_on : (o : Option Text) → Steady b subnet_base (Subnet.heal_on env o)
  unfolding Subnet.heal_on
  subnet_heal_on none = throw-Steady subnet_base assertion_error
  subnet_heal_on (some n) = then-Steady subnet_base _ (λ a at. lift-Steady subnet_base _ (
      heal_directional_partition-Grows env b a.base.ordinal n (get_iptables_directions a.direction)
        (directional_chain at)))

  pub subnet_heal : Steady b subnet_base (Subnet.heal env)
  unfolding Subnet.heal
  subnet_heal = then-Steady subnet_base _ (λ a at. subnet_heal_on a.node)
