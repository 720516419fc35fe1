-- ===== src/Actions/Isolation/Datacenter.antt =====
-- faults/actions.py: what PartitionRandomDcAction cuts.
use faultstorm.Prelude.{
  ◌≡◌, refl, false, difference, List, [], ◌∷◌, Option, some, is_empty, lookup, list_eq, nat_eq,
}
use faultstorm.Prelude.Dict.{Dict}
use faultstorm.Text.{Text}
use faultstorm.Effects.{Env, World}
use faultstorm.Partitioners.{get_chain_name}
use faultstorm.Actions.Base.{Nodes, FaultAction, all_nodes}
use faultstorm.Actions.Rules.{Works}
use faultstorm.Actions.Isolation.{Cuts, both_sides-Cuts}
use faultstorm.Actions.Datacenter
use faultstorm.Actions.Datacenter.{PartitionRandomDcAction, others, get_dc_nodes}

abbrev pub dc_of : FaultAction → Option Text → PartitionRandomDcAction
dc_of base dc = record { base = base; dc_name = dc }

ne_empty_of_found :
    (d : Text) (ns : List Text) (m : Dict Text (List Text))
    → lookup d m ≡ some ns
    → is_empty m ≡ false
unfolding lookup
ne_empty_of_found d ns [] h = cc
ne_empty_of_found d ns (e ∷ m) h = refl

get_dc_nodes_found :
    (d : Text) (ns : List Text) (nodes : Nodes)
    → lookup d nodes.dc_map ≡ some ns
    → get_dc_nodes d nodes ≡ ns
unfolding get_dc_nodes
get_dc_nodes_found d ns nodes h = rw (h, get_dc_nodes)

module _ (env : Env) (works : Works env) where
  isolate-Cuts :
      (base : FaultAction) (dc : Option Text) (n : Text) (ns : List Text) (w : World)
      → Cuts env works
          (Datacenter.isolate env (n ∷ ns))
          (dc_of base dc)
          (dc_of base dc)
          w
          (get_chain_name base.ordinal)
          (n ∷ ns)
          (difference (all_nodes base) (n ∷ ns))
  unfolding Datacenter.isolate others difference
  isolate-Cuts base dc n ns w =
      both_sides-Cuts env works _ w (get_chain_name base.ordinal) (n ∷ ns)
        (others (n ∷ ns) (all_nodes base))

  -- If every command of Docker succeeds, with an address for every node, a datacenter that is given,
  -- and known with at least one node, is cut from all nodes outside of it, in both directions.
  pub execute-dc :
      (base : FaultAction) (d n : Text) (ns : List Text) (w : World)
      → lookup d base.dc_map ≡ some (n ∷ ns)
      → Cuts env works
          (Datacenter.execute env)
          (dc_of base (some d))
          (dc_of base (some d))
          w
          (get_chain_name base.ordinal)
          (n ∷ ns)
          (difference (all_nodes base) (n ∷ ns))
  unfolding Datacenter.execute Datacenter.resolve_dc
  execute-dc base d n ns w h =
      rw (ne_empty_of_found d (n ∷ ns) base.dc_map h, get_dc_nodes_found d (n ∷ ns) base.nodes h)
        (isolate-Cuts base (some d) n ns w)
