-- ===== src/Actions/Builtin.antt =====
-- faults/actions.py: the nine built-in classes as one type of actions, with the class attributes
-- and the virtual methods.
use faultstorm.Prelude.{
  Bool, true, false, List, [], ◌∷◌, ◌++◌, Option, none, some, ℤ, Result, ok, err, type_error, ◌>>=◌,
  difference, list_eq, nat_eq, is_empty, if◌then◌else◌,
}
use faultstorm.Text.{Text, codes}
use faultstorm.Effects.{Env, World}
use faultstorm.Effects.Methods.{Method}
use faultstorm.Actions.Base.{Nodes, Kwargs}
use faultstorm.Actions.Wait
use faultstorm.Actions.Wait.{WaitAction}
use faultstorm.Actions.Kill
use faultstorm.Actions.Kill.{KillProcessAction}
use faultstorm.Actions.Halves
use faultstorm.Actions.Halves.{PartitionRandomHalvesAction}
use faultstorm.Actions.Ring
use faultstorm.Actions.Ring.{PartitionMajoritiesRingAction}
use faultstorm.Actions.Node
use faultstorm.Actions.Node.{PartitionRandomNodeAction}
use faultstorm.Actions.Subnet
use faultstorm.Actions.Subnet.{PartitionRandomSubnetAction}
use faultstorm.Actions.Datacenter
use faultstorm.Actions.Datacenter.{PartitionRandomDcAction}
use faultstorm.Actions.Freeze.Single
use faultstorm.Actions.Freeze.Single.{FreezeProcessesAction}
use faultstorm.Actions.Freeze.Group
use faultstorm.Actions.Freeze.Group.{FreezeProcessesGroupAction}

-- A class object.
pub data Class : Type 0 where
  wait kill halves ring node subnet dc freeze freeze_group : Class

pub data Action : Type 0 where
  wait : WaitAction → Action
  kill : KillProcessAction → Action
  halves : PartitionRandomHalvesAction → Action
  ring : PartitionMajoritiesRingAction → Action
  node : PartitionRandomNodeAction → Action
  subnet : PartitionRandomSubnetAction → Action
  dc : PartitionRandomDcAction → Action
  freeze : FreezeProcessesAction → Action
  freeze_group : FreezeProcessesGroupAction → Action

abbrev pub class_of : Action → Class
class_of (Action.wait a) = Class.wait
class_of (Action.kill a) = Class.kill
class_of (Action.halves a) = Class.halves
class_of (Action.ring a) = Class.ring
class_of (Action.node a) = Class.node
class_of (Action.subnet a) = Class.subnet
class_of (Action.dc a) = Class.dc
class_of (Action.freeze a) = Class.freeze
class_of (Action.freeze_group a) = Class.freeze_group

unfoldable pub name : Class → Text
name Class.wait = codes "wait"
name Class.kill = codes "kill"
name Class.halves = codes "partition_random_halves"
name Class.ring = codes "partition_majorities_ring"
name Class.node = codes "partition_random_node"
name Class.subnet = codes "partition_random_subnet"
name Class.dc = codes "partition_random_dc"
name Class.freeze = codes "freeze_processes"
name Class.freeze_group = codes "freeze_processes_group"

unfoldable pub healable : Class → Bool
healable Class.wait = false
healable Class.kill = false
healable c = true

unfoldable pub host_targetable : Class → Bool
host_targetable Class.kill = true
host_targetable Class.node = true
host_targetable Class.subnet = true
host_targetable Class.freeze = true
host_targetable c = false

-- No built-in class sets the attribute.
unfoldable pub destructive : Class → Bool
destructive c = false

-- The names of the keyword arguments that are given, and those that a constructor takes.
abbrev named {ℓ} : {A : Type ℓ} → Text → Option A → List Text
named n none = []
named n (some a) = n ∷ []

unfoldable pub given_names : Kwargs → List Text
given_names k =
    named (codes "seconds") k.seconds
    ++ (named (codes "process") k.process
        ++ (named (codes "node") k.node
            ++ (named (codes "processes") k.processes
                ++ (named (codes "group1") k.group1
                    ++ (named (codes "group2") k.group2
                        ++ (named (codes "ordered") k.ordered
                            ++ (named (codes "direction") k.direction
                                ++ (named (codes "subnet_type") k.subnet_type
                                    ++ (named (codes "blocked_nodes") k.blocked_nodes
                                        ++ (named (codes "dc_name") k.dc_name
                                            ++ (named (codes "group") k.group
                                                ++ (named (codes "freeze_duration_range")
                                                      k.freeze_duration_range
                                                    ++ named (codes "freeze_pause_range")
                                                        k.freeze_pause_range))))))))))))

abbrev freeze_parameters : List Text
freeze_parameters =
    codes "processes" ∷ codes "freeze_duration_range" ∷ codes "freeze_pause_range" ∷ []

unfoldable pub parameters : Class → List Text
parameters Class.wait = codes "seconds" ∷ []
parameters Class.kill = codes "process" ∷ codes "node" ∷ codes "processes" ∷ []
parameters Class.halves = codes "group1" ∷ codes "group2" ∷ []
parameters Class.ring = codes "ordered" ∷ []
parameters Class.node = codes "node" ∷ []
parameters Class.subnet =
    codes "node" ∷ codes "direction" ∷ codes "subnet_type" ∷ codes "blocked_nodes" ∷ []
parameters Class.dc = codes "dc_name" ∷ []
parameters Class.freeze = codes "node" ∷ freeze_parameters
parameters Class.freeze_group = codes "group" ∷ freeze_parameters

abbrev pub init : Class → Nodes → ℤ → Kwargs → Action
init Class.wait nodes ordinal k = Action.wait (Wait.init nodes ordinal k)
init Class.kill nodes ordinal k = Action.kill (Kill.init nodes ordinal k)
init Class.halves nodes ordinal k = Action.halves (Halves.init nodes ordinal k)
init Class.ring nodes ordinal k = Action.ring (Ring.init nodes ordinal k)
init Class.node nodes ordinal k = Action.node (Node.init nodes ordinal k)
init Class.subnet nodes ordinal k = Action.subnet (Subnet.init nodes ordinal k)
init Class.dc nodes ordinal k = Action.dc (Datacenter.init nodes ordinal k)
init Class.freeze nodes ordinal k = Action.freeze (Single.init nodes ordinal k)
init Class.freeze_group nodes ordinal k = Action.freeze_group (Group.init nodes ordinal k)

-- `cls(db_nodes, extra_nodes, ordinal, dc_map=dc_map, **kwargs)`: an argument that the
-- constructor does not take is a TypeError
unfoldable pub make : Class → Nodes → ℤ → Kwargs → Result Action
unfolding given_names parameters difference
make c nodes ordinal k =
    if is_empty (difference (given_names k) (parameters c))
    then ok (init c nodes ordinal k)
    else err type_error

abbrev at :
    {S : Type 0} → (S → Action) → Result (Unit {0}) × S × World → Result (Unit {0}) × Action × World
at f (r, s, w) = (r, f s, w)

module _ (env : Env) where
  -- The engine always passes a stop event.
  unfoldable pub execute : Method Action (Unit {0})
  execute (Action.wait a) w = at Action.wait (Wait.execute true a w)
  execute (Action.kill a) w = at Action.kill (Kill.execute env a w)
  execute (Action.halves a) w = at Action.halves (Halves.execute env a w)
  execute (Action.ring a) w = at Action.ring (Ring.execute env a w)
  execute (Action.node a) w = at Action.node (Node.execute env a w)
  execute (Action.subnet a) w = at Action.subnet (Subnet.execute env a w)
  execute (Action.dc a) w = at Action.dc (Datacenter.execute env a w)
  execute (Action.freeze a) w = at Action.freeze (Single.execute env a w)
  execute (Action.freeze_group a) w = at Action.freeze_group (Group.execute env a w)

  -- The base class does nothing.
  unfoldable pub heal : Method Action (Unit {0})
  heal (Action.wait a) w = (ok tt, Action.wait a, w)
  heal (Action.kill a) w = (ok tt, Action.kill a, w)
  heal (Action.halves a) w = at Action.halves (Halves.heal env a w)
  heal (Action.ring a) w = at Action.ring (Ring.heal env a w)
  heal (Action.node a) w = at Action.node (Node.heal env a w)
  heal (Action.subnet a) w = at Action.subnet (Subnet.heal env a w)
  heal (Action.dc a) w = at Action.dc (Datacenter.heal env a w)
  heal (Action.freeze a) w = at Action.freeze (Single.heal env a w)
  heal (Action.freeze_group a) w = at Action.freeze_group (Group.heal env a w)

unfoldable pub serialize : Action → Text
serialize (Action.wait a) = Wait.serialize a
serialize (Action.kill a) = Kill.serialize a
serialize (Action.halves a) = Halves.serialize a
serialize (Action.ring a) = Ring.serialize a
serialize (Action.node a) = Node.serialize a
serialize (Action.subnet a) = Subnet.serialize a
serialize (Action.dc a) = Datacenter.serialize a
serialize (Action.freeze a) = Single.serialize a
serialize (Action.freeze_group a) = Group.serialize a

unfoldable pub deserialize : Class → Text → Nodes → Result Action
deserialize Class.wait t nodes = do a ← Wait.deserialize t nodes; ok (Action.wait a)
deserialize Class.kill t nodes = do a ← Kill.deserialize t nodes; ok (Action.kill a)
deserialize Class.halves t nodes = do a ← Halves.deserialize t nodes; ok (Action.halves a)
deserialize Class.ring t nodes = do a ← Ring.deserialize t nodes; ok (Action.ring a)
deserialize Class.node t nodes = do a ← Node.deserialize t nodes; ok (Action.node a)
deserialize Class.subnet t nodes = do a ← Subnet.deserialize t nodes; ok (Action.subnet a)
deserialize Class.dc t nodes = do a ← Datacenter.deserialize t nodes; ok (Action.dc a)
deserialize Class.freeze t nodes = do a ← Single.deserialize t nodes; ok (Action.freeze a)
deserialize Class.freeze_group t nodes = do
  a ← Group.deserialize t nodes
  ok (Action.freeze_group a)
