-- ===== src/Partitioners.antt =====
-- faults/partitioners.py: the iptables commands of the partition actions.
use faultstorm.Prelude.{List, [], ◌∷◌, ◌++◌, ℤ, if◌then◌else◌, ◌==◌, list_eq, nat_eq}
use faultstorm.Text.{Text, codes}
use faultstorm.Text.Decimal.{str}
use faultstorm.Effects.{Env, Io, ignore, ◌>>◌, for_each}
use faultstorm.Cluster.{exec_on_node}

unfoldable pub get_chain_name : ℤ → Text
unfolding str
get_chain_name partition_id = codes "FSTORM_PART_" ++ str partition_id

abbrev pub input : Text
input = codes "INPUT"

abbrev pub output : Text
output = codes "OUTPUT"

abbrev pub iptables : List Text → List Text
iptables options = codes "iptables" ∷ options

abbrev pub drop_by : Text → Text → Text → List Text
drop_by option chain_name ip =
    iptables (codes "-A" ∷ chain_name ∷ option ∷ ip ∷ codes "-j" ∷ codes "DROP" ∷ [])

unfoldable pub get_directional_chain_name : ℤ → Text → Text
unfolding str
get_directional_chain_name partition_id direction =
    codes "FSTORM_PART_"
    ++ (str partition_id ++ (codes "_" ++ (if direction == input then codes "IN" else codes "OUT")))

module _ (env : Env) where
  unfoldable pub create_chain_for_direction : Text → Text → Text → Io (Unit {0})
  unfolding ignore exec_on_node
  create_chain_for_direction node chain_name direction = ignore do
    exec_on_node env node (iptables (codes "-N" ∷ chain_name ∷ [])) 10
    exec_on_node env node (iptables (codes "-A" ∷ direction ∷ codes "-j" ∷ chain_name ∷ [])) 10

  unfoldable pub create_chain : Text → Text → Io (Unit {0})
  unfolding ignore exec_on_node
  create_chain node chain_name = ignore do
    exec_on_node env node (iptables (codes "-N" ∷ chain_name ∷ [])) 10
    exec_on_node env node (iptables (codes "-A" ∷ input ∷ codes "-j" ∷ chain_name ∷ [])) 10

  unfoldable pub add_drop_rules_by_src : Text → Text → List Text → Io (Unit {0})
  unfolding for_each ignore exec_on_node
  add_drop_rules_by_src node chain_name blocked_ips =
      for_each blocked_ips
        λ ip. ignore (exec_on_node env node (drop_by (codes "-s") chain_name ip) 10)

  unfoldable pub add_drop_rules_by_dest : Text → Text → List Text → Io (Unit {0})
  unfolding for_each ignore exec_on_node
  add_drop_rules_by_dest node chain_name dest_ips =
      for_each dest_ips λ ip. ignore (exec_on_node env node (drop_by (codes "-d") chain_name ip) 10)

  unfoldable pub remove_chain_for_direction : Text → Text → Text → Io (Unit {0})
  unfolding ignore exec_on_node
  remove_chain_for_direction node chain_name direction = ignore do
    exec_on_node env node (iptables (codes "-F" ∷ chain_name ∷ [])) 10
    exec_on_node env node (iptables (codes "-D" ∷ direction ∷ codes "-j" ∷ chain_name ∷ [])) 10
    exec_on_node env node (iptables (codes "-X" ∷ chain_name ∷ [])) 10

  unfoldable pub remove_chain : Text → Text → Io (Unit {0})
  unfolding ignore exec_on_node
  remove_chain node chain_name = ignore do
    exec_on_node env node (iptables (codes "-F" ∷ chain_name ∷ [])) 10
    exec_on_node env node (iptables (codes "-D" ∷ input ∷ codes "-j" ∷ chain_name ∷ [])) 10
    exec_on_node env node (iptables (codes "-X" ∷ chain_name ∷ [])) 10

  unfoldable pub heal_partition : ℤ → List Text → Io (Unit {0})
  unfolding for_each remove_chain get_chain_name
  heal_partition partition_id nodes =
      for_each nodes λ node. remove_chain node (get_chain_name partition_id)

  unfoldable pub heal_directional_partition : ℤ → Text → List Text → Io (Unit {0})
  unfolding for_each remove_chain_for_direction get_directional_chain_name
  heal_directional_partition partition_id node directions = for_each directions λ direction.
      remove_chain_for_direction node (get_directional_chain_name partition_id direction) direction
