-- ===== src/Actions/Freeze.antt =====
-- faults/actions.py: BaseFreezeAction, FreezeProcessesAction and FreezeProcessesGroupAction.
pub mod Single
pub mod Group
use faultstorm.Prelude.{
  ℕ, zero, suc, ◌+◌, ◌-◌, ◌%◌, ◌/◌, ◌≡◌, refl, Bool, true, false, not, ◌&&◌, ◌||◌, List, [], ◌∷◌,
  ◌++◌, Option, none, some, ℤ, pos, Result, ok, err, ◌>>=◌ as and_then, length, take, drop,
  contains, filter_by, list_eq, nat_eq, get_elem?, lookup, keys, is_empty, type_error,
  assertion_error, index_error, if◌then◌else◌, ◌==◌,
}
use faultstorm.Text.{Text, codes, join}
use faultstorm.Text.Decimal.{int, str}
use faultstorm.Effects.{
  Env, Io, ignore, choice, shuffle, for_each, map_each, pure, raise, ◌>>=◌ as io_then,
  ◌>>◌ as io_seq,
}
use faultstorm.Effects.Methods.{Method, self, modify, lift, return, throw, ◌>>=◌, ◌>>◌}
use faultstorm.Cluster.{exec_on_node, get_node_ip}
use faultstorm.Partitioners.{
  get_chain_name, create_chain, add_drop_rules_by_src, heal_partition, get_directional_chain_name,
  create_chain_for_direction, add_drop_rules_by_dest, heal_directional_partition, input, output,
}
use faultstorm.Actions.Base.{
  Nodes, FaultAction, all_nodes, Kwargs, no_kwargs, or_else, or_default, show_option, part,
  split_params, spaced, to_csv, of_csv, Range, serialize_range, deserialize_range,
}

-- The fields that `BaseFreezeAction` adds.
pub record BaseFreezeAction : Type 0 where
  pub base : FaultAction
  pub processes : List Text
  pub freeze_duration_range : Range
  pub freeze_pause_range : Range

abbrev pub flag_file : Text
flag_file = codes "/tmp/.process_freezer.flag"

abbrev pub default_range : Range
default_range = (pos 100, pos 3000)

abbrev pub default_processes : List Text
default_processes = codes "postgres" ∷ []

abbrev pub init_base : Nodes → ℤ → Kwargs → BaseFreezeAction
init_base nodes ordinal k = record {
  base = record { nodes = nodes; ordinal = ordinal };
  processes = or_default k.processes default_processes;
  freeze_duration_range = or_else k.freeze_duration_range default_range;
  freeze_pause_range = or_else k.freeze_pause_range default_range;
}

abbrev pub newline : ℕ
newline = 10

-- `_build_flag_content`
unfoldable pub build_flag_content : BaseFreezeAction → Text
unfolding join str
build_flag_content a = join newline (
    codes "[config]"
    ∷ (codes "freeze_min_ms=" ++ str a.freeze_duration_range.0)
    ∷ (codes "freeze_max_ms=" ++ str a.freeze_duration_range.1)
    ∷ (codes "pause_min_ms=" ++ str a.freeze_pause_range.0)
    ∷ (codes "pause_max_ms=" ++ str a.freeze_pause_range.1)
    ∷ codes "[patterns]"
    ∷ a.processes)

unfoldable pub heredoc : Text → Text
heredoc content =
    codes "cat > "
    ++ (flag_file
        ++ (codes " << 'FREEZER_EOF'" ++ (newline ∷ (content ++ (newline ∷ codes "FREEZER_EOF")))))

module _ (env : Env) where
  -- `_write_flag_to_nodes`
  unfoldable pub write_flag_to_nodes : BaseFreezeAction → List Text → Io (Unit {0})
  unfolding for_each ignore exec_on_node build_flag_content heredoc
  write_flag_to_nodes a targets = for_each targets λ node.
      ignore
        (exec_on_node env node (codes "bash" ∷ codes "-c" ∷ heredoc (build_flag_content a) ∷ []) 10)

  -- `_remove_flag_from_nodes`
  unfoldable pub remove_flag_from_nodes : List Text → Io (Unit {0})
  unfolding for_each ignore exec_on_node
  remove_flag_from_nodes targets =
      for_each targets
        λ node. ignore (exec_on_node env node (codes "rm" ∷ codes "-f" ∷ flag_file ∷ []) 10)

-- `parts[2].split(",") if len(parts) > 2 and parts[2] else ["postgres"]`
unfoldable pub processes_of : Option Text → List Text
processes_of none = default_processes
processes_of (some []) = default_processes
processes_of (some (c ∷ t)) = of_csv (c ∷ t)

-- `if len(parts) > i: range = cls._deserialize_range(parts[i])`
unfoldable pub range_of_part : Option Text → Result (Option Range)
range_of_part none = ok none
range_of_part (some t) = and_then (deserialize_range t) λ r. ok (some r)

-- The keyword arguments that both `deserialize` methods read from the parts behind the second.
unfoldable pub kwargs_of : List Text → Result Kwargs
unfolding processes_of range_of_part
kwargs_of parts = and_then (range_of_part (get_elem? parts 3)) λ freeze.
    and_then (range_of_part (get_elem? parts 4)) λ pause. ok (record no_kwargs {
      processes = some (processes_of (get_elem? parts 2));
      freeze_duration_range = freeze;
      freeze_pause_range = pause;
    })

-- The text behind the target, in both `serialize` methods.
unfoldable pub freeze_params : ℤ → Text → BaseFreezeAction → Text
freeze_params ordinal target a = spaced (
    str ordinal
    ∷ target
    ∷ to_csv a.processes
    ∷ serialize_range a.freeze_duration_range
    ∷ serialize_range a.freeze_pause_range
    ∷ [])
