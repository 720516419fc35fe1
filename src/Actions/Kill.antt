-- ===== src/Actions/Kill.antt =====
-- faults/actions.py: KillProcessAction.
use faultstorm.Prelude.{List, [], ◌∷◌, Option, none, some, ℤ, Result, ok, ◌>>=◌ as and_then}
use faultstorm.Text.{Text, codes}
use faultstorm.Text.Decimal.{int, str}
use faultstorm.Effects.{Env, ignore, choice}
use faultstorm.Effects.Methods.{Method, self, modify, lift, return, ◌>>=◌, ◌>>◌}
use faultstorm.Cluster.{exec_on_node}
use faultstorm.Actions.Base.{
  Nodes, FaultAction, Kwargs, no_kwargs, or_default, show_option, part, split_params, spaced,
}

pub record KillProcessAction : Type 0 where
  pub base : FaultAction
  pub process : Option Text
  pub node : Option Text
  pub processes : List Text

abbrev pub default_processes : List Text
default_processes = codes "postgres" ∷ codes "pgconsul" ∷ []

abbrev pub init : Nodes → ℤ → Kwargs → KillProcessAction
init nodes ordinal k = record {
  base = record { nodes = nodes; ordinal = ordinal };
  process = k.process;
  node = k.node;
  processes = or_default k.processes default_processes;
}

module _ (env : Env) where
  unfoldable pub resolve_process : Option Text → Method KillProcessAction Text
  unfolding choice
  resolve_process (some p) = return p
  resolve_process none = do
    a ← self
    p ← lift (choice env a.processes)
    modify λ a. record a { process = some p }
    return p

  unfoldable pub resolve_node : Option Text → Method KillProcessAction Text
  unfolding choice
  resolve_node (some n) = return n
  resolve_node none = do
    a ← self
    n ← lift (choice env a.base.db_nodes)
    modify λ a. record a { node = some n }
    return n

  unfoldable pub execute : Method KillProcessAction (Unit {0})
  execute = do
    a ← self
    p ← resolve_process a.process
    n ← resolve_node a.node
    lift (ignore (exec_on_node env n (codes "pkill" ∷ codes "-9" ∷ p ∷ []) 10))

unfoldable pub serialize : KillProcessAction → Text
serialize a = spaced (str a.base.ordinal ∷ show_option a.process ∷ show_option a.node ∷ [])

unfoldable pub deserialize : Text → Nodes → Result KillProcessAction
unfolding part
deserialize params nodes =
    let parts = split_params params in
    and_then (and_then (part parts 0) int) λ ordinal. and_then (part parts 1) λ process.
      and_then (part parts 2) λ node.
        ok (init nodes ordinal (record no_kwargs { process = some process; node = some node }))
