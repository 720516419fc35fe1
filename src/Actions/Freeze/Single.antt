-- ===== src/Actions/Freeze/Single.antt =====
-- faults/actions.py: FreezeProcessesAction.
use faultstorm.Prelude.{
  List, [], ◌∷◌, Option, none, some, ℤ, Result, ok, ◌>>=◌ as and_then, list_eq, nat_eq, get_elem?,
  assertion_error,
}
use faultstorm.Text.{Text}
use faultstorm.Text.Decimal.{int}
use faultstorm.Effects.{Env, choice}
use faultstorm.Effects.Methods.{Method, self, modify, lift, return, throw, ◌>>=◌, ◌>>◌}
use faultstorm.Actions.Base.{Nodes, Kwargs, or_else, part, split_params}
use faultstorm.Actions.Freeze.{
  BaseFreezeAction, init_base, write_flag_to_nodes, remove_flag_from_nodes, kwargs_of,
  freeze_params,
}

pub record FreezeProcessesAction : Type 0 where
  pub freezer : BaseFreezeAction
  pub node : Option Text

abbrev pub init : Nodes → ℤ → Kwargs → FreezeProcessesAction
init nodes ordinal k = record { freezer = init_base nodes ordinal k; node = k.node }

module _ (env : Env) where
  -- `_resolve_targets`
  unfoldable pub resolve_targets : Option Text → Method FreezeProcessesAction (List Text)
  unfolding choice
  resolve_targets (some n) = return (n ∷ [])
  resolve_targets none = do
    a ← self
    n ← lift (choice env a.freezer.base.db_nodes)
    modify λ a. record a { node = some n }
    return (n ∷ [])

  unfoldable pub execute : Method FreezeProcessesAction (Unit {0})
  execute = do
    a ← self
    targets ← resolve_targets a.node
    lift (write_flag_to_nodes env a.freezer targets)

  unfoldable pub heal_on : Option Text → Method FreezeProcessesAction (Unit {0})
  unfolding remove_flag_from_nodes
  heal_on none = throw assertion_error
  heal_on (some node) = lift (remove_flag_from_nodes env (node ∷ []))

  unfoldable pub heal : Method FreezeProcessesAction (Unit {0})
  unfolding heal_on
  heal = do a ← self; heal_on a.node

unfoldable pub serialize : FreezeProcessesAction → Text
unfolding freeze_params
serialize a = freeze_params a.freezer.base.ordinal (or_else a.node []) a.freezer

unfoldable pub deserialize : Text → Nodes → Result FreezeProcessesAction
unfolding part kwargs_of
deserialize params nodes =
    let parts = split_params params in
    and_then (and_then (part parts 0) int) λ ordinal.
      and_then (kwargs_of parts)
        λ k. ok (init nodes ordinal (record k { node = get_elem? parts 1 }))
