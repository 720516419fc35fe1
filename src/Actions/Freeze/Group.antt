-- ===== src/Actions/Freeze/Group.antt =====
-- faults/actions.py: FreezeProcessesGroupAction.
use faultstorm.Prelude.{
  List, [], ◌∷◌, ◌++◌, Option, none, some, ℤ, Result, ok, ◌>>=◌ as and_then, list_eq, nat_eq,
  get_elem?, is_empty, if◌then◌else◌, ◌==◌,
}
use faultstorm.Text.{Text, codes}
use faultstorm.Text.Decimal.{int}
use faultstorm.Effects.{Env, choice}
use faultstorm.Effects.Methods.{Method, self, modify, lift, return, ◌>>=◌, ◌>>◌}
use faultstorm.Actions.Base.{Nodes, Kwargs, or_else, part, split_params}
use faultstorm.Actions.Freeze.{
  BaseFreezeAction, init_base, write_flag_to_nodes, remove_flag_from_nodes, kwargs_of,
  freeze_params,
}

pub record FreezeProcessesGroupAction : Type 0 where
  pub freezer : BaseFreezeAction
  pub group : Option Text

abbrev pub group_db : Text
group_db = codes "db"

abbrev pub group_extra : Text
group_extra = codes "extra"

abbrev pub init : Nodes → ℤ → Kwargs → FreezeProcessesGroupAction
init nodes ordinal k = record { freezer = init_base nodes ordinal k; group = k.group }

-- `_target_nodes`: any other group, or none, stands for the DB nodes
unfoldable pub target_nodes : Option Text → Nodes → List Text
target_nodes none nodes = nodes.db_nodes
target_nodes (some g) nodes = if g == group_extra then nodes.extra_nodes else nodes.db_nodes

-- `[g for g in self.GROUPS if …]`
unfoldable pub candidates : Nodes → List Text
candidates nodes =
    (if is_empty nodes.db_nodes then [] else (group_db ∷ []))
    ++ (if is_empty nodes.extra_nodes then [] else (group_extra ∷ []))

module _ (env : Env) where
  unfoldable pub choose_group : List Text → Method FreezeProcessesGroupAction (List Text)
  unfolding choice target_nodes
  choose_group [] = return []
  choose_group (g ∷ gs) = do
    a ← self
    chosen ← lift (choice env (g ∷ gs))
    modify λ a. record a { group = some chosen }
    return (target_nodes (some chosen) a.freezer.base.nodes)

  -- `_resolve_targets`
  unfoldable pub resolve_targets : Option Text → Method FreezeProcessesGroupAction (List Text)
  unfolding choose_group candidates target_nodes
  resolve_targets none = do a ← self; choose_group (candidates a.freezer.base.nodes)
  resolve_targets (some g) = do a ← self; return (target_nodes (some g) a.freezer.base.nodes)

  -- An empty target list returns early; the loop over it would do nothing either.
  unfoldable pub execute : Method FreezeProcessesGroupAction (Unit {0})
  execute = do
    a ← self
    targets ← resolve_targets a.group
    if is_empty targets then return tt else lift (write_flag_to_nodes env a.freezer targets)

  unfoldable pub heal : Method FreezeProcessesGroupAction (Unit {0})
  unfolding remove_flag_from_nodes target_nodes
  heal = do a ← self; lift (remove_flag_from_nodes env (target_nodes a.group a.freezer.base.nodes))

unfoldable pub serialize : FreezeProcessesGroupAction → Text
unfolding freeze_params
serialize a = freeze_params a.freezer.base.ordinal (or_else a.group []) a.freezer

unfoldable pub deserialize : Text → Nodes → Result FreezeProcessesGroupAction
unfolding part kwargs_of
deserialize params nodes =
    let parts = split_params params in
    and_then (and_then (part parts 0) int) λ ordinal.
      and_then (kwargs_of parts)
        λ k. ok (init nodes ordinal (record k { group = get_elem? parts 1 }))
