-- ===== src/Actions/Steady/Freezers.antt =====
-- faults/actions.py: `execute` and `heal` of the freeze actions.
use faultstorm.Prelude.{
  refl, List, [], ◌∷◌, Option, none, some, is_empty, list_eq, nat_eq, assertion_error,
}
use faultstorm.Text.{Text}
use faultstorm.Effects.{Env, choice}
use faultstorm.Effects.Methods.{modify, lift, return}
use faultstorm.Effects.Grows.{choice-Grows}
use faultstorm.Actions.Base.{FaultAction}
use faultstorm.Actions.Freeze.Single
use faultstorm.Actions.Freeze.Single.{FreezeProcessesAction}
use faultstorm.Actions.Freeze.Group
use faultstorm.Actions.Freeze.Group.{FreezeProcessesGroupAction, candidates, target_nodes}
use faultstorm.Actions.Commands.{write_flag_to_nodes-Grows, remove_flag_from_nodes-Grows}
use faultstorm.Actions.Steady.{
  choose-Steady, then-Steady, Steady, return-Steady, throw-Steady, modify-Steady, lift-Steady,
  >>=-Steady, >>-Steady, if-Steady,
}

module _ (env : Env) (b : FaultAction) where
  abbrev single_base : FreezeProcessesAction → FaultAction
  single_base a = a.freezer.base

  single_targets : (o : Option Text) → Steady b single_base (Single.resolve_targets env o)
  unfolding Single.resolve_targets
  single_targets (some n) = return-Steady single_base (n ∷ [])
  single_targets none =
      choose-Steady single_base (λ a. choice env a.freezer.base.db_nodes) _ (λ n. return (n ∷ []))
        (λ a. choice-Grows env a.freezer.base.db_nodes) (λ n s. refl)
        (λ n. return-Steady single_base (n ∷ []))

  pub single_execute : Steady b single_base (Single.execute env)
  unfolding Single.execute
  single_execute = then-Steady single_base _ (λ a at.
      >>=-Steady single_base (Single.resolve_targets env a.node) _ (single_targets a.node)
        (λ ns. lift-Steady single_base _ (write_flag_to_nodes-Grows env b a.freezer ns)))

  single_heal_on : (o : Option Text) → Steady b single_base (Single.heal_on env o)
  unfolding Single.heal_on
  single_heal_on none = throw-Steady single_base assertion_error
  single_heal_on (some n) = lift-Steady single_base _ (remove_flag_from_nodes-Grows env b (n ∷ []))

  pub single_heal : Steady b single_base (Single.heal env)
  unfolding Single.heal
  single_heal = then-Steady single_base _ (λ a at. single_heal_on a.node)

  abbrev group_base : FreezeProcessesGroupAction → FaultAction
  group_base a = a.freezer.base

  group_choose : (gs : List Text) → Steady b group_base (Group.choose_group env gs)
  unfolding Group.choose_group
  group_choose [] = return-Steady group_base []
  group_choose (g ∷ gs) = then-Steady group_base _ (λ a at.
      >>=-Steady group_base (lift (choice env (g ∷ gs))) _
        (lift-Steady group_base _ (choice-Grows env (g ∷ gs)))
        (λ c.
          >>-Steady group_base (modify λ s. record s { group = some c }) _
            (modify-Steady group_base (λ s. record s { group = some c }) (λ s. refl))
            (return-Steady group_base (target_nodes (some c) a.freezer.base.nodes))))

  group_targets : (o : Option Text) → Steady b group_base (Group.resolve_targets env o)
  unfolding Group.resolve_targets
  group_targets none =
      then-Steady group_base _ (λ a at. group_choose (candidates a.freezer.base.nodes))
  group_targets (some g) =
      then-Steady group_base _
        (λ a at. return-Steady group_base (target_nodes (some g) a.freezer.base.nodes))

  pub group_execute : Steady b group_base (Group.execute env)
  unfolding Group.execute
  group_execute = then-Steady group_base _ (λ a at.
      >>=-Steady group_base (Group.resolve_targets env a.group) _ (group_targets a.group) (λ ns.
        if-Steady group_base (is_empty ns) (return tt) _ (return-Steady group_base tt)
          (lift-Steady group_base _ (write_flag_to_nodes-Grows env b a.freezer ns))))

  pub group_heal : Steady b group_base (Group.heal env)
  unfolding Group.heal
  group_heal = then-Steady group_base _ (λ a at.
      lift-Steady group_base _
        (remove_flag_from_nodes-Grows env b (target_nodes a.group a.freezer.base.nodes)))
