-- ===== src/Latency/Manager/Removed.antt =====
-- network_latency.py: `remove`.
use mathlib.Core.List.{append-nil}
use faultstorm.Prelude.{
  ◌≡◌, refl, sym, ap, Bool, true, false, not, ◌&&◌, List, to_set, ◌++◌, [], ◌∷◌, ok, is_empty,
  Bool-cases, inl, inr, arith, list_eq, nat_eq,
}
use faultstorm.Text.{Text}
use faultstorm.Config.{TestConfig, all_nodes}
use faultstorm.Effects.{Env, Event, World}
use faultstorm.Latency.Bands.{del_root_argv}
use faultstorm.Latency.Freeze.Restores.{after, done, flat_map, for_each_lem, try_exec_lem}
use faultstorm.Latency.Manager.{NetworkLatencyManager, to_remove, remove_node, remove}

skipped :
    (ns : List Text) (force : Bool)
    → (is_empty ns && not force) ≡ true
    → (ns ≡ []) × (force ≡ false)
skipped ns force h = ground arith

module _ (env : Env) (c : TestConfig) where
  -- The command that deletes all rules of a node.
  abbrev pub deletes : Text → List Event
  deletes node = done env node del_root_argv ∷ []

  remove_node_lem :
      (node : Text) (w : World) → remove_node env node w ≡ (ok tt, after w (deletes node))
  unfolding remove_node
  remove_node_lem node w = try_exec_lem env node del_root_argv w

  -- The nodes of a removal: the configured ones, or those of the cluster if it is forced.
  abbrev pub removed : Bool → NetworkLatencyManager → List Text
  removed true m = to_set (c.db_nodes ++ c.extra_nodes)
  removed false m = m.configured_nodes

  to_remove-removed :
      (force : Bool) (m : NetworkLatencyManager) → to_remove env c force m ≡ removed force m
  unfolding all_nodes
  to_remove-removed true m = refl
  to_remove-removed false m = refl

  -- `remove` never raises: it starts the command that deletes all rules on every configured node,
  -- or on every node of the cluster if it is forced, whichever of these commands fail, and nothing
  -- else, and no node is configured after it.
  pub remove_lem :
      (force : Bool) (m : NetworkLatencyManager) (w : World)
      → ((remove env c force m w).0 ≡ ok tt)
        × ((remove env c force m w).1.configured_nodes ≡ [])
        × ((remove env c force m w).2 ≡ after w (flat_map deletes (removed force m)))
  unfolding remove
  remove_lem force m w = elim (Bool-cases (is_empty m.configured_nodes && not force)) [
    | inl p ↦
        let (none_left, unforced) = skipped m.configured_nodes force p in
        rw p (
          refl,
          none_left,
          rw (unforced, none_left) (ap (λ t. record w { trace = t }) (sym (append-nil w.trace))),
        )
    | inr p ↦
        rw
          (
            p,
            ← to_remove-removed force m,
            for_each_lem env [] (remove_node env) deletes remove_node_lem (to_remove env c force m)
                w,
          )
          (refl, refl, refl)
  ]
