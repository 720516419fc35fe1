-- ===== src/Runner/Cleanup.antt =====
-- runner.py: when the latency rules are removed.
use faultstorm.Prelude.{◌≡◌, refl, ap, false, List, [], Option, Result, ok, err}
use faultstorm.Prelude.Dict.{Dict}
use faultstorm.Text.{Text}
use faultstorm.Config.{TestConfig}
use faultstorm.Effects.{Env, World, Io}
use faultstorm.Effects.Methods
use faultstorm.Actions.Registry.{Registry}
use faultstorm.Checker.Consistency.{CheckResult}
use faultstorm.Engine.Faults.{Faults}
use faultstorm.Load.Client.{DatabaseClient}
use faultstorm.Latency.Freeze.Restores.{after, flat_map}
use faultstorm.Latency.Manager.{NetworkLatencyManager, apply}
use faultstorm.Latency.Manager.Removed.{deletes, remove_lem}
use faultstorm.Runner.{Surroundings, run_phases, with_removal, run}

module _ (faults : Faults) (client : DatabaseClient) (env : Env) (config : TestConfig)
    (dc_map : Dict Text (List Text)) (given : Surroundings) where
  open faults use {Class}
  open client use {Db}

  -- How a test ends, by how `apply` ended: if it returned, with the result of the phases, the rules
  -- of every configured node deleted and no node configured; if it raised, with its exception and
  -- nothing else.
  abbrev pub Cleans :
      Io (Option CheckResult)
      → Result (Unit {0}) × NetworkLatencyManager × World
      → Result (Option CheckResult) × NetworkLatencyManager × World
      → Type 0
  Cleans phases (err e, m, w) r = r ≡ (err e, m, w)
  Cleans phases (ok _, m, w) r =
      (r.0 ≡ (phases w).0)
      × (r.1.configured_nodes ≡ [])
      × (r.2 ≡ after (phases w).1 (flat_map (deletes env config) m.configured_nodes))

  with_removal_lem :
      (phases : Io (Option CheckResult)) (m : NetworkLatencyManager) (w : World)
      → Cleans phases (ok tt, m, w) (with_removal faults client env config dc_map given phases m w)
  unfolding with_removal
  with_removal_lem phases m w =
      let (returns, none_left, deleted) = remove_lem env config false m (phases w).1 in
      (ap (λ x. elim x [ ok _ ↦ (phases w).0 | err e ↦ err e ]) returns, none_left, deleted)

  bind-Cleans :
      (phases : Io (Option CheckResult)) (p : Result (Unit {0}) × NetworkLatencyManager × World)
      → Cleans phases p (
          Methods.after p.0
            (λ _. with_removal faults client env config dc_map given phases)
            p.1
            p.2)
  bind-Cleans phases (ok _, m, w) = with_removal_lem phases m w
  bind-Cleans phases (err e, m, w) = refl

  -- If `apply` returns, a test ends with the result of its phases, the rules of every configured
  -- node are deleted and no node is configured, whatever the phases raise; if `apply` raises, its
  -- exception passes and nothing is removed.
  pub run-Cleans :
      (registry : Registry Class) (d : Db) (m : NetworkLatencyManager) (w : World)
      → Cleans
          (run_phases faults client env config dc_map given registry d)
          (apply env config dc_map m w)
          (run faults client env config dc_map given registry d m w)
  unfolding run
  run-Cleans registry d m w =
      bind-Cleans (run_phases faults client env config dc_map given registry d)
        (apply env config dc_map m w)
