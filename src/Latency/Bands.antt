-- ===== src/Latency/Bands.antt =====
-- network_latency.py: the `tc` commands on one node.
use faultstorm.Prelude.{
  ℕ, zero, suc, Bool, true, false, List, [], ◌∷◌, ◌++◌, ℤ, pos, Result, ok, err,
}
use faultstorm.Text.{Text, codes}
use faultstorm.Text.Decimal.{str, str_nat}
use faultstorm.Effects.{Env, Io, pure, ◌>>=◌, ◌>>◌, for_each, ignore}
use faultstorm.Cluster.{exec_on_node}

pub record BandInfo : Type 0 where
  pub parent : Text
  pub handle : Text
  pub delay_ms : ℤ

abbrev pub iface : Text
iface = codes "eth0"

-- `_FREEZE_DELAY_MS`
abbrev pub freeze_delay_ms : ℤ
freeze_delay_ms = pos 99999

-- The arguments `"delay", f"{delay}ms"`
abbrev pub delay_args : ℤ → List Text
delay_args delay = codes "delay" ∷ (str delay ++ codes "ms") ∷ []

-- `tc qdisc <verb> dev eth0 parent <parent> handle <handle>`, and what follows
abbrev pub qdisc_argv : Text → Text → Text → List Text → List Text
qdisc_argv verb parent handle more =
    codes "tc"
    ∷ codes "qdisc"
    ∷ verb
    ∷ codes "dev"
    ∷ iface
    ∷ codes "parent"
    ∷ parent
    ∷ codes "handle"
    ∷ handle
    ∷ more

abbrev pub netem_argv : Text → Text → Text → ℤ → List Text
netem_argv verb parent handle delay =
    qdisc_argv verb parent handle (codes "netem" ∷ delay_args delay)

-- `" ".join(["0"] * 16).split()`
abbrev pub zeros : ℕ → List Text
zeros zero = []
zeros (suc k) = codes "0" ∷ zeros k

abbrev pub prio_argv : ℕ → List Text
prio_argv num_bands =
    codes "tc"
    ∷ codes "qdisc"
    ∷ codes "add"
    ∷ codes "dev"
    ∷ iface
    ∷ codes "root"
    ∷ codes "handle"
    ∷ codes "1:"
    ∷ codes "prio"
    ∷ codes "bands"
    ∷ str_nat num_bands
    ∷ codes "priomap"
    ∷ zeros 16

abbrev pub filter_argv : Text → Text → Text → List Text
filter_argv prio ip flowid =
    codes "tc"
    ∷ codes "filter"
    ∷ codes "add"
    ∷ codes "dev"
    ∷ iface
    ∷ codes "protocol"
    ∷ codes "ip"
    ∷ codes "parent"
    ∷ codes "1:0"
    ∷ codes "prio"
    ∷ prio
    ∷ codes "u32"
    ∷ codes "match"
    ∷ codes "ip"
    ∷ codes "dst"
    ∷ (ip ++ codes "/32")
    ∷ codes "flowid"
    ∷ flowid
    ∷ []

abbrev pub del_root_argv : List Text
del_root_argv = codes "tc" ∷ codes "qdisc" ∷ codes "del" ∷ codes "dev" ∷ iface ∷ codes "root" ∷ []

module _ (env : Env) where
  -- `try: ClusterManager.exec_on_node(node, argv, timeout=10)` / `except Exception: log a warning`
  unfoldable pub try_exec : Text → List Text → Io (Unit {0})
  unfolding ignore exec_on_node
  try_exec node argv = ignore (exec_on_node env node argv 10)

  abbrev pub succeeded : {A : Type 0} → Result A → Bool
  succeeded (ok a) = true
  succeeded (err e) = false

  -- The same where the handler does something else: whether the command succeeded.
  unfoldable pub attempt : Text → List Text → Io Bool
  unfolding exec_on_node
  attempt node argv w = let (r, w') = exec_on_node env node argv 10 w in (ok (succeeded r), w')

  -- `_change_netem_delay`
  unfoldable pub change_netem_delay : Text → BandInfo → ℤ → Io (Unit {0})
  unfolding try_exec
  change_netem_delay node band new_delay_ms =
      try_exec node (netem_argv (codes "change") band.parent band.handle new_delay_ms)

  -- `_reset_netem_band`
  unfoldable pub reset_netem_band : Text → BandInfo → ℤ → Io (Unit {0})
  unfolding try_exec
  reset_netem_band node band restore_delay_ms = do
    try_exec node (qdisc_argv (codes "del") band.parent band.handle [])
    try_exec node (netem_argv (codes "add") band.parent band.handle restore_delay_ms)

  -- `_remove_temp_netem_freeze`
  unfoldable pub remove_temp_netem_freeze : Text → Io (Unit {0})
  unfolding try_exec
  remove_temp_netem_freeze node = try_exec node del_root_argv

  -- What follows the root qdisc in `_create_temp_netem_freeze`, and what follows the netem qdisc.
  unfoldable pub temp_filters : Bool → Text → List Text → Io Bool
  unfolding for_each try_exec remove_temp_netem_freeze
  temp_filters false node target_ips = do remove_temp_netem_freeze node; pure false
  temp_filters true node target_ips = do
    for_each target_ips λ ip. try_exec node (filter_argv (codes "2") ip (codes "1:2"))
    pure true

  unfoldable pub temp_netem : Bool → Text → List Text → Io Bool
  unfolding attempt temp_filters
  temp_netem false node target_ips = pure false
  temp_netem true node target_ips = do
    added ← attempt node (netem_argv (codes "add") (codes "1:2") (codes "20:") freeze_delay_ms)
    temp_filters added node target_ips

  -- `_create_temp_netem_freeze`
  unfoldable pub create_temp_netem_freeze : Text → List Text → Io Bool
  unfolding attempt temp_netem
  create_temp_netem_freeze node target_ips = do
    added ← attempt node (prio_argv 2)
    temp_netem added node target_ips
