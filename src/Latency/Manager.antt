-- ===== src/Latency/Manager.antt =====
-- network_latency.py: NetworkLatencyManager.
pub mod Applied
pub mod Recorded
pub mod Removed
mod Tests
use faultstorm.Prelude.{
  ℕ, suc, ◌+◌, ◌*◌, Bool, true, false, not, ◌&&◌, ◌||◌, List, [], ◌∷◌, ◌++◌, Option, none, some, ℤ,
  pos, Result, ok, err, is_empty, length, if◌then◌else◌, lookup, insert, keys, list_eq, nat_eq,
  pair_eq, int_eq, contains, add, to_set, ltb_ℤ, ltb, ◌==◌,
}
use faultstorm.Prelude.Dict.{Dict}
use faultstorm.Prelude.Int.{◌+ℤ◌}
use faultstorm.Text.{Text, codes}
use faultstorm.Text.Decimal.{str_nat}
use faultstorm.Config.{TestConfig, all_nodes}
use faultstorm.Effects.{Env, Io, World, pure, for_each}
use faultstorm.Effects.Methods.{Method, self, modify, lift, return, throw, ◌>>=◌, ◌>>◌}
use faultstorm.Cluster.{get_node_ip}
use faultstorm.Latency.Bands.{
  BandInfo, netem_argv, prio_argv, filter_argv, del_root_argv, try_exec, attempt,
}
use faultstorm.Latency.Delays.{normalised, node_dc_of, delay_between, group_ips, band_at}
use faultstorm.Latency.Freeze.{discover_bands_for_ips, freeze_drop_restore}

-- A set of texts is the list of its elements, in the order of its iteration.
pub record NetworkLatencyManager : Type 0 where
  pub configured_nodes : List Text
  pub node_bands : Dict Text (Dict Text BandInfo)

abbrev pub new_manager : NetworkLatencyManager
new_manager = record { configured_nodes = []; node_bands = [] }

module _ (env : Env) where
  -- `for ip in ips`
  unfoldable pub add_filters :
      Text → ℕ → BandInfo → List Text → Dict Text BandInfo → Io (Dict Text BandInfo)
  unfolding try_exec insert
  add_filters node idx band [] found w = pure found w
  add_filters node idx band (ip ∷ ips) found w =
      let (_, w') = try_exec env node (filter_argv (str_nat idx) ip band.parent) w in
      add_filters node idx band ips (insert ip band found) w'

  abbrev pub if_added : {A : Type 0} → Result Bool → A → A → A
  if_added (ok true) m k = m
  if_added _ m k = k

  -- `for band_idx, (delay_ms, ips) in enumerate(delay_to_ips.items(), start=2)`
  unfoldable pub add_bands :
      Text → ℕ → Dict ℤ (List Text) → Dict Text BandInfo → Io (Dict Text BandInfo)
  unfolding attempt add_filters
  add_bands node idx [] found w = pure found w
  add_bands node idx ((delay, ips) ∷ groups) found w =
      let band = band_at idx delay in
      let (added, w') =
        attempt env node (netem_argv (codes "add") band.parent band.handle delay) w in
      let (r, w'') = add_filters node idx band ips found w' in
      if_added added
        (elim r [ err e ↦ (err e, w'') | ok found' ↦ add_bands node (suc idx) groups found' w'' ])
        (add_bands node (suc idx) groups found w')

  -- `self._node_bands[node] = bands`
  abbrev pub store : Text → Dict Text BandInfo → Method NetworkLatencyManager (Unit {0})
  unfolding insert
  store node bands = modify λ m. record m { node_bands = insert node bands m.node_bands }

  abbrev pub store_existing : Text → Dict Text BandInfo → Method NetworkLatencyManager (Unit {0})
  store_existing node [] = return tt
  store_existing node (b ∷ bands) = store node (b ∷ bands)

  -- What follows the root qdisc in `_apply_node`.
  unfoldable pub apply_bands : Bool → Text → Dict Text ℤ → Method NetworkLatencyManager (Unit {0})
  unfolding discover_bands_for_ips add_bands group_ips
  apply_bands false node dest_delays = do
    existing ← lift (discover_bands_for_ips env node (keys dest_delays))
    store_existing node existing
  apply_bands true node dest_delays = do
    bands ← lift (add_bands node 2 (group_ips dest_delays []) [])
    store node bands

  -- `_apply_node`
  unfoldable pub apply_node : Text → Dict Text ℤ → Method NetworkLatencyManager (Unit {0})
  unfolding attempt apply_bands group_ips
  apply_node node dest_delays = do
    added ← lift (attempt env node (prio_argv (length (group_ips dest_delays []) + 1)))
    apply_bands added node dest_delays

  -- `if delay > 0: …`
  unfoldable pub add_dest : Bool → Text → ℤ → Dict Text ℤ → Io (Dict Text ℤ)
  unfolding get_node_ip insert
  add_dest false other delay dests w = pure dests w
  add_dest true other delay dests w =
      let (r, w') = get_node_ip env other w in
      elim r [ err e ↦ (err e, w') | ok ip ↦ (ok (insert ip delay dests), w') ]

  -- `for other in all_nodes`
  unfoldable pub dest_delays_of :
      TestConfig
      → Dict (Text × Text) ℤ
      → Dict Text Text
      → Text
      → List Text
      → Dict Text ℤ
      → Io (Dict Text ℤ)
  unfolding delay_between add_dest
  dest_delays_of c delays node_dc node [] dests w = pure dests w
  dest_delays_of c delays node_dc node (other ∷ others) dests w =
      let delay = delay_between c delays node_dc node other in
      let (r, w') = add_dest (not (other == node) && ltb_ℤ (pos 0) delay) other delay dests w in
      elim r [
        | err e ↦ (err e, w')
        | ok dests' ↦ dest_delays_of c delays node_dc node others dests' w'
      ]

  -- `if not dest_delays: continue`, and what follows it
  unfoldable pub configure : Text → Dict Text ℤ → Method NetworkLatencyManager (Unit {0})
  unfolding apply_node add
  configure node [] = return tt
  configure node (d ∷ dests) = do
    apply_node node (d ∷ dests)
    modify λ m. record m { configured_nodes = add node m.configured_nodes }

  -- `for node in all_nodes`
  unfoldable pub apply_each :
      TestConfig
      → Dict (Text × Text) ℤ
      → Dict Text Text
      → List Text
      → Method NetworkLatencyManager (Unit {0})
  unfolding dest_delays_of configure all_nodes
  apply_each c delays node_dc [] = return tt
  apply_each c delays node_dc (node ∷ nodes) = do
    dests ← lift (dest_delays_of c delays node_dc node (all_nodes c) [])
    configure node dests
    apply_each c delays node_dc nodes

  -- `apply`
  unfoldable pub apply :
      TestConfig → Dict Text (List Text) → Method NetworkLatencyManager (Unit {0})
  unfolding normalised node_dc_of apply_each all_nodes
  apply c dc_map =
      if is_empty c.cross_dc_delays && not (ltb_ℤ (pos 0) c.db_zk_delay_ms)
      then return tt
      else apply_each c (normalised c.cross_dc_delays []) (node_dc_of dc_map []) (all_nodes c)

  -- `_remove_node`
  unfoldable pub remove_node : Text → Io (Unit {0})
  unfolding try_exec
  remove_node node = try_exec env node del_root_argv

  abbrev pub to_remove : TestConfig → Bool → NetworkLatencyManager → List Text
  to_remove c force_all_nodes m =
      if force_all_nodes then to_set (all_nodes c) else m.configured_nodes

  -- `remove`
  unfoldable pub remove : TestConfig → Bool → Method NetworkLatencyManager (Unit {0})
  unfolding remove_node for_each
  remove c force_all_nodes = do
    m ← self
    if is_empty m.configured_nodes && not force_all_nodes then return tt else (do
      lift (for_each (to_remove c force_all_nodes m) remove_node)
      modify λ m. record m { configured_nodes = []; node_bands = [] })

  -- `get_bands_for_node`
  unfoldable pub get_bands_for_node : Text → NetworkLatencyManager → Dict Text BandInfo
  unfolding lookup
  get_bands_for_node node m = elim (lookup node m.node_bands) [ none ↦ [] | some bands ↦ bands ]

  -- `{ip: band for ip, band in node_bands.items() if ip in target_ips}`
  unfoldable pub keep_targets : List Text → Dict Text BandInfo → Dict Text BandInfo
  keep_targets target_ips [] = []
  keep_targets target_ips ((ip, band) ∷ bands) =
      let rest = keep_targets target_ips bands in
      if contains target_ips ip then ((ip, band) ∷ rest) else rest

  abbrev pub freeze_stored : Text → ℕ → Option (Io (Unit {0})) → Dict Text BandInfo → Io (Unit {0})
  freeze_stored node seconds none [] = pure tt
  freeze_stored node seconds (some kill) [] = kill
  freeze_stored node seconds kill (b ∷ bands) =
      freeze_drop_restore env node (b ∷ bands) seconds kill

  -- The method `freeze_drop_restore_for_ips`
  unfoldable pub freeze_drop_restore_for_ips :
      Text → List Text → ℕ → Option (Io (Unit {0})) → Method NetworkLatencyManager (Unit {0})
  unfolding get_bands_for_node keep_targets
  freeze_drop_restore_for_ips node target_ips seconds kill = do
    m ← self
    lift (freeze_stored node seconds kill (keep_targets target_ips (get_bands_for_node node m)))
