-- ===== src/Latency/Freeze.antt =====
-- network_latency.py: `_discover_bands_for_ips` and `freeze_drop_restore_for_ips`.
pub mod Restores
use faultstorm.Prelude.{
  ℕ, Bool, true, false, List, [], ◌∷◌, Option, none, some, pos, Result, ok, err, is_empty,
  if◌then◌else◌, lookup, insert, values, list_eq, nat_eq,
}
use faultstorm.Prelude.Dict.{Dict}
use faultstorm.Text.{Text, codes}
use faultstorm.Effects.{Env, Io, slept, emit, pure, ◌>>=◌, ◌>>◌, for_each}
use faultstorm.Cluster.{exec_on_node}
use faultstorm.Latency.Bands.{
  BandInfo, iface, freeze_delay_ms, change_netem_delay, reset_netem_band, create_temp_netem_freeze,
  remove_temp_netem_freeze,
}
use faultstorm.Latency.Parse.{parse_netem_bands, parse_filter_ip_to_band}

abbrev pub qdisc_show_argv : List Text
qdisc_show_argv = codes "tc" ∷ codes "qdisc" ∷ codes "show" ∷ codes "dev" ∷ iface ∷ []

abbrev pub filter_show_argv : List Text
filter_show_argv = codes "tc" ∷ codes "filter" ∷ codes "show" ∷ codes "dev" ∷ iface ∷ []

-- `bands[flowid]`, for a flowid that is not empty
abbrev pub band_of : Option Text → Dict Text BandInfo → Option BandInfo
band_of none bands = none
band_of (some flowid) bands = if is_empty flowid then none else lookup flowid bands

-- The loop over `target_ips`; a set is the list of its elements, in the order of its iteration.
unfoldable pub match_ips :
    Dict Text BandInfo → Dict Text Text → List Text → Dict Text BandInfo → Dict Text BandInfo
unfolding lookup insert
match_ips bands flowids [] found = found
match_ips bands flowids (ip ∷ ips) found = elim (band_of (lookup ip flowids) bands) [
  | none ↦ match_ips bands flowids ips found
  | some band ↦ match_ips bands flowids ips (insert ip band found)
]

-- A band is frozen once, however many addresses it has: `frozen_bands`.
unfoldable pub distinct_bands : List BandInfo → Dict Text BandInfo → Dict Text BandInfo
unfolding lookup insert
distinct_bands [] frozen = frozen
distinct_bands (band ∷ more) frozen = elim (lookup band.parent frozen) [
  | some _ ↦ distinct_bands more frozen
  | none ↦ distinct_bands more (insert band.parent band frozen)
]

module _ (env : Env) where
  abbrev by_flowid : List Text → Dict Text BandInfo → Result Text → Io (Dict Text BandInfo)
  by_flowid target_ips bands (err e) = pure []
  by_flowid target_ips bands (ok out) =
      pure (match_ips bands (parse_filter_ip_to_band out) target_ips [])

  -- `except Exception: return {}`, around one command
  abbrev caught : Io Text → Io (Result Text)
  caught m w = let (r, w') = m w in (ok r, w')

  abbrev lift_result : {A : Type 0} → Result A → Io A
  lift_result r w = (r, w)

  unfoldable pub discover_filters : Text → List Text → Dict Text BandInfo → Io (Dict Text BandInfo)
  unfolding parse_filter_ip_to_band match_ips exec_on_node
  discover_filters node target_ips [] = pure []
  discover_filters node target_ips (b ∷ bands) = do
    out ← caught (exec_on_node env node filter_show_argv 10)
    by_flowid target_ips (b ∷ bands) out

  unfoldable pub discover_from : Text → List Text → Result Text → Io (Dict Text BandInfo)
  unfolding parse_netem_bands discover_filters
  discover_from node target_ips (err e) = pure []
  discover_from node target_ips (ok out) = do
    bands ← lift_result (parse_netem_bands out)
    discover_filters node target_ips bands

  -- `_discover_bands_for_ips`
  unfoldable pub discover_bands_for_ips : Text → List Text → Io (Dict Text BandInfo)
  unfolding exec_on_node discover_from
  discover_bands_for_ips node target_ips = do
    out ← caught (exec_on_node env node qdisc_show_argv 10)
    discover_from node target_ips out

  -- `time.sleep(pre_kill_sleep)`, and the callback
  abbrev pub sleep_and_kill : ℕ → Option (Io (Unit {0})) → Io (Unit {0})
  sleep_and_kill seconds none = emit (slept (pos seconds))
  sleep_and_kill seconds (some kill) = do emit (slept (pos seconds)); kill

  -- Freeze, sleep, kill, drop and restore, for the bands that were matched.
  unfoldable pub freeze_drop_restore :
      Text → Dict Text BandInfo → ℕ → Option (Io (Unit {0})) → Io (Unit {0})
  unfolding for_each change_netem_delay reset_netem_band emit distinct_bands
  freeze_drop_restore node matched seconds kill = do
    let frozen = values (distinct_bands (values matched) [])
    for_each frozen λ band. change_netem_delay env node band freeze_delay_ms
    sleep_and_kill seconds kill
    for_each frozen λ band. reset_netem_band env node band band.delay_ms

  unfoldable pub freeze_matched :
      Text → List Text → ℕ → Option (Io (Unit {0})) → Dict Text BandInfo → Io (Unit {0})
  unfolding freeze_drop_restore create_temp_netem_freeze remove_temp_netem_freeze emit
  freeze_matched node target_ips seconds kill [] = do
    temp_created ← create_temp_netem_freeze env node target_ips
    sleep_and_kill seconds kill
    if temp_created then remove_temp_netem_freeze env node else pure tt
  freeze_matched node target_ips seconds kill (b ∷ bands) =
      freeze_drop_restore node (b ∷ bands) seconds kill

  -- `freeze_drop_restore_for_ips`
  unfoldable pub freeze_drop_restore_for_ips :
      Text → List Text → ℕ → Option (Io (Unit {0})) → Io (Unit {0})
  unfolding discover_bands_for_ips freeze_matched
  freeze_drop_restore_for_ips node target_ips seconds kill = do
    matched ← discover_bands_for_ips node target_ips
    freeze_matched node target_ips seconds kill matched
