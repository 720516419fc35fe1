-- ===== src/Latency/Manager/Applied.antt =====
-- network_latency.py: the bands that `_apply_node` records.
use faultstorm.Prelude.{
  ℕ, suc, ◌+◌, ◌≡◌, refl, true, List, [], ◌∷◌, some, ℤ, Result, ok, All, arith, lookup, insert,
  lookup-insert, beq_self, keys, IsNodup, list_eq, nat_eq, length, Bool-cases, inl, inr,
}
use faultstorm.Prelude.Dict.{Dict}
use faultstorm.Text.{Text, codes}
use faultstorm.Effects.{Env, World, Io}
use faultstorm.Cluster.{exec_on_node}
use faultstorm.Latency.Bands.{BandInfo, attempt, succeeded, netem_argv, prio_argv}
use faultstorm.Latency.Delays.{group_ips, band_at}
use faultstorm.Latency.Delays.Groups.{IsRight, group_ips-IsRight}
use faultstorm.Latency.Manager.{
  NetworkLatencyManager, add_filters, add_bands, apply_bands, apply_node, get_bands_for_node,
}

-- A band that is recorded for an address has the delay that is wanted for it.
abbrev pub IsWanted : Dict Text ℤ → Dict Text BandInfo → Type 0
IsWanted dests found =
    (ip : Text) (band : BandInfo)
    → lookup ip found ≡ some band
    → lookup ip dests ≡ some band.delay_ms

-- A result that was not raised, and that is wanted.
pub record Fits (dests : Dict Text ℤ) (r : Result (Dict Text BandInfo)) : Type 0 where
  pub found : Dict Text BandInfo
  pub returned : r ≡ ok found
  pub wanted : IsWanted dests found

insert-IsWanted :
    (dests : Dict Text ℤ) (ip : Text) (band : BandInfo) (found : Dict Text BandInfo)
    → lookup ip dests ≡ some band.delay_ms
    → IsWanted dests found
    → IsWanted dests (insert ip band found)
insert-IsWanted dests ip band found h w jp b e =
    ground (arith, lookup-insert ip jp band found, w jp b, (list_eq ⦃e = nat_eq⦄).beq_iff ip jp)

module _ (env : Env) (dests : Dict Text ℤ) (node : Text) where
  add_filters-Fits :
      (idx : ℕ) (band : BandInfo) (ips : List Text) (found : Dict Text BandInfo) (w : World)
      → IsRight dests (band.delay_ms, ips)
      → IsWanted dests found
      → Fits dests (add_filters env node idx band ips found w).0
  unfolding add_filters
  add_filters-Fits idx band [] found w r f = record { found = found; returned = refl; wanted = f }
  add_filters-Fits idx band (ip ∷ ips) found w r f =
      add_filters-Fits idx band ips (insert ip band found) _ r.1
        (insert-IsWanted dests ip band found r.0 f)

  pub add_bands-Fits :
      (idx : ℕ) (groups : Dict ℤ (List Text)) (found : Dict Text BandInfo) (w : World)
      → All (IsRight dests) groups
      → IsWanted dests found
      → Fits dests (add_bands env node idx groups found w).0
  unfolding add_bands attempt
  add_bands-Fits idx [] found w r f = record { found = found; returned = refl; wanted = f }
  add_bands-Fits idx ((delay, ips) ∷ groups) found w r f =
      let band = band_at idx delay in
      let w' = (attempt env node (netem_argv (codes "add") band.parent band.handle delay) w).1 in
      let here = add_filters-Fits idx band ips found w' r.0 f in
      elim (Bool-cases (
        succeeded env
          (exec_on_node env node (netem_argv (codes "add") band.parent band.handle delay) 10
            w).0)) [
              | inl p ↦
                  rw (p, here.returned)
                    (add_bands-Fits (suc idx) groups here.found _ r.1 here.wanted)
              | inr p ↦ rw p (add_bands-Fits (suc idx) groups found w' r.1 f)
            ]

  -- The command that makes the root qdisc of a node.
  abbrev pub root_command : Io Text
  root_command = exec_on_node env node (prio_argv (length (group_ips dests []) + 1)) 10

  pub stored_lem :
      (m : NetworkLatencyManager) (found : Dict Text BandInfo)
      → get_bands_for_node env node (record m { node_bands = insert node found m.node_bands })
        ≡ found
  unfolding get_bands_for_node
  stored_lem m found = ground (arith, lookup-insert node node found m.node_bands, beq_self node)

  apply_bands-IsWanted :
      (m : NetworkLatencyManager) (w : World)
      → IsNodup (keys dests)
      → ((apply_bands env true node dests m w).0 ≡ ok tt)
        × IsWanted dests (get_bands_for_node env node (apply_bands env true node dests m w).1)
  unfolding apply_bands get_bands_for_node
  apply_bands-IsWanted m w n =
      let fits =
        add_bands-Fits 2 (group_ips dests []) [] w (group_ips-IsRight dests n) (λ ip band e. cc) in
      rw fits.returned (refl, rw (stored_lem m fits.found) fits.wanted)

  -- If a node has no rules yet, so that its root qdisc can be made, `_apply_node` returns, and
  -- every band that it records for an address has the delay that was wanted for it, whichever of
  -- its other commands fail.
  pub apply_node-IsWanted :
      (m : NetworkLatencyManager) (w : World) (out : Text)
      → IsNodup (keys dests)
      → (root_command w).0 ≡ ok out
      → ((apply_node env node dests m w).0 ≡ ok tt)
        × IsWanted dests (get_bands_for_node env node (apply_node env node dests m w).1)
  unfolding apply_node attempt
  apply_node-IsWanted m w out n e = rw e (apply_bands-IsWanted m (root_command w).1 n)
