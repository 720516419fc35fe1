-- ===== src/Latency/Delays.antt =====
-- network_latency.py: which delay is between two nodes, and which addresses share a band.
pub mod Symmetry
pub mod Groups
use faultstorm.Prelude.{
  ℕ, ◌*◌, Bool, true, false, ◌&&◌, ◌||◌, List, [], ◌∷◌, ◌++◌, Option, none, some, ℤ, pos, is_empty,
  if◌then◌else◌, lookup, insert, list_eq, nat_eq, pair_eq, int_eq, contains, ltb_ℤ, ltb, ◌==◌,
}
use faultstorm.Prelude.Dict.{Dict}
use faultstorm.Prelude.Int.{◌+ℤ◌}
use faultstorm.Text.{ltb_text, Text, codes}
use faultstorm.Text.Decimal.{str_nat}
use faultstorm.Config.{TestConfig}
use faultstorm.Latency.Bands.{BandInfo}

-- `_normalise_dc_pair`: `min` and `max` keep the first of two equal texts
unfoldable pub normalise_dc_pair : Text → Text → Text × Text
unfolding ltb_text
normalise_dc_pair a b = (if ltb_text b a then b else a, if ltb_text a b then b else a)

-- `node_dc`: the last datacenter that has the node
unfoldable pub place_nodes : Text → List Text → Dict Text Text → Dict Text Text
unfolding insert
place_nodes dc [] node_dc = node_dc
place_nodes dc (n ∷ ns) node_dc = place_nodes dc ns (insert n dc node_dc)

unfoldable pub node_dc_of : Dict Text (List Text) → Dict Text Text → Dict Text Text
unfolding place_nodes
node_dc_of [] node_dc = node_dc
node_dc_of ((dc, nodes) ∷ dcs) node_dc = node_dc_of dcs (place_nodes dc nodes node_dc)

-- `delays`: a pair that is given twice keeps the last delay
unfoldable pub normalised : Dict (Text × Text) ℤ → Dict (Text × Text) ℤ → Dict (Text × Text) ℤ
unfolding insert normalise_dc_pair
normalised [] delays = delays
normalised (((a, b), ms) ∷ more) delays = normalised more (insert (normalise_dc_pair a b) ms delays)

abbrev pub or_zero : Option ℤ → ℤ
or_zero none = pos 0
or_zero (some z) = z

-- The first component of `delay`; a datacenter with an empty name counts as none.
unfoldable pub cross_dc_delay : Dict (Text × Text) ℤ → Option Text → Option Text → ℤ
unfolding lookup normalise_dc_pair
cross_dc_delay delays (some a) (some b) =
    if is_empty a || is_empty b || (a == b)
    then pos 0
    else or_zero (lookup (normalise_dc_pair a b) delays)
cross_dc_delay delays _ _ = pos 0

-- The second one.
unfoldable pub db_zk_delay : TestConfig → Text → Text → ℤ
db_zk_delay c node other =
    if ltb_ℤ (pos 0) c.db_zk_delay_ms
      && ((contains c.db_nodes node && contains c.extra_nodes other)
          || (contains c.extra_nodes node && contains c.db_nodes other))
    then c.db_zk_delay_ms
    else pos 0

-- `delay`, from `node` to `other`
unfoldable pub delay_between : TestConfig → Dict (Text × Text) ℤ → Dict Text Text → Text → Text → ℤ
unfolding cross_dc_delay db_zk_delay lookup ◌+ℤ◌
delay_between c delays node_dc node other =
    cross_dc_delay delays (lookup node node_dc) (lookup other node_dc) +ℤ db_zk_delay c node other

-- `delay_to_ips.setdefault(ms, []).append(ip)`
unfoldable pub group_ips : Dict Text ℤ → Dict ℤ (List Text) → Dict ℤ (List Text)
unfolding lookup insert
group_ips [] groups = groups
group_ips ((ip, ms) ∷ more) groups =
    group_ips more
      (insert ms (elim (lookup ms groups) [ none ↦ [] | some ips ↦ ips ] ++ ip ∷ []) groups)

abbrev pub band_at : ℕ → ℤ → BandInfo
band_at idx delay = record {
  parent = codes "1:" ++ str_nat idx;
  handle = str_nat (idx * 10) ++ codes ":";
  delay_ms = delay;
}
