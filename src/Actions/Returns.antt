-- ===== src/Actions/Returns.antt =====
-- faults/actions.py: `deserialize` after `serialize`, for each class but the freeze actions.
use faultstorm.Prelude.{◌≡◌, refl, List, [], ◌∷◌, some, ℤ, arith}
use faultstorm.Text.{Text}
use faultstorm.Text.Split.{IsToken}
use faultstorm.Text.Decimal.{str, int-str, str-IsToken}
use faultstorm.Actions.Base.{FaultAction, to_csv, of_csv}
use faultstorm.Actions.Names.{
  IsName, AreNames, split_params-spaced, split_params-spaced_open, to_csv-IsToken, of_csv-to_csv,
}
use faultstorm.Actions.Wait
use faultstorm.Actions.Kill
use faultstorm.Actions.Kill.{KillProcessAction}
use faultstorm.Actions.Halves
use faultstorm.Actions.Ring
use faultstorm.Actions.Node
use faultstorm.Actions.Subnet
use faultstorm.Actions.Subnet.{PartitionRandomSubnetAction}
use faultstorm.Actions.Datacenter
use faultstorm.Actions.Builtin.{Action, serialize, deserialize}
use faultstorm.Actions.Resolved.{AreNamesOrNone, Returns}

pub wait-Returns :
    (base : FaultAction) (seconds : ℤ)
    → Returns (Action.wait (record { base = base; seconds = seconds }))
unfolding serialize deserialize Wait.serialize Wait.deserialize
wait-Returns base seconds = ground (
  arith,
  int-str base.ordinal,
  int-str seconds,
  split_params-spaced (str base.ordinal) (str seconds ∷ []) (str-IsToken base.ordinal)
      (str-IsToken seconds, tt),
)

pub kill-Returns :
    (base : FaultAction) (p n : Text) (ps : List Text)
    → IsName p
    → IsName n
    → Returns
        (Action.kill (record { base = base; process = some p; node = some n; processes = ps }))
unfolding serialize deserialize Kill.serialize Kill.deserialize
kill-Returns base p n ps hp hn = ground (
  arith,
  int-str base.ordinal,
  split_params-spaced (str base.ordinal) (p ∷ n ∷ []) (str-IsToken base.ordinal) (hp.0, (hn.0, tt)),
)

pub halves-Returns :
    (base : FaultAction) (g1 g2 : List Text)
    → AreNames g1
    → AreNames g2
    → Returns (Action.halves (record { base = base; group1 = some g1; group2 = some g2 }))
unfolding serialize deserialize Halves.serialize Halves.deserialize
halves-Returns base g1 g2 h1 h2 = ground (
  arith,
  int-str base.ordinal,
  of_csv-to_csv g1 h1,
  of_csv-to_csv g2 h2,
  split_params-spaced (str base.ordinal) (to_csv g1 ∷ to_csv g2 ∷ []) (str-IsToken base.ordinal)
      (to_csv-IsToken g1 h1, (to_csv-IsToken g2 h2, tt)),
)

pub ring-Returns :
    (base : FaultAction) (o : List Text)
    → AreNames o
    → Returns (Action.ring (record { base = base; ordered = some o }))
unfolding serialize deserialize Ring.serialize Ring.deserialize
ring-Returns base o h = ground (
  arith,
  int-str base.ordinal,
  of_csv-to_csv o h,
  split_params-spaced (str base.ordinal) (to_csv o ∷ []) (str-IsToken base.ordinal)
      (to_csv-IsToken o h, tt),
)

pub node-Returns :
    (base : FaultAction) (n : Text)
    → IsName n
    → Returns (Action.node (record { base = base; node = some n }))
unfolding serialize deserialize Node.serialize Node.deserialize
node-Returns base n h = ground (
  arith,
  int-str base.ordinal,
  split_params-spaced (str base.ordinal) (n ∷ []) (str-IsToken base.ordinal) (h.0, tt),
)

pub dc-Returns :
    (base : FaultAction) (d : Text)
    → IsName d
    → Returns (Action.dc (record { base = base; dc_name = some d }))
unfolding serialize deserialize Datacenter.serialize Datacenter.deserialize
dc-Returns base d h = ground (
  arith,
  int-str base.ordinal,
  split_params-spaced (str base.ordinal) (d ∷ []) (str-IsToken base.ordinal) (h.0, tt),
)

blocked_of_csv : (t : Text) → IsToken t → Subnet.blocked_of (some t) ≡ of_csv t
unfolding Subnet.blocked_of
blocked_of_csv [] h = elim h [ ]
blocked_of_csv (c ∷ t) h = refl

pub subnet-Returns :
    (base : FaultAction) (n d s : Text) (b : List Text)
    → IsName n
    → IsName d
    → IsName s
    → AreNamesOrNone b
    → Returns (
        Action.subnet (record {
          base = base;
          node = some n;
          direction = some d;
          subnet_type = some s;
          blocked_nodes = some b;
        }))
unfolding serialize deserialize Subnet.serialize Subnet.deserialize to_csv
subnet-Returns base n d s [] hn hd hs hb = ground (
  arith,
  int-str base.ordinal,
  split_params-spaced_open (str base.ordinal) (n ∷ d ∷ s ∷ []) (str-IsToken base.ordinal)
      (hn.0, (hd.0, (hs.0, tt))),
)
subnet-Returns base n d s (x ∷ xs) hn hd hs hb = ground (
  arith,
  int-str base.ordinal,
  of_csv-to_csv (x ∷ xs) hb,
  blocked_of_csv (to_csv (x ∷ xs)) (to_csv-IsToken (x ∷ xs) hb),
  split_params-spaced (str base.ordinal) (n ∷ d ∷ s ∷ to_csv (x ∷ xs) ∷ [])
      (str-IsToken base.ordinal) (hn.0, (hd.0, (hs.0, (to_csv-IsToken (x ∷ xs) hb, tt)))),
)
