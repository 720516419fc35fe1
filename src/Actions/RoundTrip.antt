-- ===== src/Actions/RoundTrip.antt =====
-- faults/actions.py: `deserialize` after `serialize`, for all built-in classes.
use faultstorm.Prelude.{
  ◌≡◌, refl, List, [], ◌∷◌, Option, none, some, ℤ, ok, err, index_error, arith,
}
use faultstorm.Text.{Text, codes, is_space, join}
use faultstorm.Text.Decimal.{str, int-str, str-IsToken}
use faultstorm.Actions.Base.{Nodes, to_csv, no_kwargs}
use faultstorm.Actions.Names.{
  IsName, AreNames, split_params-spaced, split_params-spaced_open, split_params-spaced_blank,
}
use faultstorm.Actions.Kill
use faultstorm.Actions.Kill.{KillProcessAction}
use faultstorm.Actions.Halves
use faultstorm.Actions.Ring
use faultstorm.Actions.Datacenter
use faultstorm.Actions.Builtin.{Class, Action, class_of, serialize, deserialize, init}
use faultstorm.Actions.Resolved.{IsSetTo, AreNamesOrNone, IsResolved, as_logged, nodes_of, Returns}
use faultstorm.Actions.Returns.{
  wait-Returns, kill-Returns, halves-Returns, ring-Returns, node-Returns, subnet-Returns,
  dc-Returns,
}
use faultstorm.Actions.FreezeReturns.{freeze-Returns, freeze_group-Returns}

-- What an action writes to the log is read back as that action, except that a kill forgets its pool
-- of process names: for an action of any built-in class whose choices are made, whose names are not
-- empty and hold no white space and no comma, and whose ranges are not negative.
pub deserialize-serialize :
    (a : Action)
    → IsResolved a
    → deserialize (class_of a) (serialize a) (nodes_of a) ≡ ok (as_logged a)
deserialize-serialize (Action.wait a) h = wait-Returns a.base a.seconds
deserialize-serialize (Action.kill a) h = kill_case a.process a.node h
  where
    kill_case :
        (p n : Option Text)
        → IsSetTo IsName p × IsSetTo IsName n
        → Returns (Action.kill (record a { process = p; node = n }))
    kill_case (some p) (some n) h = kill-Returns a.base p n a.processes h.0 h.1
    kill_case (some p) none h = elim h.1 [ ]
    kill_case none n h = elim h.0 [ ]
deserialize-serialize (Action.halves a) h = halves_case a.group1 a.group2 h
  where
    halves_case :
        (g1 g2 : Option (List Text))
        → IsSetTo AreNames g1 × IsSetTo AreNames g2
        → Returns (Action.halves (record a { group1 = g1; group2 = g2 }))
    halves_case (some g1) (some g2) h = halves-Returns a.base g1 g2 h.0 h.1
    halves_case (some g1) none h = elim h.1 [ ]
    halves_case none g2 h = elim h.0 [ ]
deserialize-serialize (Action.ring a) h = ring_case a.ordered h
  where
    ring_case :
        (o : Option (List Text))
        → IsSetTo AreNames o
        → Returns (Action.ring (record a { ordered = o }))
    ring_case (some o) h = ring-Returns a.base o h
    ring_case none h = elim h [ ]
deserialize-serialize (Action.node a) h = node_case a.node h
  where
    node_case : (n : Option Text) → IsSetTo IsName n → Returns (Action.node (record a { node = n }))
    node_case (some n) h = node-Returns a.base n h
    node_case none h = elim h [ ]
deserialize-serialize (Action.subnet a) h =
    subnet_case a.node a.direction a.subnet_type a.blocked_nodes h
  where
    subnet_case :
        (n d s : Option Text) (b : Option (List Text))
        → IsSetTo IsName n × IsSetTo IsName d × IsSetTo IsName s × IsSetTo AreNamesOrNone b
        → Returns (
            Action.subnet
              (record a { node = n; direction = d; subnet_type = s; blocked_nodes = b }))
    subnet_case (some n) (some d) (some s) (some b) h =
        subnet-Returns a.base n d s b h.0 h.1 h.2 h.3
    subnet_case (some n) (some d) (some s) none h = elim h.3 [ ]
    subnet_case (some n) (some d) none b h = elim h.2 [ ]
    subnet_case (some n) none s b h = elim h.1 [ ]
    subnet_case none d s b h = elim h.0 [ ]
deserialize-serialize (Action.dc a) h = dc_case a.dc_name h
  where
    dc_case : (d : Option Text) → IsSetTo IsName d → Returns (Action.dc (record a { dc_name = d }))
    dc_case (some d) h = dc-Returns a.base d h
    dc_case none h = elim h [ ]
deserialize-serialize (Action.freeze a) h = freeze_case a.node h.0
  where
    freeze_case :
        (n : Option Text) → IsSetTo IsName n → Returns (Action.freeze (record a { node = n }))
    freeze_case (some n) name = freeze-Returns a.freezer n name h.1
    freeze_case none name = elim name [ ]
deserialize-serialize (Action.freeze_group a) h = group_case a.group h.0
  where
    group_case :
        (g : Option Text)
        → IsSetTo IsName g
        → Returns (Action.freeze_group (record a { group = g }))
    group_case (some g) name = freeze_group-Returns a.freezer g name h.1
    group_case none name = elim name [ ]

abbrev pub none_text : Text
none_text = codes "None"

none_text-IsName : IsName none_text
unfolding is_space
none_text-IsName = ((refl, (refl, (refl, (refl, tt)))), (refl, (refl, (refl, (refl, tt)))))

module _ (nodes : Nodes) (ordinal : ℤ) where
  abbrev pub unset : Class → Action
  unset c = init c nodes ordinal no_kwargs

  -- A partition into halves or a ring that is logged before its choices are made leaves a line
  -- whose parameters `deserialize` refuses with an IndexError.
  pub deserialize-serialize_unset :
      (deserialize Class.halves (serialize (unset Class.halves)) nodes ≡ err index_error)
      × (deserialize Class.ring (serialize (unset Class.ring)) nodes ≡ err index_error)
  unfolding serialize deserialize Halves.serialize Halves.deserialize Ring.serialize
      Ring.deserialize to_csv join
  deserialize-serialize_unset = (
    ground (arith, int-str ordinal, split_params-spaced_blank (str ordinal) (str-IsToken ordinal)),
    ground (
      arith,
      int-str ordinal,
      split_params-spaced_open (str ordinal) [] (str-IsToken ordinal) tt,
    ),
  )

  -- A kill or a partition of a datacenter that is logged before its choices are made is read back
  -- as an action on a process, node or datacenter with the name "None".
  pub deserialize-serialize_none :
      (deserialize Class.kill (serialize (unset Class.kill)) nodes
        ≡ ok (
            init Class.kill nodes ordinal
              (record no_kwargs { process = some none_text; node = some none_text })))
      × (deserialize Class.dc (serialize (unset Class.dc)) nodes
          ≡ ok (init Class.dc nodes ordinal (record no_kwargs { dc_name = some none_text })))
  unfolding serialize deserialize Kill.serialize Kill.deserialize Datacenter.serialize
      Datacenter.deserialize
  deserialize-serialize_none = (
    ground (
      arith,
      int-str ordinal,
      split_params-spaced (str ordinal) (none_text ∷ none_text ∷ []) (str-IsToken ordinal)
          (none_text-IsName.0, (none_text-IsName.0, tt)),
    ),
    ground (
      arith,
      int-str ordinal,
      split_params-spaced (str ordinal) (none_text ∷ []) (str-IsToken ordinal)
          (none_text-IsName.0, tt),
    ),
  )
