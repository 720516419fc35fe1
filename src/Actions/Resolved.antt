-- ===== src/Actions/Resolved.antt =====
-- faults/actions.py: actions whose random choices are made, and what the log keeps of them.
use faultstorm.Prelude.{◌≡◌, List, [], ◌∷◌, Option, none, some, ℤ, pos, negsuc, ok, All}
use faultstorm.Text.{Text}
use faultstorm.Actions.Base.{Nodes, Range}
use faultstorm.Actions.Names.{IsName, AreNames}
use faultstorm.Actions.Kill
use faultstorm.Actions.Kill.{KillProcessAction}
use faultstorm.Actions.Freeze.{BaseFreezeAction}
use faultstorm.Actions.Builtin.{Action, class_of, serialize, deserialize}

abbrev pub IsSetTo : {A : Type 0} → (A → Type 0) → Option A → Type 0
IsSetTo P none = ⊥
IsSetTo P (some a) = P a

abbrev pub IsNatural : ℤ → Type 0
IsNatural (pos n) = Unit
IsNatural (negsuc n) = ⊥

abbrev pub IsNaturalRange : Range → Type 0
IsNaturalRange r = IsNatural r.0 × IsNatural r.1

abbrev pub AreNamesOrNone : List Text → Type 0
AreNamesOrNone [] = Unit
AreNamesOrNone (x ∷ xs) = IsName x × All IsName xs

-- What both freeze actions need.
abbrev pub IsPlain : BaseFreezeAction → Type 0
IsPlain f =
    AreNames f.processes
    × IsNaturalRange f.freeze_duration_range
    × IsNaturalRange f.freeze_pause_range

-- Every choice is made, and the names and ranges are such that a log line can hold them.
abbrev pub IsResolved : Action → Type 0
IsResolved (Action.wait a) = Unit
IsResolved (Action.kill a) = IsSetTo IsName a.process × IsSetTo IsName a.node
IsResolved (Action.halves a) = IsSetTo AreNames a.group1 × IsSetTo AreNames a.group2
IsResolved (Action.ring a) = IsSetTo AreNames a.ordered
IsResolved (Action.node a) = IsSetTo IsName a.node
IsResolved (Action.subnet a) =
    IsSetTo IsName a.node
    × IsSetTo IsName a.direction
    × IsSetTo IsName a.subnet_type
    × IsSetTo AreNamesOrNone a.blocked_nodes
IsResolved (Action.dc a) = IsSetTo IsName a.dc_name
IsResolved (Action.freeze a) = IsSetTo IsName a.node × IsPlain a.freezer
IsResolved (Action.freeze_group a) = IsSetTo IsName a.group × IsPlain a.freezer

-- The pool of process names of a kill is not in its log line.
abbrev pub as_logged : Action → Action
as_logged (Action.kill a) = Action.kill (record a { processes = Kill.default_processes })
as_logged a = a

abbrev pub nodes_of : Action → Nodes
nodes_of (Action.wait a) = a.base.nodes
nodes_of (Action.kill a) = a.base.nodes
nodes_of (Action.halves a) = a.base.nodes
nodes_of (Action.ring a) = a.base.nodes
nodes_of (Action.node a) = a.base.nodes
nodes_of (Action.subnet a) = a.base.nodes
nodes_of (Action.dc a) = a.base.nodes
nodes_of (Action.freeze a) = a.freezer.base.nodes
nodes_of (Action.freeze_group a) = a.freezer.base.nodes

abbrev pub Returns : Action → Type 0
Returns a = deserialize (class_of a) (serialize a) (nodes_of a) ≡ ok (as_logged a)
