-- ===== src/Actions/Chains.antt =====
-- faults/partitioners.py: the iptables chains that a command names, and those of an action.
pub mod Numbers
use faultstorm.Prelude.{
  ℕ, ℤ, ◌≡◌, ◌⊎◌, inl, inr, ap, ◌&&◌, List, [], ◌∷◌, ◌++◌, All, if◌then◌else◌, ◌==◌, list_eq,
  nat_eq,
}
use faultstorm.Text.{Text, codes}
use faultstorm.Effects.{Event, ran}
use faultstorm.Partitioners.{get_chain_name, get_directional_chain_name}
use faultstorm.Actions.Base.{FaultAction}

-- The chain of `iptables VERB CHAIN`, `iptables VERB FROM -j CHAIN` and
-- `iptables VERB CHAIN -s IP -j DROP`.
abbrev of_options : List Text → List Text
of_options (verb ∷ chain ∷ []) = chain ∷ []
of_options (verb ∷ from ∷ option ∷ chain ∷ []) = chain ∷ []
of_options (verb ∷ chain ∷ option ∷ ip ∷ jump ∷ target ∷ []) = chain ∷ []
of_options _ = []

abbrev pub named_by : List Text → List Text
named_by (docker ∷ exec ∷ c ∷ tool ∷ options) =
    if docker == codes "docker" && (exec == codes "exec" && tool == codes "iptables")
    then of_options options
    else []
named_by _ = []

abbrev pub named_in : Event → List Text
named_in (ran argv timeout) = named_by argv
named_in e = []

-- The chains that the commands of a trace name.
abbrev pub used : List Event → List Text
used [] = []
used (e ∷ es) = named_in e ++ used es

-- The names that belong to the ordinal of an action.
abbrev pub IsChainOf : FaultAction → Text → Type 0
IsChainOf b chain =
    (chain ≡ get_chain_name b.ordinal)
    ⊎ ((d : Text) × (chain ≡ get_directional_chain_name b.ordinal d))

-- The command names no chain but those of the action.
abbrev pub Names : FaultAction → List Text → Type 0
Names b argv = All (IsChainOf b) (named_by argv)

pub partition_chain : {a b : FaultAction} → a ≡ b → IsChainOf b (get_chain_name a.ordinal)
partition_chain e = inl (ap (λ x. get_chain_name x.ordinal) e)

pub directional_chain :
    {a b : FaultAction} → a ≡ b → (d : Text) → IsChainOf b (get_directional_chain_name a.ordinal d)
directional_chain e d = inr (d, ap (λ x. get_directional_chain_name x.ordinal d) e)
