-- ===== src/Actions/Wait.antt =====
-- faults/actions.py: WaitAction.
use faultstorm.Prelude.{
  Bool, true, false, [], ◌∷◌, some, ℤ, pos, ltb_ℤ, Result, ok, value_error, ◌>>=◌, if◌then◌else◌,
}
use faultstorm.Text.{Text}
use faultstorm.Text.Decimal.{int, str}
use faultstorm.Effects.{waited, slept, emit}
use faultstorm.Effects.Methods.{Method, self, lift, throw, ◌>>=◌ as bind}
use faultstorm.Actions.Base.{
  Nodes, FaultAction, Kwargs, no_kwargs, or_else, part, split_params, spaced,
}

pub record WaitAction : Type 0 where
  pub base : FaultAction
  pub seconds : ℤ

abbrev pub init : Nodes → ℤ → Kwargs → WaitAction
init nodes ordinal k = record {
  base = record { nodes = nodes; ordinal = ordinal };
  seconds = or_else k.seconds (pos 0);
}

-- `stop_event.wait` returns at once if the event is set; `time.sleep` refuses a negative time.
unfoldable pub execute : Bool → Method WaitAction (Unit {0})
unfolding emit
execute true = bind self λ a. lift (emit (waited a.seconds))
execute false =
    bind self
      λ a. if ltb_ℤ a.seconds (pos 0) then throw value_error else lift (emit (slept a.seconds))

unfoldable pub serialize : WaitAction → Text
serialize a = spaced (str a.base.ordinal ∷ str a.seconds ∷ [])

unfoldable pub deserialize : Text → Nodes → Result WaitAction
unfolding part
deserialize params nodes = do
  let parts = split_params params
  ordinal ← int (← part parts 0)
  seconds ← int (← part parts 1)
  ok (init nodes ordinal (record no_kwargs { seconds = some seconds }))
