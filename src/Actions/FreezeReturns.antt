-- ===== src/Actions/FreezeReturns.antt =====
-- faults/actions.py: `deserialize` after `serialize`, for the two freeze actions.
use faultstorm.Prelude.{◌≡◌, refl, List, [], ◌∷◌, some, pos, negsuc, ok, arith}
use faultstorm.Text.{Text}
use faultstorm.Text.Split.{IsToken}
use faultstorm.Text.Decimal.{str, int-str, str-IsToken}
use faultstorm.Actions.Base.{
  Range, split_params, to_csv, of_csv, or_default, no_kwargs, serialize_range,
}
use faultstorm.Actions.Names.{
  IsName, AreNames, split_params-spaced, to_csv-IsToken, of_csv-to_csv, serialize_range-IsToken,
  deserialize-serialize_range,
}
use faultstorm.Actions.Freeze
use faultstorm.Actions.Freeze.{BaseFreezeAction}
use faultstorm.Actions.Freeze.Single
use faultstorm.Actions.Freeze.Group
use faultstorm.Actions.Builtin.{Action, serialize, deserialize}
use faultstorm.Actions.Resolved.{IsNaturalRange, IsPlain, Returns}

processes_of_csv : (t : Text) → IsToken t → Freeze.processes_of (some t) ≡ of_csv t
unfolding Freeze.processes_of
processes_of_csv [] h = elim h [ ]
processes_of_csv (c ∷ t) h = refl

range_of_natural :
    (r : Range) → IsNaturalRange r → Freeze.range_of_part (some (serialize_range r)) ≡ ok (some r)
unfolding Freeze.range_of_part
range_of_natural (pos lo, pos hi) h = ground (arith, deserialize-serialize_range lo hi)
range_of_natural (pos lo, negsuc hi) h = elim h.1 [ ]
range_of_natural (negsuc lo, hi) h = elim h.0 [ ]

or_default-AreNames : (ps d : List Text) → AreNames ps → or_default (some ps) d ≡ ps
or_default-AreNames [] d h = elim h [ ]
or_default-AreNames (x ∷ xs) d h = refl

module _ (f : BaseFreezeAction) (target : Text) (h : IsName target) (plain : IsPlain f) where
  abbrev freeze_parts : List Text
  freeze_parts =
      str f.base.ordinal
      ∷ target
      ∷ to_csv f.processes
      ∷ serialize_range f.freeze_duration_range
      ∷ serialize_range f.freeze_pause_range
      ∷ []

  split_freeze_params : split_params (Freeze.freeze_params f.base.ordinal target f) ≡ freeze_parts
  unfolding Freeze.freeze_params
  split_freeze_params =
      split_params-spaced (str f.base.ordinal)
        (target
          ∷ to_csv f.processes
          ∷ serialize_range f.freeze_duration_range
          ∷ serialize_range f.freeze_pause_range
          ∷ [])
        (str-IsToken f.base.ordinal)
        (
          h.0,
          (
            to_csv-IsToken f.processes plain.0,
            (
              serialize_range-IsToken f.freeze_duration_range,
              (serialize_range-IsToken f.freeze_pause_range, tt),
            ),
          ),
        )

  kwargs_of_freeze :
      Freeze.kwargs_of freeze_parts
      ≡ ok (record no_kwargs {
        processes = some f.processes;
        freeze_duration_range = some f.freeze_duration_range;
        freeze_pause_range = some f.freeze_pause_range;
      })
  unfolding Freeze.kwargs_of
  kwargs_of_freeze = ground (
    arith,
    range_of_natural f.freeze_duration_range plain.1,
    range_of_natural f.freeze_pause_range plain.2,
    processes_of_csv (to_csv f.processes) (to_csv-IsToken f.processes plain.0),
    of_csv-to_csv f.processes plain.0,
  )

  pub freeze-Returns : Returns (Action.freeze (record { freezer = f; node = some target }))
  unfolding serialize deserialize Single.serialize Single.deserialize
  freeze-Returns = ground (
    arith,
    int-str f.base.ordinal,
    split_freeze_params,
    kwargs_of_freeze,
    or_default-AreNames f.processes Freeze.default_processes plain.0,
  )

  pub freeze_group-Returns :
      Returns (Action.freeze_group (record { freezer = f; group = some target }))
  unfolding serialize deserialize Group.serialize Group.deserialize
  freeze_group-Returns = ground (
    arith,
    int-str f.base.ordinal,
    split_freeze_params,
    kwargs_of_freeze,
    or_default-AreNames f.processes Freeze.default_processes plain.0,
  )
