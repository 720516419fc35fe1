-- ===== src/Cluster/Labels.antt =====
-- cluster.py: the datacenters that `build_dc_map` finds.
use mathlib.Core.List.{append_assoc, append-nil}
use faultstorm.Prelude.{
  ◌≡◌, refl, sym, ◌∙◌, ap, false, List, [], ◌∷◌, ◌++◌, none, some, ok, arith, filter_by, is_empty,
  if◌then◌else◌, lookup, lookup-insert, list_eq, nat_eq, ◌==◌,
}
use faultstorm.Prelude.Dict.{Dict}
use faultstorm.Text.{Text, codes, strip}
use faultstorm.Effects.{Env, World, Event, completed, run, emit}
use faultstorm.Cluster.{
  inspect_argv, as_runtime_error, get_container_label, append_to, place_node, build_dc_map_from,
  build_dc_map,
}

-- `d.get(k, [])`
abbrev pub get_list : Text → Dict Text (List Text) → List Text
get_list k d = elim (lookup k d) [ none ↦ [] | some ns ↦ ns ]

-- The Go template that selects a label.
abbrev pub label_format : Text → Text
label_format label = codes "{{index .Config.Labels \"" ++ label ++ codes "\"}}"

-- Docker answers each `docker inspect` for the label; the value of a node may be empty.
pub record Labels (env : Env) (label : Text) : Type 0 where
  pub value : Text → Text
  pub inspected :
      (node : Text) (t : List Event)
      → env.answer t (inspect_argv env (label_format label) node) ≡ completed (value node)

module _ (env : Env) (label : Text) (labels : Labels env label) where
  open labels use {value, inspected}

  -- The nodes whose label is `dc`, in the order of the list.
  abbrev pub nodes_in : Text → List Text → List Text
  nodes_in dc nodes = filter_by (λ n. strip (value n) == dc) nodes

  placed : Text → Dict Text (List Text) → Dict Text (List Text)
  placed n m = if is_empty (strip (value n)) then m else append_to env (strip (value n)) n m

  place_node_lem :
      (n : Text) (m : Dict Text (List Text)) (w : World)
      → (w' : World) × (place_node env label n m w ≡ (ok (placed n m), w'))
  unfolding place_node placed get_container_label run emit as_runtime_error
  place_node_lem n m w = ((place_node env label n m w).1, ground (arith, inspected n w.trace))

  nodes_in-cons :
      (dc n : Text) (ns : List Text) → nodes_in dc (n ∷ []) ++ nodes_in dc ns ≡ nodes_in dc (n ∷ ns)
  nodes_in-cons dc n ns = ground arith

  get_list-placed :
      (dc n : Text) (m : Dict Text (List Text))
      → is_empty dc ≡ false
      → get_list dc (placed n m) ≡ get_list dc m ++ nodes_in dc (n ∷ [])
  unfolding placed
  get_list-placed dc n m h =
      let s = strip (value n) in
      ground (
        arith,
        lookup-insert s dc (get_list s m ++ n ∷ []) m,
        (list_eq ⦃e = nat_eq⦄).beq_iff s dc,
        append-nil (get_list dc m),
      )

  build_dc_map_from_lem :
      (dc : Text) (ns : List Text) (m : Dict Text (List Text)) (w : World)
      → is_empty dc ≡ false
      → (m' : Dict Text (List Text)) × (w' : World) × (build_dc_map_from env label ns m w
          ≡ (ok m', w'))
        × (get_list dc m' ≡ get_list dc m ++ nodes_in dc ns)
  unfolding build_dc_map_from
  build_dc_map_from_lem dc [] m w h = (m, w, refl, sym (append-nil (get_list dc m)))
  build_dc_map_from_lem dc (n ∷ ns) m w h =
      let (w1, e1) = place_node_lem n m w in
      let (m2, w2, e2, q) = build_dc_map_from_lem dc ns (placed n m) w1 h in
      (
        m2,
        w2,
        rw (e1, e2),
        q
            ∙ ap (λ l. l ++ nodes_in dc ns) (get_list-placed dc n m h)
            ∙ append_assoc (get_list dc m) (nodes_in dc (n ∷ [])) (nodes_in dc ns)
            ∙ ap (λ l. get_list dc m ++ l) (nodes_in-cons dc n ns),
      )

  -- If Docker answers for every node, `build_dc_map` returns, and has under each name that is not
  -- empty exactly the nodes with that label, in the order of the list.
  pub build_dc_map-groups :
      (dc : Text) (ns : List Text) (w : World)
      → is_empty dc ≡ false
      → (m : Dict Text (List Text)) × (w' : World) × (build_dc_map env ns label w ≡ (ok m, w'))
        × (get_list dc m ≡ nodes_in dc ns)
  unfolding build_dc_map lookup
  build_dc_map-groups dc ns w h = build_dc_map_from_lem dc ns [] w h
