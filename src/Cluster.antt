-- ===== src/Cluster.antt =====
-- cluster.py: commands inside Docker containers, and what is asked of Docker about them.
pub mod Labels
mod Tests
use faultstorm.Prelude.{
  ℕ, zero, suc, ◌≡◌, refl, Bool, true, false, List, [], ◌∷◌, ◌++◌, none, some, ok, err,
  called_process_error, runtime_error, if◌then◌else◌, is_empty, lookup, insert, list_eq, nat_eq,
}
use faultstorm.Prelude.Dict.{Dict}
use faultstorm.Text.{Text, codes, strip, remove_prefix}
use faultstorm.Effects.{Env, Io, pure, raise, ◌>>=◌, run}

abbrev starts_node : Text → Bool
starts_node t = elim (remove_prefix (codes "{node}") t) [ some _ ↦ true | none ↦ false ]

-- `template.format(node=node)`, for templates whose only braces are those of `{node}`; the first
-- argument counts the characters of a placeholder that are still to be skipped.
unfoldable pub format_node : ℕ → Text → Text → Text
unfolding remove_prefix
format_node skip node [] = []
format_node (suc k) node (c ∷ t) = format_node k node t
format_node zero node (c ∷ t) =
    let plain = c ∷ format_node zero node t in
    let replaced = node ++ format_node 5 node t in if starts_node (c ∷ t) then replaced else plain

format_compose : format_node 0 (codes "pg1") (codes "proj_{node}_1") ≡ codes "proj_pg1_1"
unfolding format_node
format_compose = refl

module _ (env : Env) where
  -- `_container_name`
  unfoldable pub container_name : Text → Text
  unfolding format_node
  container_name node = format_node 0 node env.container_template

  abbrev pub exec_argv : Text → List Text → List Text
  exec_argv node command = codes "docker" ∷ codes "exec" ∷ container_name node ∷ command

  unfoldable pub exec_on_node : Text → List Text → ℕ → Io Text
  unfolding run
  exec_on_node node command timeout = run env (exec_argv node command) timeout

  -- `except subprocess.CalledProcessError as e: raise RuntimeError(…) from e`
  unfoldable pub as_runtime_error : {A : Type 0} → Io A → Io A
  as_runtime_error m w =
      let (r, w') = m w in
      elim r [ err called_process_error ↦ (err runtime_error, w') | other ↦ (other, w') ]

  abbrev pub inspect_argv : Text → Text → List Text
  inspect_argv fmt node =
      codes "docker" ∷ codes "inspect" ∷ codes "-f" ∷ fmt ∷ container_name node ∷ []

  unfoldable pub get_container_label : Text → Text → Io Text
  unfolding as_runtime_error run strip
  get_container_label node label =
      let fmt = codes "{{index .Config.Labels \"" ++ label ++ codes "\"}}" in
      as_runtime_error (do out ← run env (inspect_argv fmt node) 10; pure (strip out))

  abbrev pub append_to : Text → Text → Dict Text (List Text) → Dict Text (List Text)
  append_to dc node m = insert dc (elim (lookup dc m) [ none ↦ [] | some ns ↦ ns ] ++ node ∷ []) m

  -- One round of the loop of `build_dc_map`. Only a RuntimeError is caught.
  unfoldable pub place_node : Text → Text → Dict Text (List Text) → Io (Dict Text (List Text))
  unfolding get_container_label lookup insert
  place_node label node m w =
      let (r, w') = get_container_label node label w in
      elim r [
        | ok dc ↦ (ok (if is_empty dc then m else append_to dc node m), w')
        | err runtime_error ↦ (ok m, w')
        | err e ↦ (err e, w')
      ]

  unfoldable pub build_dc_map_from :
      Text → List Text → Dict Text (List Text) → Io (Dict Text (List Text))
  unfolding place_node
  build_dc_map_from label [] m = pure m
  build_dc_map_from label (node ∷ nodes) m = do
    m' ← place_node label node m
    build_dc_map_from label nodes m'

  unfoldable pub build_dc_map : List Text → Text → Io (Dict Text (List Text))
  unfolding build_dc_map_from
  build_dc_map nodes label = build_dc_map_from label nodes []

  -- The Go template that selects the address.
  abbrev pub ip_format : Text
  ip_format =
      if is_empty env.network_name
      then codes "{{range .NetworkSettings.Networks}}{{.IPAddress}}{{end}}"
      else (codes "{{.NetworkSettings.Networks." ++ env.network_name ++ codes ".IPAddress}}")

  -- The check for an empty address stands inside the `try`, and its RuntimeError passes.
  unfoldable pub get_node_ip : Text → Io Text
  unfolding as_runtime_error run strip
  get_node_ip node = as_runtime_error do
    out ← run env (inspect_argv ip_format node) 10
    let ip = strip out
    if is_empty ip then raise runtime_error else pure ip
