-- ===== src/Actions/Registry.antt =====
-- faults/actions.py: FaultRegistry, over any type of classes with a name.
use faultstorm.Prelude.{
  ◌≡◌, refl, false, List, [], ◌∷◌, Option, none, some, Result, ok, err, value_error, ◌>>=◌, lookup,
  insert, values, keys, list_eq, nat_eq, if◌then◌else◌, is_empty, map, ◌↔◌, arith, ◌==◌,
  lookup-insert,
}
use faultstorm.Prelude.Dict.{Dict}
use faultstorm.Text.{Text, ltb_text}
use faultstorm.Actions.Builtin.{Class, name}

abbrev pub Registry : Type 0 → Type 0
Registry C = Dict Text C

-- `sorted(names)`: a name stands behind those that are not greater than it
unfoldable pub insert_name : Text → List Text → List Text
unfolding ltb_text
insert_name n [] = n ∷ []
insert_name n (m ∷ ms) =
    let rest = insert_name n ms in if ltb_text m n then (m ∷ rest) else (n ∷ m ∷ ms)

unfoldable pub sorted_names : List Text → List Text
unfolding insert_name
sorted_names [] = []
sorted_names (n ∷ ns) = insert_name n (sorted_names ns)

module _ {C : Type 0} where
  unfoldable pub register_new : Text → Option C → C → Registry C → Result (Registry C)
  unfolding insert
  register_new n (some old) c r = err value_error
  register_new n none c r = ok (insert n c r)

  -- `registry.register(action_cls)`; a class attribute `name` is read by `name`
  unfoldable pub register : (C → Text) → C → Registry C → Result (Registry C)
  unfolding register_new lookup
  register name c r =
      if is_empty (name c) then err value_error else register_new (name c) (lookup (name c) r) c r

  -- `registry.get(name)`
  unfoldable pub get : Text → Registry C → Option C
  unfolding lookup
  get n r = lookup n r

  unfoldable pub get_classes_from : List Text → Registry C → Result (List C)
  unfolding get
  get_classes_from [] r = ok []
  get_classes_from (n ∷ ns) r = elim (get n r) [
    | none ↦ err value_error
    | some c ↦ (do cs ← get_classes_from ns r; ok (c ∷ cs))
  ]

  -- `registry.get_classes(names)`
  unfoldable pub get_classes : Option (List Text) → Registry C → Result (List C)
  unfolding get_classes_from
  get_classes none r = ok (values r)
  get_classes (some ns) r = get_classes_from ns r

  -- `registry.list_names()`
  unfoldable pub list_names : Registry C → List Text
  unfolding sorted_names
  list_names r = sorted_names (keys r)

-- Registrations one after the other, on the registry that the last one returned.
unfoldable pub register_all : {C : Type 0} → (C → Text) → List C → Registry C → Result (Registry C)
unfolding register
register_all name [] r = ok r
register_all name (c ∷ cs) r = do r' ← register name c r; register_all name cs r'

unfoldable pub create_default_registry : Result (Registry Class)
unfolding register_all name
create_default_registry =
    register_all name
      (Class.wait ∷ Class.kill ∷ Class.halves ∷ Class.ring ∷ Class.node ∷ Class.subnet ∷ Class.dc
        ∷ Class.freeze ∷ Class.freeze_group ∷ [])
      []

-- If `register` returns, it adds the class under its name, which was free and is not empty, and
-- keeps the others.
pub get-register :
    {C : Type 0} (name : C → Text) (c : C) (r r' : Registry C) (n : Text)
    → register name c r ≡ ok r'
    → (get n r' ≡ (if name c == n then some c else get n r))
      × (get (name c) r ≡ none)
      × (is_empty (name c) ≡ false)
unfolding register get register_new
get-register name c r r' n h = ground (arith, lookup-insert (name c) n c r)

abbrev pub builtin_classes : List Class
builtin_classes =
    Class.wait ∷ Class.kill ∷ Class.halves ∷ Class.ring ∷ Class.node ∷ Class.subnet ∷ Class.dc
    ∷ Class.freeze ∷ Class.freeze_group ∷ []

abbrev pub default_registry : Registry Class
default_registry = map (λ c. (name c, c)) builtin_classes

pub create_default_registry_lem : create_default_registry ≡ ok default_registry
unfolding create_default_registry name
create_default_registry_lem = refl

get_builtin : (c : Class) → get (name c) default_registry ≡ some c
unfolding get name
get_builtin Class.wait = refl
get_builtin Class.kill = refl
get_builtin _ = refl

name_of_found :
    (n : Text) (c : Class) (cs : List Class)
    → get n (map (λ c. (name c, c)) cs) ≡ some c
    → name c ≡ n
unfolding get lookup
name_of_found n c [] h = cc
name_of_found n c (d ∷ cs) h =
    ground (arith, (list_eq ⦃e = nat_eq⦄).beq_iff (name d) n, name_of_found n c cs)

-- In the registry that `create_default_registry` returns, a name finds a class exactly if it is the
-- name of that class.
pub create_default_registry-get :
    (r : Registry Class)
    → create_default_registry ≡ ok r
    → (n : Text) (c : Class) → (get n r ≡ some c) ↔ (name c ≡ n)
create_default_registry-get r h n c =
    let same : default_registry ≡ r = ground (arith, create_default_registry_lem) in
    rw (← same) (name_of_found n c builtin_classes, λ e. rw (← e) (get_builtin c))
