-- ===== src/Engine/Scenario/RoundTrip.antt =====
-- faults/engine.py with faults/actions.py: `_parse_log` on what `_write_action` writes.
use mathlib.Core.List.{append_assoc}
use faultstorm.Prelude.{
  ◌≡◌, refl, sym, ◌∙◌, ap, Bool, true, false, ◌&&◌, ◌||◌, [], ◌∷◌, ◌++◌, ok, arith, ◌==◌, nat_eq,
  is_empty, if◌then◌else◌,
}
use faultstorm.Text.{Text, is_space, strip, rstrip, split}
use faultstorm.Text.Split.{IsToken, HasNoSpace, split-strip}
use faultstorm.Effects.{Env}
use faultstorm.Actions.Base.{Nodes, split_params}
use faultstorm.Actions.Wait
use faultstorm.Actions.Kill
use faultstorm.Actions.Halves
use faultstorm.Actions.Ring
use faultstorm.Actions.Node
use faultstorm.Actions.Subnet
use faultstorm.Actions.Datacenter
use faultstorm.Actions.Freeze.Single
use faultstorm.Actions.Freeze.Group
use faultstorm.Actions.Builtin.{Class, Action, class_of, name, healable, serialize, deserialize}
use faultstorm.Actions.Resolved.{IsResolved, as_logged, nodes_of}
use faultstorm.Actions.RoundTrip.{deserialize-serialize}
use faultstorm.Actions.Registry.{Registry, create_default_registry, create_default_registry-get}
use faultstorm.Engine.Builtin.{builtin}
use faultstorm.Engine.State.{newline, action_line, prefix}
use faultstorm.Engine.Scenario.{
  is_comment, split_prefix, strip_timestamp, action_of, parse_command, parse_line,
}
use faultstorm.Engine.Scenario.Lines.{
  IsStamp, tail_of, strip_line, strip_timestamp-line, split_name-line,
}

-- `deserialize` sees only the words of its parameters.
deserialize-words :
    (c : Class) (t u : Text) (nodes : Nodes)
    → split_params t ≡ split_params u
    → deserialize c t nodes ≡ deserialize c u nodes
unfolding deserialize Wait.deserialize Kill.deserialize Halves.deserialize Ring.deserialize
    Node.deserialize Subnet.deserialize Datacenter.deserialize Single.deserialize Group.deserialize
deserialize-words Class.wait t u nodes e = rw e refl
deserialize-words Class.kill t u nodes e = rw e refl
deserialize-words Class.halves t u nodes e = rw e refl
deserialize-words Class.ring t u nodes e = rw e refl
deserialize-words Class.node t u nodes e = rw e refl
deserialize-words Class.subnet t u nodes e = rw e refl
deserialize-words Class.dc t u nodes e = rw e refl
deserialize-words Class.freeze t u nodes e = rw e refl
deserialize-words Class.freeze_group t u nodes e = rw e refl

split_params_lem : (t u : Text) → split t ≡ split u → split_params t ≡ split_params u
unfolding split_params
split_params_lem t u h = split-strip t ∙ h ∙ sym (split-strip u)

abbrev has_space : Text → Bool
has_space [] = false
has_space (c ∷ w) = is_space c || has_space w

has_space-HasNoSpace : (w : Text) → has_space w ≡ false → HasNoSpace w
has_space-HasNoSpace [] h = tt
has_space-HasNoSpace (c ∷ w) h = (ground arith, has_space-HasNoSpace w (ground arith))

-- A name that no prefix and no comment sign can be mistaken for.
abbrev IsCallable : Text → Type 0
IsCallable [] = ⊥
IsCallable (c ∷ w) =
    ((c == b'+') ≡ false) × ((c == b'-') ≡ false) × ((c == b'#') ≡ false) × IsToken (c ∷ w)

IsCallable-IsToken : (w : Text) → IsCallable w → IsToken w
IsCallable-IsToken [] h = elim h [ ]
IsCallable-IsToken (c ∷ w) h = h.3

name-IsCallable : (c : Class) → IsCallable (name c)
unfolding name is_space
name-IsCallable Class.wait = (refl, refl, refl, has_space-HasNoSpace (name Class.wait) refl)
name-IsCallable Class.kill = (refl, refl, refl, has_space-HasNoSpace (name Class.kill) refl)
name-IsCallable Class.halves = (refl, refl, refl, has_space-HasNoSpace (name Class.halves) refl)
name-IsCallable Class.ring = (refl, refl, refl, has_space-HasNoSpace (name Class.ring) refl)
name-IsCallable Class.node = (refl, refl, refl, has_space-HasNoSpace (name Class.node) refl)
name-IsCallable Class.subnet = (refl, refl, refl, has_space-HasNoSpace (name Class.subnet) refl)
name-IsCallable Class.dc = (refl, refl, refl, has_space-HasNoSpace (name Class.dc) refl)
name-IsCallable Class.freeze = (refl, refl, refl, has_space-HasNoSpace (name Class.freeze) refl)
name-IsCallable Class.freeze_group =
    (refl, refl, refl, has_space-HasNoSpace (name Class.freeze_group) refl)

-- What `_parse_log` makes of a name with its prefix and of the text behind it.
record Called (l w rest : Text) (is_heal : Bool) : Type 0 where
  token : IsToken l
  command : is_comment (l ++ rest) ≡ false
  parts : split_prefix (l ++ rest) ≡ (is_heal, w ++ rest)

module _ (env : Env) where
  prefix-Called :
      (w rest : Text) (healable healing : Bool)
      → IsCallable w
      → Called (prefix builtin env healable healing ++ w) w rest (healable && healing)
  unfolding split_prefix is_space
  prefix-Called [] rest b healing h = elim h [ ]
  prefix-Called (c ∷ w) rest true true h = record {
    token = (refl, h.3);
    command = refl;
    parts = refl;
  }
  prefix-Called (c ∷ w) rest true false h = record {
    token = (refl, h.3);
    command = refl;
    parts = refl;
  }
  prefix-Called (c ∷ w) rest false healing h = record {
    token = h.3;
    command = h.2;
    parts = ground arith;
  }

  -- The line of an action is a time, a name with its prefix, and the parameters.
  action_line_lem :
      (now : Text) (a : Action) (healing : Bool)
      → action_line builtin env now a healing ++ newline ∷ []
        ≡ b'['
          ∷ (now
              ++ (b']'
                  ∷ b' '
                  ∷ ((prefix builtin env (healable (class_of a)) healing ++ name (class_of a))
                      ++ tail_of (serialize a))))
  unfolding action_line
  action_line_lem now a healing =
      let called = prefix builtin env (healable (class_of a)) healing ++ name (class_of a) in
      let params = serialize a in
      let gap = if is_empty params then [] else (b' ' ∷ params) in
      ap (λ l. b'[' ∷ l)
        (append_assoc now (b']' ∷ b' ' ∷ (called ++ gap)) (newline ∷ [])
          ∙ ap (λ l. now ++ (b']' ∷ b' ' ∷ l)) (append_assoc called gap (newline ∷ [])))

  module _ (registry : Registry Class) (nodes : Nodes)
      (created : create_default_registry ≡ ok registry) where
    parse_command-Called :
        (a : Action) (healing : Bool) (l : Text)
        → IsResolved a
        → nodes_of a ≡ nodes
        → Called l (name (class_of a)) (rstrip (tail_of (serialize a))) healing
        → parse_command builtin registry nodes (l ++ rstrip (tail_of (serialize a)))
          ≡ ok (as_logged a, healing)
    unfolding parse_command action_of
    parse_command-Called a healing l r e c =
        let (t, split, words) =
          split_name-line (name (class_of a)) (serialize a)
            (IsCallable-IsToken (name (class_of a)) (name-IsCallable (class_of a))) in
        let found =
          (create_default_registry-get registry created (name (class_of a)) (class_of a)).1 refl in
        let same =
          deserialize-words (class_of a) t (serialize a) nodes
            (split_params_lem t (serialize a) words) in
        ground (arith, c.parts, split, found, same, deserialize-serialize a r)

    parse_line-command :
        (raw line bare : Text) (c : Action × Bool)
        → strip raw ≡ line
        → is_comment line ≡ false
        → strip_timestamp line ≡ bare
        → is_comment bare ≡ false
        → parse_command builtin registry nodes bare ≡ ok c
        → parse_line builtin registry nodes raw ≡ ok (c ∷ [])
    unfolding parse_line
    parse_line-command raw line bare c es el et eb ep = ground (arith, es, el, et, eb, ep)

    -- With the registry that `create_default_registry` returns, the line that `_write_action` writes
    -- for a built-in action is read as that action, except that a kill forgets its pool of process
    -- names, and as a heal exactly if it was written as one and the action can be healed. The time
    -- is as the pattern of `_TIMESTAMP_RE` takes it; the action's choices are made, its names are
    -- not empty and hold no white space and no comma, its ranges are not negative, and it is for
    -- the nodes of the engine.
    pub parse_line-action_line :
        (now : Text) (a : Action) (healing : Bool)
        → IsStamp now
        → IsResolved a
        → nodes_of a ≡ nodes
        → parse_line builtin registry nodes (action_line builtin env now a healing ++ newline ∷ [])
          ≡ ok ((as_logged a, healable (class_of a) && healing) ∷ [])
    parse_line-action_line now a healing n r e =
        let called = prefix builtin env (healable (class_of a)) healing ++ name (class_of a) in
        let tail = tail_of (serialize a) in
        let read =
          prefix-Called (name (class_of a)) (rstrip tail) (healable (class_of a)) healing
            (name-IsCallable (class_of a)) in
        parse_line-command (action_line builtin env now a healing ++ newline ∷ [])
          (b'[' ∷ (now ++ (b']' ∷ b' ' ∷ (called ++ rstrip tail)))) (called ++ rstrip tail)
          (as_logged a, healable (class_of a) && healing)
          (rw (action_line_lem now a healing) (strip_line now called tail n read.token)) refl
          (strip_timestamp-line now called (rstrip tail) n read.token) read.command
          (parse_command-Called a (healable (class_of a) && healing) called r e read)
