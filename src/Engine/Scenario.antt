-- ===== src/Engine/Scenario.antt =====
-- faults/engine.py: `_parse_log`, which reads a scenario log.
pub mod Lines
pub mod RoundTrip
use faultstorm.Prelude.{
  ℕ, Bool, true, false, ◌&&◌, ◌||◌, List, [], ◌∷◌, ◌++◌, Option, none, some, Result, ok, err,
  value_error, index_error, ◌>>=◌, leb, if◌then◌else◌, ◌==◌, nat_eq,
}
use faultstorm.Text.{Text, strip, lstrip, is_space, first_word}
use faultstorm.Actions.Base.{Nodes}
use faultstorm.Actions.Registry.{Registry, get}
use faultstorm.Engine.Faults.{Faults}

-- A character of `[\d\-T:.]`.
unfoldable pub is_stamp : ℕ → Bool
is_stamp c = (leb b'0' c && leb c b'9') || (c == b'-') || (c == b'T') || (c == b':') || (c == b'.')

-- `[\d\-T:.]+\]\s*`: what stands behind the match; `more` says that a character of the class was
-- read.
unfoldable pub behind_stamp : Bool → Text → Option Text
unfolding is_stamp lstrip
behind_stamp more [] = none
behind_stamp more (c ∷ s) =
    let rest = behind_stamp true s in
    if is_stamp c then rest else (if more && c == b']' then some (lstrip s) else none)

-- `_TIMESTAMP_RE.sub("", line)`
unfoldable pub strip_timestamp : Text → Text
unfolding behind_stamp
strip_timestamp [] = []
strip_timestamp (c ∷ s) =
    if c == b'[' then elim (behind_stamp false s) [ none ↦ c ∷ s | some t ↦ t ] else (c ∷ s)

-- `not line or line.startswith("#")`
abbrev pub is_comment : Text → Bool
is_comment [] = true
is_comment (c ∷ s) = c == b'#'

-- `is_heal`, and the line without its prefix
unfoldable pub split_prefix : Text → Bool × Text
split_prefix [] = (false, [])
split_prefix (c ∷ s) =
    if c == b'+' then (false, s) else if c == b'-' then (true, s) else (false, c ∷ s)

-- `parts[0]` and `params`, for `parts = line.split(maxsplit=1)`
unfoldable pub split_name : Text → Result (Text × Text)
unfolding first_word lstrip is_space
split_name line = elim (lstrip line) [
  | [] ↦ err index_error
  | c ∷ s ↦ let (name, rest) = first_word (c ∷ s) in ok (name, lstrip rest)
]

module _ (faults : Faults) where
  open faults use {Class, Action, deserialize, heal}

  module _ (registry : Registry Class) (nodes : Nodes) where
    -- `registry.get(action_name)`, with its test, and `deserialize`
    unfoldable pub action_of : Text → Text → Result Action
    unfolding get
    action_of name params = elim (get name registry) [
      | none ↦ err value_error
      | some c ↦ deserialize c params nodes
    ]

    unfoldable pub parse_command : Text → Result (Action × Bool)
    unfolding split_prefix split_name action_of
    parse_command line = do
      parts ← split_name (split_prefix line).1
      a ← action_of parts.0 parts.1
      ok (a, (split_prefix line).0)

    -- What a line adds to `results`.
    unfoldable pub parse_line : Text → Result (List (Action × Bool))
    unfolding strip strip_timestamp parse_command
    parse_line raw_line =
        let line = strip raw_line in
        let bare = strip_timestamp line in
        if is_comment line
        then ok []
        else if is_comment bare
        then ok []
        else (do c ← parse_command bare; ok (c ∷ []))

    -- `_parse_log`, on the lines of the file
    unfoldable pub parse_log : List Text → Result (List (Action × Bool))
    unfolding parse_line
    parse_log [] = ok []
    parse_log (l ∷ ls) = do cs ← parse_line l; rest ← parse_log ls; ok (cs ++ rest)
