-- ===== src/Effects.antt =====
-- What the program does to the world around it: processes that it starts, waits, lines that it
-- writes, and random choices. The state of the world is the trace of what was done so far.
pub mod Methods
pub mod Random
pub mod Keeps
pub mod Grows
use faultstorm.Prelude.{
  ℕ, zero, suc, ◌+◌, ◌-◌, ◌%◌, ◌≤◌, ◌≡◌, Bool, true, false, List, [], ◌∷◌, ◌++◌, Option, none, some,
  ℤ, Result, ok, err, Exception, index_error, value_error, called_process_error, timeout_expired,
  os_error, leb, if◌then◌else◌, length, get_elem?, ◌==◌, nat_eq,
}
use faultstorm.Text.{Text}

-- One step that the outside can see. `ran` is a child process, with its timeout in seconds;
-- `wrote` is a line of the scenario log, and `cleared` the clearing of the stop event.
pub data Event : Type 0 where
  ran : List Text → ℕ → Event
  waited slept : ℤ → Event
  wrote : Text → Event
  cleared : Event

-- What becomes of the scenario log when it is opened: it can be written, the file cannot be
-- opened, or it is open and its first lines cannot be written.
pub data LogFile : Type 0 where
  writable no_file no_space : LogFile

-- How `subprocess.run(…, check=True)` ends: with the child's output, a non-zero status, a
-- timeout, or because the program could not be started.
pub data Outcome : Type 0 where
  completed : Text → Outcome
  failed timed_out not_started : Outcome

-- The environment: the answers of child processes (which may depend on all that was done before),
-- the random numbers, when the stop event gets set (once the trace is `stop_at` long, it is), the
-- time as `_timestamp` formats it, how the scenario log is opened, and the class attributes of `ClusterManager`.
pub record Env : Type 0 where
  pub answer : List Event → List Text → Outcome
  pub draw : ℕ → ℕ
  pub stop_at : ℕ
  pub timestamp : List Event → Text
  pub log_file : List Event → LogFile
  pub container_template : Text
  pub network_name : Text

pub record World : Type 0 where
  pub trace : List Event
  pub draws : ℕ

-- Statements without an object of their own.
abbrev pub Io : Type 0 → Type 0
Io A = World → Result A × World

module _ {A : Type 0} where
  abbrev pub pure : A → Io A
  pure a w = (ok a, w)

  abbrev pub raise : Exception → Io A
  raise e w = (err e, w)

  -- `try: m` / `except Exception: log a warning`
  unfoldable pub ignore : Io A → Io (Unit {0})
  ignore m w = (ok tt, (m w).1)

module _ {A B : Type 0} where
  abbrev pub and_then : Result A → (A → Io B) → Io B
  and_then (ok a) f w = f a w
  and_then (err e) f w = (err e, w)

  infixl 5 ◌>>=◌ ◌>>◌
  abbrev pub ◌>>=◌ : Io A → (A → Io B) → Io B
  ◌>>=◌ m f w = let (r, w') = m w in and_then r f w'

  abbrev pub ◌>>◌ : Io A → Io B → Io B
  m >> k = m >>= λ _. k

unfoldable pub emit : Event → Io (Unit {0})
emit e w = (ok tt, record w { trace = w.trace ++ e ∷ [] })

-- `stop_event.clear()`
abbrev pub clear_stop : World → World
clear_stop w = record w { trace = w.trace ++ cleared ∷ [] }

-- `for x in xs: body(x)`
unfoldable pub for_each : {A : Type 0} → List A → (A → Io (Unit {0})) → Io (Unit {0})
for_each [] body = pure tt
for_each (x ∷ xs) body = do body x; for_each xs body

-- `[f(x) for x in xs]`
unfoldable pub map_each : {A B : Type 0} → List A → (A → Io B) → Io (List B)
map_each [] f = pure []
map_each (x ∷ xs) f = do y ← f x; ys ← map_each xs f; pure (y ∷ ys)

-- The exception of each outcome but the first.
abbrev pub outcome : Outcome → Result Text
outcome (completed out) = ok out
outcome failed = err called_process_error
outcome timed_out = err timeout_expired
outcome not_started = err os_error

abbrev pub or_raise : {A : Type 0} → Option A → Io A
or_raise none = raise index_error
or_raise (some a) = pure a

abbrev pub insert_at : {A : Type 0} → ℕ → A → List A → List A
insert_at zero a xs = a ∷ xs
insert_at (suc i) a [] = a ∷ []
insert_at (suc i) a (x ∷ xs) = x ∷ insert_at i a xs

module _ (env : Env) where
  -- `subprocess.run(argv, check=True, timeout=…).stdout`
  unfoldable pub run : List Text → ℕ → Io Text
  unfolding emit
  run argv timeout w = (outcome (env.answer w.trace argv), (emit (ran argv timeout) w).1)

  -- `stop_event.is_set()`
  unfoldable pub is_set : World → Bool
  is_set w = leb env.stop_at (length w.trace)

  unfoldable pub draw : Io ℕ
  draw w = (ok (env.draw w.draws), record w { draws = suc w.draws })

  -- `random.choice(xs)`
  unfoldable pub choice : {A : Type 0} → List A → Io A
  unfolding draw
  choice [] = raise index_error
  choice (x ∷ xs) = do k ← draw; or_raise (get_elem? (x ∷ xs) (k % length (x ∷ xs)))

  -- `random.randint(lo, hi)`
  unfoldable pub randint : ℕ → ℕ → Io ℕ
  unfolding draw
  randint lo hi =
      if leb lo hi then (do k ← draw; pure (lo + k % (hi - lo + 1))) else raise value_error

  -- `random.shuffle(xs)`: each element is put at a random place among those behind it
  unfoldable pub shuffle : {A : Type 0} → List A → Io (List A)
  unfolding draw
  shuffle [] = pure []
  shuffle (x ∷ xs) = do ys ← shuffle xs; k ← draw; pure (insert_at (k % (length ys + 1)) x ys)
