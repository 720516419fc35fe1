-- ===== src/Lib.antt =====
-- faultstorm: fault injection and consistency checks for clusters in Docker containers.
--
-- The program runs a load against a database, injects faults while it runs, and checks in the end
-- that the database kept every write that it confirmed. These files model the parts that decide:
-- the load generator with its threads, the checker of the operations log, the fault actions, the
-- engine that chooses, injects, logs, heals and replays them, the static network latency, and the
-- runner that puts them together.
--
-- The parts and their files (paths from the root of the repository):
--   faultstorm/checker.py, faultstorm/model.py: Checker. `Checker/Consistency` has the pass over
--     the log (`scan`, one `step` for each line) and `verdict`; `Checker/Availability` has
--     `_compute_interval_availability`, and `Checker/Problems` the ranges of time that are logged.
--     `Checker/LogView` describes a log without the state of the pass, and `Checker/Verdict`,
--     `Checker/Bounds` and `Checker/Ranges` have the theorems.
--   faultstorm/cluster.py: Cluster, and faultstorm/faults/partitioners.py: Partitioners. Each
--     function is a sequence of child processes. `Cluster/Labels` describes the datacenters.
--   faultstorm/faults/actions.py: Actions. One module for each class, with `init` for its
--     constructor, `execute`, `heal`, `serialize` and `deserialize`; `Actions/Builtin` joins them
--     into one type of actions with the class attributes; `Actions/Registry` is FaultRegistry.
--     `Actions/Rules` says what the commands that completed add to the packet filters, and
--     `Actions/Isolation` with its submodules what that is for a partition;
--     `Actions/RoundTrip` reads log lines back; `Actions/Chains`, `Actions/Commands` and
--     `Actions/Steady` say what no method changes, and which chains its commands name.
--   faultstorm/faults/engine.py: Engine. `Engine/Faults` is the interface that the engine uses of
--     the actions, which the built-in ones fill in `Engine/Builtin`; `Engine/State` has the fields,
--     the ordinals and the scenario log; `Engine/Inject`, `Engine/Heal` and `Engine/Loop` have the
--     methods behind `run_random`, `Engine/Scenario` has `_parse_log`, and `Engine/Replay` has
--     `run_replay`, with what it leaves of the log in `Engine/Replay/Copies`. `Engine/Steps`,
--     `Engine/Moves` and `Engine/Heals` say what single steps leave; a relation that they respect
--     is respected by the whole run (`Engine/Passage`), which `Engine/Advances`,
--     `Engine/Progress`, `Engine/Budget` and `Engine/Ordinals` apply; `Engine/Chains` says what
--     that means for the chains of the built-in actions.
--   faultstorm/load_generator.py, faultstorm/db_client.py: Load. `Load/Client` is the interface of
--     the database; `Load/Generator` has the fields and the events of the log; `Load/Threads` has
--     the places where a writer, an abandoned call and the thread of the phases can be (`Pc`,
--     `Daemon`, `Main`), what each of them does in one move, and `run` for a schedule of moves.
--     `Load/History` says what every log has, `Load/Durable` what a database keeps that keeps its
--     promises, `Load/Checked` what the checker says of such a log, `Load/Detects` what it finds in
--     the log of any database, and `Load/Joins` when the writers end.
--   faultstorm/network_latency.py: Latency. `Latency/Bands` has the `tc` commands, `Latency/Parse`
--     reads what `tc` prints, `Latency/Freeze` has the module's functions for live nodes,
--     `Latency/Delays` says which delay is between two nodes, and `Latency/Manager` has the methods
--     of NetworkLatencyManager. Their submodules have the theorems.
--   faultstorm/runner.py: Runner. `run` is TestRunner.run, over the other parts: it takes the moves
--     of the load's threads, and the world of the fault thread. `Runner/Cleanup` says how it ends.
--   faultstorm/config.py: Config, all settings; those that are floats are in milliseconds.
--   Prelude, Text and Effects have what the program takes from Python: numbers, lists, sets and
--     dicts, exceptions, text, child processes, random choices, waits and the stop event.
--
-- How the program is modelled. A text is a list of code points. An operation that can raise returns
-- a `Result` whose error is the class of the exception. What is done to the outside is a trace of
-- events (`Effects`): a child process, a wait, a line of the scenario log, or that the stop event
-- is cleared. The environment `Env` is a parameter: the answer of every child process, which may
-- depend on all that was done before, the random numbers, the time, how the scenario log is opened,
-- and the length of the trace at which the stop event is set. A method takes and returns the fields
-- of its object, and what it assigned before an exception stays. `random.random() < 0.5` is a draw
-- that is even.
--
-- Bounds and fuel. The loop of `_do_random_loop` runs on fuel; every other loop is a recursion on a
-- list or a count. Each cycle waits at least once, so fuel above `stop_at` is enough. The threads
-- of the load generator run for as long as the schedule has moves.
--
-- Not modelled: the parsing and printing of JSON, and its nested values other than lists of
-- integers; times are counts of clock ticks, and availability is a quotient of counts. Messages to
-- the Python logger are left out, but for the ranges of time that the checker logs. Container
-- templates have no braces but those of `{node}`, `int` reads ASCII digits, and so does the pattern
-- of a time in a scenario. A file is the list of its lines; opening the scenario log and writing
-- its header can fail, a line that is written later is always written. The timeouts of the joins in
-- `drain_pending` are not seen. A set is the list of its elements in the order of its iteration. A
-- delay that `tc` prints is an exact decimal number, and the classes of a pattern are those of
-- ASCII. Of the runner, the printing and the directories of the logs are left out. The script that
-- freezes processes has no model here.
pub mod Prelude
pub mod Text
pub mod Checker
pub mod Effects
pub mod Cluster
pub mod Partitioners
pub mod Actions
pub mod Config
pub mod Engine
pub mod Load
pub mod Latency
pub mod Runner
