-- ===== src/Engine.antt =====
-- faults/engine.py: FaultEngine. The engine works with any fault actions: `Faults` is the
-- interface that it uses, which the built-in actions fill.
pub mod Faults
pub mod State
pub mod Inject
pub mod Heal
pub mod Loop
mod Steps
mod Moves
mod Heals
mod Passage
pub mod Advances
pub mod Progress
pub mod Budget
pub mod Ordinals
pub mod Builtin
mod Chains
pub mod Scenario
pub mod Replay
mod Tests
mod BuiltinTests
