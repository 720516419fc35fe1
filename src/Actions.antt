-- ===== src/Actions.antt =====
-- faults/actions.py: the fault actions and their registry. The constructors, `execute` and `heal`
-- of each class stand in a module of its own.
pub mod Base
pub mod Sides
pub mod Wait
pub mod Kill
pub mod Halves
pub mod Ring
pub mod Node
pub mod Subnet
pub mod Datacenter
pub mod Freeze
pub mod Builtin
pub mod Registry
mod Names
pub mod Rules
pub mod Isolation
pub mod Resolved
mod Returns
mod FreezeReturns
pub mod RoundTrip
pub mod Chains
mod Commands
pub mod Steady
mod Tests
