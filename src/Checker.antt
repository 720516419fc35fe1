-- ===== src/Checker.antt =====
-- checker.py and model.py: the verdict on a log of operations.
pub mod Availability
pub mod Consistency
pub mod LogView
pub mod Verdict
pub mod Problems
pub mod Ranges
pub mod Bounds
mod Tests
