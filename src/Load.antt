-- ===== src/Load.antt =====
-- load_generator.py and db_client.py: the load on the database, as threads that interleave.
pub mod Client
pub mod Generator
pub mod Threads
pub mod History
pub mod Durable
pub mod Plain
pub mod Checked
pub mod Detects
pub mod Joins
mod Tests
