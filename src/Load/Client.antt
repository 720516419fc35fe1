-- ===== src/Load/Client.antt =====
-- db_client.py: the interface of DatabaseClient, which a test implements for its database.
use faultstorm.Prelude.{ℕ, ℤ, Bool, List, Result, Exception}
use faultstorm.Text.{Text}

-- The state of the database is the implementation's own. A call returns or raises, and leaves the
-- database in the state that is given.
pub record DatabaseClient : Type 1 where
  pub Db : Type 0
  pub get_db_nodes : List Text
  pub setup : Text → Db → Result (Unit {0}) × Db
  pub add : Text → ℕ → Db → Result (Unit {0}) × Db
  pub read : Text → Db → Result (List ℤ) × Db
  pub is_definite_failure : Exception → Bool
