-- ===== src/Db.antt =====
-- The Postgres tables and the statements' way of running, shared by the stores.
pub mod Error
pub mod Tables
pub mod Sql
pub mod Rows
pub mod Exec
pub mod WellFormed
pub mod History
pub mod Attempts
pub mod Migrate
