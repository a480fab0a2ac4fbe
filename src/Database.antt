-- ===== src/Database.antt =====
-- The database behind internal/repository: the three tables of migrations/, and the calls that the
-- program makes to PostgreSQL, to object storage and to the clock. One call is one turn: before it
-- takes effect other sessions may have changed the tables, and it may be refused or its reply lost.
mod Effects
pub mod Integrity
pub mod Calls
pub use Effects.*
unfoldable pub use Effects.{query, transaction, stored_time}
