-- ===== src/Util.antt =====
-- The folder util/: the texts of SQL queries, and the table of the operations.
mod Tests
pub mod Sql
pub mod Results
pub mod Ops
pub mod Config
pub mod Routes
