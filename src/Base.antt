-- ===== src/Base.antt =====
-- The threads' own structures of base/.
pub mod Queue
pub mod Pool
pub mod Thread
mod Tests
