-- ===== src/Log.antt =====
-- The folder base/: what formats, buffers and writes the log.
mod Tests
pub mod Stream
pub mod Async
pub mod Front
pub mod File
