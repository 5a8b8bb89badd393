-- ===== src/Http.antt =====
-- The folder http/: requests, the glue of the parsers, responses, and the server's callbacks.
mod Tests
pub mod Request
pub mod Parser
pub mod Response
pub mod ResponseParser
pub mod Server
