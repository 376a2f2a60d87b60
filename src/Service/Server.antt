-- ===== src/Service/Server.antt =====
-- src/service/server.rs: one request, one connection, and the accept loop.
pub mod Setup
pub mod Request
pub mod Connection
pub mod Accept
pub mod Task
pub mod World
