-- ===== src/Service.antt =====
-- src/service: the state of the daemon, its supervisor, its DNS calls and its IPC server.
pub mod Os
pub mod State
pub mod Core
pub mod Dns
pub mod Server
