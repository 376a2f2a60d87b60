-- ===== src/Paths.antt =====
-- src/paths.rs: the paths that the daemon, the client, the installer and the uninstaller agree on.
pub mod Macos
pub mod Linux
pub mod Windows
