-- ===== src/Bin.antt =====
-- src/bin/: the daemon's resolver, and the programs beside the daemon.
pub mod Ping
pub mod Files
pub mod Install
pub mod Uninstall
pub mod Daemon
