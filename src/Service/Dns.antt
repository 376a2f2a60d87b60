-- ===== src/Service/Dns.antt =====
-- src/service/mod.rs names one module `dns` for each of the two systems that have one.
pub mod Macos
pub mod Linux
