-- ===== src/Config.antt =====
-- The configuration of the program: its command line, the network interfaces, and `main`.
pub mod Netif
pub mod CommandLine
pub mod Main
pub mod Stack
mod Tests
