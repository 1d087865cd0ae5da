-- ===== src/Dashboard.antt =====
-- The package `internal/dashboard`: one module for each part of it.
pub mod Config
pub mod Server
pub mod Terminals
pub mod Projects
pub mod Sockets
pub mod World
pub mod Capacity
pub mod Shutdown
pub mod Deletions
pub mod Guards
pub mod Claims
pub mod Messages
pub mod Shell
pub mod Routes
pub mod Report
pub mod Collector
