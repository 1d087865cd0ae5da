-- ===== src/Pairing.antt =====
-- The package `internal/pairing`: one module for each file or part of it.
pub mod Messages
pub mod Names
pub mod Local
pub mod Subnets
pub mod Files
pub mod Config
pub mod Host
pub mod Ssh
pub mod Install
pub mod Crypto
pub mod Keys
pub mod Transcript
pub mod Options
pub mod Discovery
pub mod Exchange
pub mod Probes
pub mod Client
