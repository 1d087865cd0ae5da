-- ===== src/Pairing/Exchange.antt =====
-- A client and a host that carry out one pairing, from the hello to the result.
pub mod Steps
pub mod Hello
pub mod Texts
pub mod Run
pub mod Answered
pub mod Complete
