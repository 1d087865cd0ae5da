-- ===== src/Tests.antt =====
-- Concrete inputs: the tests of the definitions, and each theorem at an input that it speaks of.
mod Toy
mod HostRun
mod Protocol
mod Dashboard
mod Requests
mod Frames
mod Installing
mod Searching
mod Meeting
mod Completed
mod Typed
mod Settings
mod Subnets
mod Reports
