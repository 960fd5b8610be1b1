-- ===== src/Tests.antt =====
-- The theorems at concrete inputs.
mod Pools
mod Packets
mod Words
mod Backends
mod Statements
mod Objects
mod Tasks
mod Logins
