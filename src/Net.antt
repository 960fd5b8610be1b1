-- ===== src/Net.antt =====
-- net/ and the writing side of frontend/front-connection.js: the MySQL protocol.
pub mod Message
pub mod Connection
pub mod Packets
