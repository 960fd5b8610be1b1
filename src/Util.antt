-- ===== src/Util.antt =====
-- The helpers in util/.
pub mod Splitter
pub mod Compression
pub mod Scheduler
pub mod Password
