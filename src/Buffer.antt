-- ===== src/Buffer.antt =====
-- buffer/: the 24-bit helpers and the pool that limits the memory of the buffers.
pub mod Helper
pub mod Pool
