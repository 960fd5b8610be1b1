-- ===== src/Backend.antt =====
-- The backend connections in backend/.
pub mod Source
pub mod DbPool
