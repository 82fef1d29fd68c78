-- ===== src/Openai.antt =====
-- The client of the language model (service/internal/openai).
pub mod Fence
pub mod Stream
