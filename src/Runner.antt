-- ===== src/Runner.antt =====
-- service/internal/runner: interpreter sessions, their saves, and the archives they play from.
pub mod SaveLock
pub mod Archive
pub mod Download
pub mod Manager
pub mod Interpreter
pub mod Session
