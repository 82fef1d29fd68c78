-- ===== src/Server.antt =====
-- The HTTP server (service/internal/server).
pub mod Transcript
pub mod Http
pub mod Projects
pub mod Cascade
pub mod Builds
pub mod Community
pub mod History
pub mod Runs
pub mod Assistant
pub mod Owner
pub mod Samples
mod Tests
