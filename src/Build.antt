-- ===== src/Build.antt =====
-- service/internal/build: compiling a project's Inform 7 source.
pub mod Slots
pub mod Job
