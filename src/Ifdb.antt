-- ===== src/Ifdb.antt =====
-- service/internal/ifdb: the proxy of the IFDB catalogue.
pub mod Cache
pub mod Retry
pub mod Format
