-- ===== src/Store.antt =====
-- SQLiteStore (service/internal/store/sqlite.go) without its accounts, which are in Auth/Tables, and
-- LocalBlobStore (service/internal/store/local_blob.go).
pub mod Table
pub mod Rows
pub mod Runs
pub mod Projects
pub mod Records
pub mod Integrity
pub mod Maps
pub mod Refines
pub mod RoundTrip
pub mod Listings
pub mod Blobs
pub mod Samples
mod Tests
