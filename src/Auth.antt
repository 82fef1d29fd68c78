-- ===== src/Auth.antt =====
-- Accounts and sessions: their tables (service/internal/store/sqlite.go), SessionAuth
-- (service/internal/auth/auth.go), the handlers of service/internal/server/handlers_auth.go and the
-- gate of service/internal/server/middleware.go.
pub mod Tables
pub mod Sessions
pub mod Handlers
