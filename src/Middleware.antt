-- ===== src/Middleware.antt =====
-- HTTP middleware: internal/middleware.
pub mod RateLimit
pub mod ClientKey
