-- ===== src/Auth.antt =====
-- The tokens that the proxy sends upstream: internal/auth.
pub mod Anonymous
