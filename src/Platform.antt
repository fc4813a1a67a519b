-- ===== src/Platform.antt =====
-- internal/platform: what the HTTP handlers share.
pub mod Pagination
