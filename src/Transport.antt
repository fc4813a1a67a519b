-- ===== src/Transport.antt =====
-- internal/release/transport/http: the callbacks of the observers.
pub mod Writeback
