-- ===== src/Release.antt =====
-- The release resource: internal/release/domain/types.go and internal/release/domain/release.go.
pub mod Types
pub mod Steps
pub mod Names
pub mod Artifact
