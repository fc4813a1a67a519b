-- ===== src/Service.antt =====
-- The release service: internal/release/service and its store, internal/release/repository.
pub mod World
pub mod Store
pub mod Status
pub mod Step
pub mod Artifact
pub mod Timeouts
pub mod Operations
pub mod Create
pub mod Dispatch
pub mod Quiet
pub mod Calm
pub mod Terminal
