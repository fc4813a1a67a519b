-- ===== src/Manifest.antt =====
-- The manifests: the table and its updates of internal/manifest, the handlers of Tekton's reports
-- in internal/release/transport/http, and the reconciler of internal/runtime that sends them.
pub mod Types
pub mod Store
pub mod Updates
pub mod Tekton
pub mod Snapshot
pub mod Reconciler
pub mod Rows
pub mod Kept
pub mod Handlers
pub mod Lost
pub mod Results
pub mod Repeats
