-- ===== src/Runtime.antt =====
-- internal/runtime: the index of what the clusters run, and its effect on releases.
pub mod Types
pub mod Store
pub mod Observed
pub mod Reconcile
