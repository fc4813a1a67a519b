-- ===== src/Control.antt =====
-- The release control plane: internal/release/domain/control_*.go, internal/release/control and
-- internal/release/strategy/rolling.
pub mod Lifecycle
pub mod State
pub mod Engine
pub mod Timeout
pub mod Operation
pub mod Remediation
pub mod Rolling
