-- ===== src/Tests.antt =====
-- Concrete inputs: tests of the definitions, and each theorem at an input that meets its hypotheses.
pub mod Data
mod Queues
mod Names
mod Pages
mod Releases
mod Lifecycles
mod Services
mod Writebacks
mod Runtimes
pub mod Manifests
mod Bootstraps
mod Artifacts
mod Creations
