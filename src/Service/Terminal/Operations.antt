-- ===== src/Service/Terminal/Operations.antt =====
-- Every operation of the service keeps a terminal status.
pub mod Steps
pub mod Timeouts
pub mod Requests
pub mod Runs
