-- ===== src/Service/Terminal.antt =====
-- A terminal release status is final: no operation of the service changes it, whatever statements
-- of the store fail.
pub mod Kept
pub mod Store
pub mod Operations
