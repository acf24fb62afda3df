-- ===== src/TharBeUpdates.antt =====
-- sources/api/thar-be-updates: the dispatcher of update commands and its state machine.
pub mod Status
pub mod Machine
mod Examples
