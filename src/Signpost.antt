-- ===== src/Signpost.antt =====
-- sources/updater/signpost: the boot flags of the two partition sets, and the operations on them.
pub mod Crates
pub mod GptPrio
pub mod Set
pub mod Guid
pub mod Error
pub mod State
pub mod Load
pub mod Command
mod Examples
