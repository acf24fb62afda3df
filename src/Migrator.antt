-- ===== src/Migrator.antt =====
-- sources/api/migration/migrator: moving the data store of a host to another version.
pub mod Direction
pub mod Links
pub mod Run
pub mod Transient
mod Examples
