-- ===== src/UpdateMetadata.antt =====
-- sources/updater/update_metadata: the manifest of updates, their release in waves, and the
-- migrations between two versions.
pub mod Chrono
pub mod Error
pub mod Wave
pub mod Migrations
pub mod Seeds
pub mod Manifest
mod Examples
