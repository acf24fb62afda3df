-- ===== src/Updog.antt =====
-- sources/updater/updog/src/main.rs: which update a host takes.
pub mod Select
mod Examples
