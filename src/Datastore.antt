-- ===== src/Datastore.antt =====
-- sources/api/datastore: keys, and the store of settings with its transactions.
pub mod Error
pub mod Key
pub mod KeyMap
pub mod Memory
pub mod Filesystem
mod Examples
