-- ===== src/Lib.antt =====
-- Verification library of the Bottlerocket core kit: the parts that decide what a host boots and
-- which update it takes, and the store of its settings.
--
-- The program's parts and how they interact. A host has two partition sets. `updog`
-- (sources/updater/updog) reads a manifest (sources/updater/update_metadata), chooses an update for
-- the host, downloads its images to the standby set, and has `signpost` (sources/updater/signpost)
-- change the boot flags in the partition table; the boot loader picks a set by these flags, and a
-- service marks the boot as successful. The API server keeps the settings in a datastore
-- (sources/api/datastore) as keys and values, live or pending in transactions. The services talk
-- over D-Bus, whose broker `whippet` (sources/whippet) starts with the policy that it reads. After
-- an update `migrator` (sources/api/migration/migrator) runs the migrations between the versions,
-- which update_metadata finds in the manifest, on a copy of the datastore.
--
-- Prelude: library names passed on, lists, orders, outcomes, sorting, tests, maps, texts and the
-- decimal numbers of Rust's `to_string` and `parse`.
--
-- Signpost: sources/updater/signpost/src.
--   Signpost/GptPrio: gptprio.rs, `GptPrio` as the number of its 64 bits.
--   Signpost/Set, Guid, Error: set.rs, guid.rs, error.rs.
--   Signpost/State: the methods of `State` in state.rs, one function each, from a state to an
--   `Outcome` of the state that it leaves (ok, err, or panic for an index out of range).
--   State/Slots is the specification: two slots with flags and a running one.
--   Signpost/Load: `State::load`, over the answers of the system in the record `System`.
--   Signpost/Command: one run of the command line of main.rs, from the table on disk to the one
--   that it writes.
-- UpdateMetadata: sources/updater/update_metadata/src/lib.rs.
--   UpdateMetadata/Wave: `Update::update_wave` and `Update::update_ready`.
--   UpdateMetadata/Manifest, Seeds: `Manifest::add_update`, `update_max_version`, `set_waves` with
--   the f32 arithmetic of its seeds, and `validate_updates`.
--   UpdateMetadata/Migrations: `find_migrations`; the `while` loop runs on fuel, and one round more
--   than there are migrations is enough where every migration goes to a later version.
-- Datastore: sources/api/datastore/src, where the settings of a host are kept.
--   Datastore/Key: the methods of `Key` in key.rs; a string is the list of its characters, and its
--   length is in bytes of UTF-8. The loop over the characters of a name is a function of one
--   character, applied to each.
--   Datastore/Memory: the store of memory.rs with its transactions, the defaults of the trait
--   `DataStore` in lib.rs, and the results of constraints_check.rs.
--   Datastore/KeyMap: maps from keys.
--   Datastore/Filesystem: the paths of keys in filesystem.rs, `KeyPath`, and in Walk the listing of
--   the keys from a walk of the files; a path is its text, and its components are computed as
--   `std::path` does.
-- Migrator: sources/api/migration/migrator/src, which moves the data store to another version.
--   Migrator/Direction: direction.rs. Migrator/Run: `run_migrations`; a migration is a program from
--   the content of a store to a content and an exit status.
--   Migrator/Links: the symbolic links that name the live store, as a map from names to names;
--   `flip_to_new_version` is the list of its calls of `symlink` and `rename`.
--   Migrator/Transient: `copy_without_transient_entries` and datastore_helper.rs, on stores in
--   memory.
-- Whippet: sources/whippet/src, the policy of the D-Bus broker.
--   Whippet/Rule: rules, contexts and policies of policy.rs; a `u64` sum wraps at 2 ^ 64.
--   Whippet/Policy: `Policy::new` with `load_one_policy`, `set_rule_priorities`, `validate` and
--   `replace_uids`; files, TOML and the resolver of names are parameters.
--   Whippet/Connect: `prepare` and `optimize`. Whippet/Users: `PasswdUsernameResolver`.
--   Whippet/DbusPolicy: dbus_policy.rs, and what the broker finds in it for a user.
-- TharBeUpdates: sources/api/thar-be-updates/src, which runs updog on commands of the API.
--   TharBeUpdates/Status: `UpdateStatus` of status.rs and its methods.
--   TharBeUpdates/Machine: the commands and `drive_state_machine` of main.rs; what a run meets is
--   the record `Environment`. Machine/Reachable has the statuses that runs lead to.
-- Updog/Select: `applicable_updates` and `update_required` of sources/updater/updog/src/main.rs.
--
-- Parameters. The crates bit_field and gptman are the records `BitField` and `Gptman` of
-- Signpost/Crates, chrono is `Chrono`, percent_encoding is `PercentEncoding`; each has the operations that the code calls, the laws that
-- the code relies on, and a concrete instance. Versions of semver are a type with an instance of
-- `Ord`. The parser of offsets, `FriendlyVersion`, the clock and the constraint check of a commit
-- are arguments. An unstable sort is a sort by insertion.
--
-- Not modelled: reading and writing of files and of TUF repositories, logging and the texts of
-- errors, the parsing of manifests, the reading and writing of the datastore's files, the start of the D-Bus
-- broker, and the other services of sources/.
pub mod Prelude
pub mod Signpost
pub mod UpdateMetadata
pub mod Updog
pub mod TharBeUpdates
pub mod Datastore
pub mod Migrator
pub mod Whippet
