-- ===== src/Migrator/Run.antt =====
-- `run_migrations` of sources/api/migration/migrator/src/main.rs: each migration reads the data
-- store that the one before it wrote.
pub mod Chain
use bottlerocket_core_kit.Prelude.{
  ℕ, suc, Bool, true, false, Option, none, some, List, [], ◌∷◌, if◌then◌else◌,
}
use bottlerocket_core_kit.Prelude.Text.{Text}
use bottlerocket_core_kit.Prelude.HashMap.{HashMap, text_key, get, put, remove}
use bottlerocket_core_kit.Prelude.Outcome.{Outcome, ok, err}
use bottlerocket_core_kit.Migrator.Direction.{Direction}

-- The variants of the migrator's `Error` that running migrations leads to.
pub data Error : Type 0 where
  migration_not_found : (migration : Text) → Error
  new_version_already_exists : (path : Text) → Error
  migration_failure : (migration : Text) → Error

-- What a migration leaves in the target for a direction and a source, and whether it exits with
-- success.
abbrev pub Program : Type 0 → Type 0
Program D = Direction → D → D × Bool

module _ {D : Type 0} (read_target : Text → Option (Program D)) (new_location : ℕ → Text)
    (direction : Direction) where
  abbrev pub delete_intermediate : Option Text → HashMap Text D → HashMap Text D
  delete_intermediate none stores = stores
  delete_intermediate (some path) stores = remove path stores

  -- The loop; `source` is what the last migration wrote, `calls` counts the calls of `rando`.
  unfoldable pub run_loop :
      ℕ → List Text → Text → Option Text → HashMap Text D → HashMap Text D × Outcome Error Text
  unfolding get put remove
  run_loop calls [] source intermediate stores = (stores, ok source)
  run_loop calls (migration ∷ migrations) source intermediate stores =
      let target = new_location calls in
      elim (read_target migration) [
        | none ↦ (stores, err (migration_not_found migration))
        | some program ↦ elim (get target stores) [
          | some _ ↦ (stores, err (new_version_already_exists target))
          | none ↦ elim (get source stores) [
            | none ↦ (stores, err (migration_failure migration))
            | some content ↦ elim (program direction content).1 [
              | false ↦ (
                put target (program direction content).0 stores,
                err (migration_failure migration),
              )
              | true ↦ run_loop (suc calls) migrations target (some target) (
                  delete_intermediate intermediate
                    (put target (program direction content).0 stores))
            ]
          ]
        ]
      ]

  unfoldable pub run_migrations :
      List Text → Text → HashMap Text D → HashMap Text D × Outcome Error Text
  unfolding run_loop
  run_migrations migrations source_datastore stores =
      run_loop 0 migrations source_datastore none stores

  -- Without a migration the data store is used as it is.
  unfoldable pub migrated_store :
      List Text → Text → HashMap Text D → HashMap Text D × Outcome Error Text
  unfolding run_migrations
  migrated_store [] datastore_path stores = (stores, ok datastore_path)
  migrated_store (m ∷ ms) datastore_path stores = run_migrations (m ∷ ms) datastore_path stores

  -- The migrations one after another, on the data alone.
  unfoldable pub migrate_data : List Text → D → Option D
  migrate_data [] content = some content
  migrate_data (migration ∷ migrations) content = elim (read_target migration) [
    | none ↦ none
    | some program ↦ elim (program direction content).1 [
      | false ↦ none
      | true ↦ migrate_data migrations (program direction content).0
    ]
  ]
