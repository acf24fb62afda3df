-- ===== src/Datastore/Memory/MetadataPrefix.antt =====
-- `get_metadata_prefix` of the trait `DataStore` in lib.rs, as the store in memory has it.
use bottlerocket_core_kit.Prelude.{Option, List, [], ◌∷◌}
use bottlerocket_core_kit.Prelude.Outcome.{Outcome, ok, ◌>>=◌, context}
use bottlerocket_core_kit.Prelude.Text.{Text}
use bottlerocket_core_kit.Prelude.HashMap.{HashMap, put, update_entry}
use bottlerocket_core_kit.Datastore.KeyMap.{key_eq}
use bottlerocket_core_kit.Datastore.Key.{Key}
use bottlerocket_core_kit.Datastore.Error.{Error, listed_meta_not_present}
use bottlerocket_core_kit.Datastore.Memory.{
  Dataset, Committed, MemoryDataStore, list_populated_metadata, get_metadata,
}

-- The loop over the metadata keys of one data key. All of them have the name that was asked for.
unfoldable pub pull_metadata :
    MemoryDataStore
    → Committed
    → Key
    → List Key
    → HashMap Key Dataset
    → Outcome Error (HashMap Key Dataset)
unfolding put update_entry
pull_metadata s committed data_key [] result = ok result
pull_metadata s committed data_key (meta_key ∷ meta_keys) result = do
  found ← get_metadata s meta_key data_key committed
  value ← context (listed_meta_not_present meta_key.name data_key.name) found
  pull_metadata s committed data_key meta_keys
      (update_entry (put meta_key value) [] data_key result)

unfoldable pub pull_all :
    MemoryDataStore
    → Committed
    → HashMap Key (List Key)
    → HashMap Key Dataset
    → Outcome Error (HashMap Key Dataset)
unfolding pull_metadata
pull_all s committed [] result = ok result
pull_all s committed ((data_key, meta_keys) ∷ rest) result = do
  result ← pull_metadata s committed data_key meta_keys result
  pull_all s committed rest result

unfoldable pub get_metadata_prefix :
    MemoryDataStore → Text → Committed → Option Text → Outcome Error (HashMap Key Dataset)
unfolding pull_all
get_metadata_prefix s find_prefix committed metadata_key_name =
    pull_all s committed (list_populated_metadata s find_prefix committed metadata_key_name) []
