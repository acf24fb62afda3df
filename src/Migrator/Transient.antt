-- ===== src/Migrator/Transient.antt =====
-- `remove_transient_datastore_entries` of sources/api/migration/migrator/src/main.rs, with
-- datastore_helper.rs, on stores in memory.
pub mod Cleaned
use bottlerocket_core_kit.Prelude.{
  Bool, true, false, not, Option, none, some, List, [], ◌∷◌, map, String, if◌then◌else◌, filter_by,
}
use bottlerocket_core_kit.Prelude.Text.{Text}
use bottlerocket_core_kit.Prelude.HashMap.{HashMap, text_key, get, put, remove, update_entry}
use bottlerocket_core_kit.Prelude.Outcome.{Outcome, ok, err, panic, ◌>>=◌, ◌>>◌, context}
use bottlerocket_core_kit.Datastore.Error.{Error as StoreError}
use bottlerocket_core_kit.Datastore.Key.{Key, data_type, meta_type, new_key}
use bottlerocket_core_kit.Datastore.KeyMap.{key_eq}
use bottlerocket_core_kit.Datastore.Memory.{
  Dataset, Committed, live_data, pending_data, MemoryDataStore, starts_with, get_prefix, set_keys,
  set_metadata, list_transactions,
}
use bottlerocket_core_kit.Datastore.Memory.MetadataPrefix.{get_metadata_prefix}

-- The variants of the migrator's `Error` that the copy leads to.
pub data Error : Type 0 where
  get_data : StoreError → Error
  get_metadata_failed : StoreError → Error
  deserialize : String → Error
  serialize : Error
  invalid_key : Text → Error

-- What the code uses of scalar values, which are values of `serde_json`.
pub record Scalars (Value : Type 0) : Type 0 where
  pub deserialize_scalar : String → Option Value
  pub serialize_scalar : Value → Option String
  pub is_weak : Value → Bool

pub record DataStoreData (Value : Type 0) : Type 0 where
  pub entries : HashMap Text Value
  pub metadata : HashMap Text (HashMap Text Value)

-- `with_context`
abbrev pub with_error {ℓ} : {E F : Type 0} {A : Type ℓ} → (E → F) → Outcome E A → Outcome F A
with_error wrap (ok a) = ok a
with_error wrap (err e) = err (wrap e)
with_error wrap panic = panic

-- "strength"
abbrev pub strength : Text
strength = 115 ∷ 116 ∷ 114 ∷ 101 ∷ 110 ∷ 103 ∷ 116 ∷ 104 ∷ []

-- "configuration-files."
abbrev pub configuration_files : Text
configuration_files =
    99 ∷ 111 ∷ 110 ∷ 102 ∷ 105 ∷ 103 ∷ 117 ∷ 114 ∷ 97 ∷ 116 ∷ 105 ∷ 111 ∷ 110 ∷ 45 ∷ 102 ∷ 105 ∷ 108
    ∷ 101 ∷ 115 ∷ 46 ∷ []

-- "services."
abbrev pub services : Text
services = 115 ∷ 101 ∷ 114 ∷ 118 ∷ 105 ∷ 99 ∷ 101 ∷ 115 ∷ 46 ∷ []

module _ {Value : Type 0} (scalars : Scalars Value) where
  abbrev pub is_weak_entry : Option Value → Bool
  is_weak_entry none = false
  is_weak_entry (some v) = scalars.is_weak v

  -- The keys whose metadata call them weak.
  unfoldable pub weak_keys : HashMap Text (HashMap Text Value) → List Text
  unfolding get
  weak_keys [] = []
  weak_keys ((key, inner_map) ∷ rest) =
      let later = weak_keys rest in
      if is_weak_entry (get strength inner_map) then key ∷ later else later

  unfoldable pub remove_all : List Text → HashMap Text Value → HashMap Text Value
  unfolding remove
  remove_all [] entries = entries
  remove_all (key ∷ keys) entries = remove_all keys (remove key entries)

  unfoldable pub remove_weak_setting : DataStoreData Value → DataStoreData Value
  unfolding weak_keys remove_all
  remove_weak_setting d = record d { entries = remove_all (weak_keys d.metadata) d.entries }

  unfoldable pub remove_metadata : DataStoreData Value → DataStoreData Value
  remove_metadata d = record d { metadata = [] }

  unfoldable pub remove_keys_with_prefix : Text → DataStoreData Value → DataStoreData Value
  remove_keys_with_prefix prefix d = record d {
    entries = filter_by (λ entry. not (starts_with prefix entry.0)) d.entries;
  }

  -- The four removals that `copy_without_transient_entries` makes for each of the stores.
  unfoldable pub remove_transient : DataStoreData Value → DataStoreData Value
  unfolding remove_weak_setting remove_metadata remove_keys_with_prefix
  remove_transient d =
      remove_keys_with_prefix services
        (remove_keys_with_prefix configuration_files (remove_metadata (remove_weak_setting d)))

  unfoldable pub read_values : Dataset → HashMap Text Value → Outcome Error (HashMap Text Value)
  unfolding put
  read_values [] entries = ok entries
  read_values ((key, value_str) ∷ rest) entries = do
    value ← context (deserialize value_str) (scalars.deserialize_scalar value_str)
    read_values rest (put key.name value entries)

  unfoldable pub read_metadata :
      HashMap Key Dataset
      → HashMap Text (HashMap Text Value)
      → Outcome Error (HashMap Text (HashMap Text Value))
  unfolding read_values put get
  read_metadata [] metadata = ok metadata
  read_metadata ((data_key, meta_map) ∷ rest) metadata = do
    data_entry ← read_values meta_map (elim (get data_key.name metadata) [ none ↦ [] | some m ↦ m ])
    read_metadata rest (put data_key.name data_entry metadata)

  unfoldable pub get_input_data : MemoryDataStore → Committed → Outcome Error (DataStoreData Value)
  unfolding read_values read_metadata
  get_input_data store committed = do
    raw_data ← with_error get_data (get_prefix store [] committed)
    entries ← read_values raw_data []
    raw_metadata ← with_error get_metadata_failed (get_metadata_prefix store [] committed none)
    metadata ← read_metadata raw_metadata []
    ok (record { entries = entries; metadata = metadata })

  unfoldable pub write_values : HashMap Text Value → Dataset → Outcome Error Dataset
  unfolding put
  write_values [] written = ok written
  write_values ((name, raw_value) ∷ rest) written = do
    data_key ← with_error (λ _. invalid_key name) (new_key data_type name)
    value ← context serialize (scalars.serialize_scalar raw_value)
    write_values rest (put data_key value written)

  unfoldable pub write_inner :
      Key → Committed → HashMap Text Value → MemoryDataStore → Outcome Error MemoryDataStore
  write_inner data_key committed [] store = ok store
  write_inner data_key committed ((name, raw_value) ∷ rest) store = do
    metadata_key ← with_error (λ _. invalid_key name) (new_key meta_type name)
    value ← context serialize (scalars.serialize_scalar raw_value)
    write_inner data_key committed rest (set_metadata store metadata_key data_key value committed)

  unfoldable pub write_metadata :
      Committed
      → HashMap Text (HashMap Text Value)
      → MemoryDataStore
      → Outcome Error MemoryDataStore
  unfolding write_inner
  write_metadata committed [] store = ok store
  write_metadata committed ((name, meta_map) ∷ rest) store = do
    data_key ← with_error (λ _. invalid_key name) (new_key data_type name)
    store ← write_inner data_key committed meta_map store
    write_metadata committed rest store

  unfoldable pub set_output_data :
      DataStoreData Value → Committed → MemoryDataStore → Outcome Error MemoryDataStore
  unfolding write_values write_metadata
  set_output_data input committed store = do
    written ← write_values input.entries []
    write_metadata committed input.metadata (set_keys store written committed)

  unfoldable pub copy_all :
      MemoryDataStore → List Committed → MemoryDataStore → Outcome Error MemoryDataStore
  unfolding get_input_data set_output_data remove_transient
  copy_all source [] target = ok target
  copy_all source (committed ∷ committeds) target = do
    input ← get_input_data source committed
    target ← set_output_data (remove_transient input) committed target
    copy_all source committeds target

  -- Live data, then the transactions.
  unfoldable pub copy_without_transient_entries :
      MemoryDataStore → MemoryDataStore → Outcome Error MemoryDataStore
  unfolding copy_all list_transactions
  copy_without_transient_entries source target =
      copy_all source (live_data ∷ map (λ tx. pending_data tx) (list_transactions source)) target
