-- ===== src/Datastore/Filesystem/Walk.antt =====
-- sources/api/datastore/src/filesystem.rs: the keys that a walk of the store's files finds.
pub mod Listed
use bottlerocket_core_kit.Prelude.{
  ◌≡◌, Bool, true, false, not, ◌&&◌, ◌||◌, List, [], ◌∷◌, map, Option, none, some, if◌then◌else◌,
}
use bottlerocket_core_kit.Prelude.Outcome.{Outcome, ok, err, panic, ◌>>=◌}
use bottlerocket_core_kit.Prelude.Text.{Text, text_eq}
use bottlerocket_core_kit.Datastore.Error.{Error, corruption, list_keys_error}
use bottlerocket_core_kit.Datastore.Key.{KeyType, data_type, meta_type, Key, same_key}
use bottlerocket_core_kit.Datastore.Memory.{Committed, live_data, pending_data, starts_with}
use bottlerocket_core_kit.Datastore.Filesystem.{
  PercentEncoding, FilesystemDataStore, base_path, KeyPath, key_type, from_path,
}

-- An entry of a walk, with its path below the base of the walk.
pub record Entry : Type 0 where
  pub is_file : Bool
  pub key_path_raw : Text

-- What `WalkDir` gives: nothing where the base does not exist; none among the entries is an error.
abbrev pub Walk : Type 0
Walk = Option (List (Option Entry))

-- A `HashSet` as the list of its members, by their `PartialEq`.
module _ {A : Type 0} where
  unfoldable pub has_some : (A → Bool) → List A → Bool
  has_some test [] = false
  has_some test (x ∷ rest) = test x || has_some test rest

  unfoldable pub insert_new : (A → A → Bool) → A → List A → List A
  insert_new eq x members = if has_some (eq x) members then members else x ∷ members

  unfoldable pub collect_set : (A → A → Bool) → List A → List A
  collect_set eq [] = []
  collect_set eq (x ∷ rest) = insert_new eq x (collect_set eq rest)

abbrev pub same_option : Option Key → Option Key → Bool
same_option none none = true
same_option (some a) (some b) = same_key a b
same_option _ _ = false

abbrev pub same_key_path : KeyPath → KeyPath → Bool
same_key_path a b = same_key a.data_key b.data_key && same_option a.metadata_key b.metadata_key

abbrev pub same_type : KeyType → KeyType → Bool
same_type data_type data_type = true
same_type meta_type meta_type = true
same_type _ _ = false

abbrev pub value_of : Outcome Error KeyPath → Option KeyPath
value_of (ok path) = some path
value_of _ = none

module _ ⦃p : PercentEncoding⦄ where
  unfoldable pub from_entry : Entry → Option KeyPath
  from_entry entry = if not entry.is_file then none else value_of (from_path entry.key_path_raw)

  -- One round of the loop: the key path of an entry, if it is one that is looked for.
  unfoldable pub accept : KeyType → Text → Option KeyPath → List KeyPath → List KeyPath
  accept wanted prefix none key_paths = key_paths
  accept wanted prefix (some kp) key_paths =
      if not (starts_with prefix kp.data_key.name)
      then key_paths
      else if not (same_type (key_type kp) wanted)
      then key_paths
      else insert_new same_key_path kp key_paths

  unfoldable pub find_in : KeyType → Text → List (Option Entry) → Outcome Error (List KeyPath)
  find_in wanted prefix [] = ok []
  find_in wanted prefix (none ∷ rest) = err list_keys_error
  find_in wanted prefix (some entry ∷ rest) = do
    key_paths ← find_in wanted prefix rest
    ok (accept wanted prefix (from_entry entry) key_paths)

  unfoldable pub find_populated_key_paths :
      FilesystemDataStore → KeyType → Text → Committed → Walk → Outcome Error (List KeyPath)
  find_populated_key_paths store wanted prefix committed (some entries) =
      find_in wanted prefix entries
  find_populated_key_paths store wanted prefix live_data none =
      err (corruption (base_path store live_data))
  find_populated_key_paths store wanted prefix (pending_data _) none = ok []

  unfoldable pub list_populated_keys :
      FilesystemDataStore → Text → Committed → Walk → Outcome Error (List Key)
  list_populated_keys store prefix committed walk = do
    key_paths ← find_populated_key_paths store data_type prefix committed walk
    ok (collect_set same_key (map (λ (kp : KeyPath). kp.data_key) key_paths))
