-- ===== src/Datastore/Memory.antt =====
-- sources/api/datastore/src/memory.rs and the default methods of the trait `DataStore` in lib.rs, as
-- the store in memory has them, with the outcome of a constraint check from constraints_check.rs.
pub mod Reads
pub mod Commits
pub mod Inherits
pub mod MetadataPrefix
use bottlerocket_core_kit.Prelude.{
  ℕ, Bool, true, false, not, ◌&&◌, Option, none, some, List, [], ◌∷◌, ◌++◌, String, ◌==◌,
  if◌then◌else◌, filter_by,
}
use bottlerocket_core_kit.Prelude.Outcome.{Outcome, ok, err, panic, ◌>>=◌, ◌>>◌, context}
use bottlerocket_core_kit.Datastore.Error.{
  Error, listed_key_not_present, listed_meta_not_present, constraint_check_reject,
}
use bottlerocket_core_kit.Prelude.HashMap.{HashMap, EqTest, name_eq, get, put, remove, map_keys}
use bottlerocket_core_kit.Datastore.KeyMap.{key_eq}
use bottlerocket_core_kit.Datastore.Key.{Key, data_type, from_segments}
use bottlerocket_core_kit.Prelude.Text.{Text, text_eq, is_empty}

abbrev pub Dataset : Type 0
Dataset = HashMap Key String

pub data Committed : Type 0 where
  live_data : Committed
  pending_data : String → Committed

pub record MemoryDataStore : Type 0 where
  pub pending : HashMap String Dataset
  pub live : Dataset
  pub metadata : HashMap Key Dataset
  pub pending_metadata : HashMap Key Dataset

pub record ApprovedWrite : Type 0 where
  pub settings : Dataset
  pub approved_metadata : List (Key × Key × String)

pub data ConstraintCheckResult : Type 0 where
  reject : String → ConstraintCheckResult
  approve : ApprovedWrite → ConstraintCheckResult

-- `MemoryDataStore::new`
abbrev pub new_store : MemoryDataStore
new_store = record { pending = []; live = []; metadata = []; pending_metadata = [] }

-- `unwrap_or(&empty)`, `or_default`
abbrev pub or_default {ℓ} : {A : Type ℓ} → Option (List A) → List A
or_default none = []
or_default (some l) = l

abbrev pub is_some {ℓ} : {A : Type ℓ} → Option A → Bool
is_some none = false
is_some (some _) = true

unfoldable pub dataset : MemoryDataStore → Committed → Option Dataset
dataset s live_data = some s.live
dataset s (pending_data tx) = get tx s.pending

-- A change of what `dataset_mut` returns; a pending transaction that is not there is made.
unfoldable pub dataset_mut : (Dataset → Dataset) → MemoryDataStore → Committed → MemoryDataStore
dataset_mut change s live_data = record s { live = change s.live }
dataset_mut change s (pending_data tx) = record s {
  pending = put tx (change (or_default (get tx s.pending))) s.pending;
}

abbrev pub starts_with : Text → Text → Bool
starts_with [] s = true
starts_with (_ ∷ _) [] = false
starts_with (a ∷ p) (b ∷ s) = (a == b) && starts_with p s

unfoldable pub list_populated_keys : MemoryDataStore → Text → Committed → List Key
unfolding dataset
list_populated_keys s prefix committed =
    filter_by (λ (k : Key). starts_with prefix k.name) (map_keys (or_default (dataset s committed)))

unfoldable pub get_key : MemoryDataStore → Key → Committed → Option String
unfolding dataset
get_key s key committed = get key (or_default (dataset s committed))

unfoldable pub set_key : MemoryDataStore → Key → String → Committed → MemoryDataStore
unfolding dataset_mut
set_key s key value committed = dataset_mut (put key value) s committed

unfoldable pub unset_key : MemoryDataStore → Key → Committed → MemoryDataStore
unfolding dataset_mut
unset_key s key committed = dataset_mut (remove key) s committed

unfoldable pub key_populated : MemoryDataStore → Key → Committed → Bool
unfolding dataset
key_populated s key committed = is_some (get key (or_default (dataset s committed)))

unfoldable pub metadata_to_use : MemoryDataStore → Committed → HashMap Key Dataset
metadata_to_use s live_data = s.metadata
metadata_to_use s (pending_data _) = s.pending_metadata

unfoldable pub get_metadata_raw : MemoryDataStore → Key → Key → Committed → Option String
unfolding metadata_to_use
get_metadata_raw s metadata_key data_key committed =
    elim (get data_key (metadata_to_use s committed)) [ none ↦ none | some m ↦ get metadata_key m ]

unfoldable pub set_metadata_raw : HashMap Key Dataset → Key → Key → String → HashMap Key Dataset
set_metadata_raw m metadata_key data_key value =
    put data_key (put metadata_key value (or_default (get data_key m))) m

unfoldable pub set_metadata : MemoryDataStore → Key → Key → String → Committed → MemoryDataStore
unfolding set_metadata_raw
set_metadata s metadata_key data_key value live_data = record s {
  metadata = set_metadata_raw s.metadata metadata_key data_key value;
}
set_metadata s metadata_key data_key value (pending_data _) = record s {
  pending_metadata = set_metadata_raw s.pending_metadata metadata_key data_key value;
}

unfoldable pub unset_metadata : MemoryDataStore → Key → Key → MemoryDataStore
unset_metadata s metadata_key data_key = elim (get data_key s.metadata) [
  | none ↦ s
  | some m ↦ record s { metadata = put data_key (remove metadata_key m) s.metadata }
]

-- The names of the metadata of one data key that are asked for.
abbrev pub is_wanted : Option Text → Key → Bool
is_wanted none k = true
is_wanted (some name) k = text_eq name k.name

unfoldable pub list_populated_metadata :
    MemoryDataStore → Text → Committed → Option Text → HashMap Key (List Key)
unfolding metadata_to_use
list_populated_metadata s prefix committed metadata_key_name = go (metadata_to_use s committed)
  where
    go : HashMap Key Dataset → HashMap Key (List Key)
    go [] = []
    go ((data_key, meta_map) ∷ rest) =
        let later = go rest in
        let wanted = filter_by (is_wanted metadata_key_name) (map_keys meta_map) in
        if not (starts_with prefix data_key.name)
        then later
        else if is_empty wanted
        then later
        else (data_key, wanted) ∷ later

-- The default methods of the trait.
unfoldable pub set_keys : MemoryDataStore → Dataset → Committed → MemoryDataStore
set_keys s [] committed = s
set_keys s ((key, value) ∷ rest) committed = set_keys (set_key s key value committed) rest committed

unfoldable pub unset_keys : MemoryDataStore → List Key → Committed → MemoryDataStore
unset_keys s [] committed = s
unset_keys s (key ∷ rest) committed = unset_keys (unset_key s key committed) rest committed

unfoldable pub get_listed : MemoryDataStore → Committed → List Key → Outcome Error Dataset
get_listed s committed [] = ok []
get_listed s committed (key ∷ rest) = do
  value ← context (listed_key_not_present key.name) (get_key s key committed)
  others ← get_listed s committed rest
  ok ((key, value) ∷ others)

unfoldable pub get_prefix : MemoryDataStore → Text → Committed → Outcome Error Dataset
unfolding get_listed
get_prefix s find_prefix committed =
    get_listed s committed (list_populated_keys s find_prefix committed)

-- `unwrap_or_else(|_| unreachable!(..))`
abbrev pub or_unreachable {ℓ} : {E A : Type ℓ} → Outcome E A → Outcome E A
or_unreachable (ok a) = ok a
or_unreachable (err e) = panic
or_unreachable panic = panic

-- The loop over the segments of the data key; `current_path` is what went before.
unfoldable pub get_metadata_loop :
    MemoryDataStore
    → Key
    → Committed
    → List Text
    → List Text
    → Option String
    → Outcome Error (Option String)
get_metadata_loop s metadata_key committed current_path [] result = ok result
get_metadata_loop s metadata_key committed current_path (component ∷ rest) result = do
  data_key ← or_unreachable (from_segments data_type (current_path ++ component ∷ []))
  get_metadata_loop s metadata_key committed (current_path ++ component ∷ []) rest
      (elim (get_metadata_raw s metadata_key data_key committed) [
        | some md ↦ some md
        | none ↦ result
      ])

unfoldable pub get_metadata :
    MemoryDataStore → Key → Key → Committed → Outcome Error (Option String)
unfolding get_metadata_loop
get_metadata s metadata_key data_key committed =
    get_metadata_loop s metadata_key committed [] data_key.segments none

-- The constraint check changes the store that it is given and may fail.
abbrev pub Check : Type 0
Check = MemoryDataStore → Committed → MemoryDataStore × Option ConstraintCheckResult

-- `unwrap_or(Reject(..))`
abbrev pub or_rejected : Option ConstraintCheckResult → ConstraintCheckResult
or_rejected (some result) = result
or_rejected none = reject "Check constraint function rejected the transaction. Aborting commit"

-- `ApprovedWrite::try_from`
abbrev pub try_from : ConstraintCheckResult → Outcome Error ApprovedWrite
try_from (reject e) = err (constraint_check_reject e)
try_from (approve w) = ok w

unfoldable pub apply_settings : MemoryDataStore → Dataset → MemoryDataStore × List Key
unfolding set_keys
apply_settings s settings =
    if not (is_empty settings) then (set_keys s settings live_data, map_keys settings) else (s, [])

-- What follows the constraint check.
unfoldable pub finish_commit :
    String
    → MemoryDataStore × Option ConstraintCheckResult
    → MemoryDataStore × Outcome Error (List Key)
unfolding apply_settings
finish_commit tx (s, answer) = elim (try_from (or_rejected answer)) [
  | ok approved_write ↦
      let (s, pending_keys) = apply_settings s approved_write.settings in
      (record s { pending = remove tx s.pending }, ok pending_keys)
  | err e ↦ (s, err e)
  | panic ↦ (s, panic)
]

unfoldable pub commit_transaction :
    MemoryDataStore → String → Check → MemoryDataStore × Outcome Error (List Key)
unfolding finish_commit
commit_transaction s tx constraint_check = finish_commit tx (constraint_check s (pending_data tx))

unfoldable pub delete_transaction : MemoryDataStore → String → MemoryDataStore × List Key
delete_transaction s tx = (
  record s { pending = remove tx s.pending },
  elim (get tx s.pending) [ some removed ↦ map_keys removed | none ↦ [] ],
)

unfoldable pub list_transactions : MemoryDataStore → List String
list_transactions s = map_keys s.pending
