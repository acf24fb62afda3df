-- ===== src/Signpost/Error.antt =====
-- sources/updater/signpost/src/error.rs: the variants of `Error`, without the sources of the ones
-- that wrap an error of the system.
use bottlerocket_core_kit.Prelude.{ℕ, Bool, String, List}
use bottlerocket_core_kit.Signpost.Set.{PartitionSet, SetSelect}

pub data Error : Type 0 where
  active_not_in_set : String → List PartitionSet → Error
  block_device_from_path : Error
  convert_vec : Error
  disk_from_partition : Error
  partition_from_disk : Error
  gpt_find : String → Error
  gpt_write : String → Error
  inactive_already_marked : String → Error
  inactive_not_available : String → Error
  inactive_not_valid : String → Error
  inactive_invalid_rollback : ℕ → ℕ → Bool → Error
  open_failed : String → String → Error
  partition_missing_from_set : SetSelect → Error
  partition_not_found_on_device : ℕ → String → Error
  root_has_no_lower_devices : Error
  root_lower_devices : Error
  root_not_partition : Error
