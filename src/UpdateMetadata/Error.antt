-- ===== src/UpdateMetadata/Error.antt =====
-- sources/updater/update_metadata/src/error.rs: the variants that the modelled functions return.
use bottlerocket_core_kit.Prelude.{ℕ, String}

pub data Error (Version : Type 0) : Type 0 where
  waves_unordered : Error Version
  invalid_fleet_percentage : ℕ → Error Version
  bad_offset : String → Error Version
  missing_migration : Version → Version → Error Version
