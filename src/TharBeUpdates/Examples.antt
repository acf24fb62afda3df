-- ===== src/TharBeUpdates/Examples.antt =====
-- A host that finds an update, prepares it and activates it, and the theorem about its status.
use bottlerocket_core_kit.Prelude.{ℕ, ◌≡◌, refl, true, none, some, [], ◌∷◌, String}
use bottlerocket_core_kit.Prelude.Order.{nat_ord}
use bottlerocket_core_kit.Prelude.Outcome.{ok}
use bottlerocket_core_kit.Signpost.Set.{set_a}
use bottlerocket_core_kit.TharBeUpdates.Machine.{
  Environment, refresh, prepare, activate, drive_state_machine, initialize_update_status,
}
use bottlerocket_core_kit.TharBeUpdates.Machine.Consistent.{IsConsistent}
use bottlerocket_core_kit.TharBeUpdates.Machine.Reachable.{initial, run, reachable-IsConsistent}
use bottlerocket_core_kit.TharBeUpdates.Status.{
  UpdateStatus, UpdateImage, refresh_command, prepare_command, activate_command, idle, ready,
  set_recent_command_info, set_staging_partition_image_info, mark_staging_partition_next_to_boot,
  update_available_updates, update_active_partition_info,
}
use bottlerocket_core_kit.UpdateMetadata.Manifest.{Update}

abbrev os : UpdateImage ℕ
os = record { arch = "x86_64"; version = 1; variant = "metal" }

abbrev update : Update ℕ ℕ
update = record {
  variant = "metal";
  arch = "x86_64";
  version = 2;
  max_version = 2;
  waves = [];
  images = record { boot = "boot"; root = "root"; hash = "hash" };
}

abbrev env : Environment ℕ ℕ String
env = record {
  forks = true;
  output =
      some (record { code = some 0; signal = none; updates = some (update ∷ []); errors = "" });
  now = 5;
  settings = record {
    release = some os;
    version_lock = some (some "latest");
    is_latest = λ _. true;
    semver = λ _. none;
  };
}

abbrev begun : UpdateStatus ℕ ℕ
begun = record {
  update_state = idle;
  available_updates = [];
  chosen_update = none;
  active_partition = some (record { image = os; next_to_boot = true });
  staging_partition = none;
  most_recent_command = none;
}

begun_well :
    initialize_update_status {V = ℕ} {Time = ℕ} (some os) (some (set_a, some set_a)) ≡ ok begun
unfolding initialize_update_status update_active_partition_info
begun_well = refl

abbrev refreshed : UpdateStatus ℕ ℕ
refreshed = (drive_state_machine env refresh_command begun).0

abbrev prepared : UpdateStatus ℕ ℕ
prepared = (drive_state_machine env prepare_command refreshed).0

abbrev activated : UpdateStatus ℕ ℕ
activated = (drive_state_machine env activate_command prepared).0

arrives : activated.update_state ≡ ready
unfolding drive_state_machine refresh prepare activate set_recent_command_info
    set_staging_partition_image_info mark_staging_partition_next_to_boot update_available_updates
arrives = refl

reachable-IsConsistent_example : IsConsistent activated
reachable-IsConsistent_example = reachable-IsConsistent String (
    run env activate_command
      (run env prepare_command
        (run env refresh_command (initial (some os) (some (set_a, some set_a)) begun_well) refl)
        refl)
      refl)
