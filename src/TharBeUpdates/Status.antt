-- ===== src/TharBeUpdates/Status.antt =====
-- sources/api/thar-be-updates/src/status.rs: the status of an update, as it is stored, and its
-- changes. A method that changes the status and may fail returns the status as it is left, beside
-- the result.
use bottlerocket_core_kit.Prelude.{
  ℕ, Bool, true, false, not, ◌||◌, Option, none, some, List, [], map, String, ◌==◌, if◌then◌else◌,
  find_by,
}
use bottlerocket_core_kit.Prelude.Order.{Ord, eqb, before}
use bottlerocket_core_kit.Prelude.Outcome.{Outcome, ok, err}
use bottlerocket_core_kit.Signpost.Set.{SetSelect, same_select}
use bottlerocket_core_kit.UpdateMetadata.Manifest.{Update}

pub data UpdateState : Type 0 where
  idle available staged ready : UpdateState

pub data UpdateCommand : Type 0 where
  refresh_command prepare_command activate_command deactivate_command : UpdateCommand

pub data CommandStatus : Type 0 where
  success failed unknown : CommandStatus

-- The variants of error.rs that the modelled functions return; `read_config` is a settings file that
-- cannot be read, or cannot be parsed, which error.rs has as `Deserialization`.
pub data Error : Type 0 where
  release_version partition_table_read none_set_to_boot : Error
  staging_partition_missing active_partition_missing update_does_not_exist : Error
  read_config get_setting_option sem_ver fork_failed updog update_info : Error
  prepare_update activate_update deactivate_update : Error
  disallow_command : UpdateCommand → UpdateState → Error

pub record UpdateImage (V : Type 0) : Type 0 where
  pub arch : String
  pub version : V
  pub variant : String

pub record StagedImage (V : Type 0) : Type 0 where
  pub image : UpdateImage V
  pub next_to_boot : Bool

pub record CommandResult (Time : Type 0) : Type 0 where
  pub cmd_type : UpdateCommand
  pub cmd_status : CommandStatus
  pub timestamp : Time
  pub exit_status : Option ℕ
  pub stderr : Option String

pub record UpdateStatus (V Time : Type 0) : Type 0 where
  pub update_state : UpdateState
  pub available_updates : List V
  pub chosen_update : Option (UpdateImage V)
  pub active_partition : Option (StagedImage V)
  pub staging_partition : Option (StagedImage V)
  pub most_recent_command : Option (CommandResult Time)

-- `std::process::Output` of an `updog` that ended: the exit code, or the signal that ended it, the
-- updates that its standard output parses to, and its standard error.
pub record Output (U : Type 0) : Type 0 where
  pub code : Option ℕ
  pub signal : Option ℕ
  pub updates : Option (List U)
  pub errors : String

-- `status.success()`: the code is 0.
abbrev pub output_success : Option ℕ → Bool
output_success none = false
output_success (some c) = c == 0

abbrev pub exit_code : Option ℕ → Option ℕ → ℕ
exit_code (some code) _ = code
exit_code none (some signal) = signal
exit_code none none = 1

module _ {V Time : Type 0} where
  -- `UpdateStatus::new`
  abbrev pub new_status : UpdateStatus V Time
  new_status = record {
    update_state = idle;
    available_updates = [];
    chosen_update = none;
    active_partition = none;
    staging_partition = none;
    most_recent_command = none;
  }

  -- The release of the running system, what `State::load` finds active, and what it finds next: the
  -- outer `none` is a failed load, the inner one that there is no set to boot.
  unfoldable pub update_active_partition_info :
      Option (UpdateImage V)
      → Option (SetSelect × Option SetSelect)
      → UpdateStatus V Time
      → UpdateStatus V Time × Outcome Error (Unit {0})
  update_active_partition_info none _ s = (s, err release_version)
  update_active_partition_info (some os) none s = (s, err partition_table_read)
  update_active_partition_info (some os) (some (active_set, none)) s = (s, err none_set_to_boot)
  update_active_partition_info (some os) (some (active_set, some next_set)) s = (
    record s {
      active_partition =
          some (record { image = os; next_to_boot = same_select active_set next_set });
    },
    ok tt,
  )

  unfoldable pub set_staging_partition_image_info :
      UpdateImage V → UpdateStatus V Time → UpdateStatus V Time
  set_staging_partition_image_info image s = record s {
    staging_partition = some (record { image = image; next_to_boot = false });
  }

  -- The staging partition is set to `b` before the active one is looked for.
  unfoldable pub set_next_to_boot :
      Bool → UpdateStatus V Time → UpdateStatus V Time × Outcome Error (Unit {0})
  set_next_to_boot b s = elim s.staging_partition [
    | none ↦ (s, err staging_partition_missing)
    | some staging ↦
        let s' = record s { staging_partition = some (record staging { next_to_boot = b }) } in
        elim s.active_partition [
          | none ↦ (s', err active_partition_missing)
          | some active ↦ (
            record s' { active_partition = some (record active { next_to_boot = not b }) },
            ok tt,
          )
        ]
  ]

  unfoldable pub mark_staging_partition_next_to_boot :
      UpdateStatus V Time → UpdateStatus V Time × Outcome Error (Unit {0})
  unfolding set_next_to_boot
  mark_staging_partition_next_to_boot s = set_next_to_boot true s

  unfoldable pub unmark_staging_partition_next_to_boot :
      UpdateStatus V Time → UpdateStatus V Time × Outcome Error (Unit {0})
  unfolding set_next_to_boot
  unmark_staging_partition_next_to_boot s = set_next_to_boot false s

  unfoldable pub set_recent_command_info :
      {U : Type 0} → UpdateCommand → Time → Output U → UpdateStatus V Time → UpdateStatus V Time
  set_recent_command_info cmd_type now output s =
      let exit_status = exit_code output.code output.signal in
      record s {
        most_recent_command = some (record {
          cmd_type = cmd_type;
          cmd_status = if exit_status == 0 then success else failed;
          timestamp = now;
          exit_status = some exit_status;
          stderr = some output.errors;
        });
      }

module _ {V Time : Type 0} where
  abbrev pub image_of : Update V Time → UpdateImage V
  image_of u = record { arch = u.arch; version = u.version; variant = u.variant }

module _ {V Time : Type 0} ⦃o : Ord V⦄ where
  -- `get_latest_update`, once the release is read.
  unfoldable pub get_latest_update : UpdateImage V → List (Update V Time) → Option (Update V Time)
  get_latest_update os updates =
      find_by (λ u. before os.version u.version || before u.max_version os.version) updates

-- What `update_available_updates` reads: the release, the settings file and its `version-lock`,
-- whether that is "latest", and the version that it is otherwise.
pub record Settings (V Friendly : Type 0) : Type 0 where
  pub release : Option (UpdateImage V)
  pub version_lock : Option (Option Friendly)
  pub is_latest : Friendly → Bool
  pub semver : Friendly → Option V

module _ {V Time : Type 0} where
  -- `chosen_update` and the answer, where the search is over.
  unfoldable pub set_chosen :
      Option (UpdateImage V) → UpdateStatus V Time → UpdateStatus V Time × Outcome Error Bool
  set_chosen (some c) s = (record s { chosen_update = some c }, ok true)
  set_chosen none s = (record s { chosen_update = none }, ok false)

  abbrev pub found_image : Option (Update V Time) → Option (UpdateImage V)
  found_image none = none
  found_image (some u) = some (image_of u)

module _ {V Time : Type 0} ⦃o : Ord V⦄ where
  -- By the release of the running system.
  unfoldable pub choose_latest :
      Option (UpdateImage V)
      → List (Update V Time)
      → UpdateStatus V Time
      → UpdateStatus V Time × Outcome Error Bool
  unfolding set_chosen get_latest_update
  choose_latest none updates s = (s, err release_version)
  choose_latest (some os) updates s = set_chosen (found_image (get_latest_update os updates)) s

  -- By the version that the lock names and the release; the image has the chosen version, which is
  -- the update's.
  unfoldable pub choose_locked :
      Option V
      → Option (UpdateImage V)
      → List (Update V Time)
      → UpdateStatus V Time
      → UpdateStatus V Time × Outcome Error Bool
  unfolding set_chosen
  choose_locked none release updates s = (s, err sem_ver)
  choose_locked (some chosen_version) none updates s = (s, err release_version)
  choose_locked (some chosen_version) (some os) updates s =
      let found = find_by (λ (u : Update V Time). eqb u.version chosen_version) updates in
      set_chosen
        (if eqb chosen_version os.version then none else elim found [
          | none ↦ none
          | some u ↦ some (record { arch = u.arch; version = chosen_version; variant = u.variant })
        ])
        s

module _ {V Time Friendly : Type 0} ⦃o : Ord V⦄ where
  -- By the `version-lock` that is read.
  unfoldable pub choose_update :
      Settings V Friendly
      → Option (Option Friendly)
      → List (Update V Time)
      → UpdateStatus V Time
      → UpdateStatus V Time × Outcome Error Bool
  unfolding choose_latest choose_locked
  choose_update env none updates s = (s, err read_config)
  choose_update env (some none) updates s = (s, err get_setting_option)
  choose_update env (some (some locked_version)) updates s =
      if env.is_latest locked_version
      then choose_latest env.release updates s
      else choose_locked (env.semver locked_version) env.release updates s

  unfoldable pub update_available_updates :
      Settings V Friendly
      → List (Update V Time)
      → UpdateStatus V Time
      → UpdateStatus V Time × Outcome Error Bool
  unfolding choose_update
  update_available_updates env updates s =
      choose_update env env.version_lock updates
        (record s { available_updates = map (λ (u : Update V Time). u.version) updates })
