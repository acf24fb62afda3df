-- ===== src/TharBeUpdates/Machine.antt =====
-- sources/api/thar-be-updates/src/main.rs: the commands and the state machine that they drive. The
-- parent process exits after a fork, so that what is modelled is the child.
mod Refreshes
pub mod Consistent
pub mod Reachable
use bottlerocket_core_kit.Prelude.{ℕ, Bool, true, false, Option, none, some, List, if◌then◌else◌}
use bottlerocket_core_kit.Prelude.Order.{Ord}
use bottlerocket_core_kit.Prelude.Outcome.{Outcome, ok, err, panic}
use bottlerocket_core_kit.Signpost.Set.{SetSelect}
use bottlerocket_core_kit.TharBeUpdates.Status.{
  UpdateState, idle, available, staged, ready, UpdateCommand, refresh_command, prepare_command,
  activate_command, deactivate_command, Error, staging_partition_missing, update_does_not_exist,
  fork_failed, updog, update_info, prepare_update, activate_update, deactivate_update,
  disallow_command, UpdateImage, UpdateStatus, Output, output_success, Settings, new_status,
  update_active_partition_info, set_staging_partition_image_info,
  mark_staging_partition_next_to_boot, unmark_staging_partition_next_to_boot,
  set_recent_command_info, update_available_updates,
}
use bottlerocket_core_kit.UpdateMetadata.Manifest.{Update}

-- What a run meets: whether it can fork, the output of `updog` if it could be started, the clock,
-- and what is read for a refresh.
pub record Environment (V Time Friendly : Type 0) : Type 0 where
  pub forks : Bool
  pub output : Option (Output (Update V Time))
  pub now : Time
  pub settings : Settings V Friendly

abbrev pub available_or_idle : Bool → UpdateState
available_or_idle true = available
available_or_idle false = idle

module _ {V Time : Type 0} where
  -- `ensure!(.. .is_some(), ..)` before what follows.
  abbrev pub ensure_some :
      {A B : Type 0}
      → Option A
      → Error
      → UpdateStatus V Time
      → UpdateStatus V Time × Outcome Error B
      → UpdateStatus V Time × Outcome Error B
  ensure_some none e s rest = (s, err e)
  ensure_some (some _) e s rest = rest

  -- `set_update_state(new_state)`, where the command that was run succeeded.
  abbrev pub then_state :
      {A : Type 0}
      → (A → UpdateState)
      → UpdateStatus V Time × Outcome Error A
      → UpdateStatus V Time × Outcome Error (Unit {0})
  then_state new_state (s, ok a) = (record s { update_state = new_state a }, ok tt)
  then_state new_state (s, err e) = (s, err e)
  then_state new_state (s, panic) = (s, panic)

  -- `initialize_update_status`: the status that is written, if its start-up succeeds.
  unfoldable pub initialize_update_status :
      Option (UpdateImage V)
      → Option (SetSelect × Option SetSelect)
      → Outcome Error (UpdateStatus V Time)
  initialize_update_status release sets =
      let (s, result) = update_active_partition_info release sets new_status in
      elim result [ ok _ ↦ ok s | err e ↦ err e | panic ↦ panic ]

module _ {V Time : Type 0} where
  -- `fork_and_return!` around the child's block, and the call of `updog` in it.
  unfoldable pub forked :
      {A : Type 0}
      → Bool
      → UpdateStatus V Time
      → UpdateStatus V Time × Outcome Error A
      → UpdateStatus V Time × Outcome Error A
  forked true s child = child
  forked false s child = (s, err fork_failed)

  unfoldable pub run_updog :
      {A : Type 0}
      → Option (Output (Update V Time))
      → UpdateStatus V Time
      → (Output (Update V Time) → UpdateStatus V Time → UpdateStatus V Time × Outcome Error A)
      → UpdateStatus V Time × Outcome Error A
  run_updog none s then_do = (s, err updog)
  run_updog (some output) s then_do = then_do output s

module _ {V Time Friendly : Type 0} ⦃o : Ord V⦄ where
  -- What the child does with the output of `updog`.
  unfoldable pub read_updates :
      Environment V Time Friendly
      → Option (List (Update V Time))
      → UpdateStatus V Time
      → UpdateStatus V Time × Outcome Error Bool
  read_updates env none s = (s, err update_info)
  read_updates env (some updates) s = update_available_updates env.settings updates s

  unfoldable pub refresh_output :
      Environment V Time Friendly
      → Output (Update V Time)
      → UpdateStatus V Time
      → UpdateStatus V Time × Outcome Error Bool
  unfolding read_updates
  refresh_output env output s =
      let s = set_recent_command_info refresh_command env.now output s in
      if output_success output.code then read_updates env output.updates s else (s, ok false)

  unfoldable pub prepare_output :
      Environment V Time Friendly
      → UpdateImage V
      → Output (Update V Time)
      → UpdateStatus V Time
      → UpdateStatus V Time × Outcome Error (Unit {0})
  prepare_output env chosen_update output s =
      let s = set_recent_command_info prepare_command env.now output s in
      if output_success output.code
      then (set_staging_partition_image_info chosen_update s, ok tt)
      else (s, err prepare_update)

  unfoldable pub activate_output :
      Environment V Time Friendly
      → Output (Update V Time)
      → UpdateStatus V Time
      → UpdateStatus V Time × Outcome Error (Unit {0})
  activate_output env output s =
      let s = set_recent_command_info activate_command env.now output s in
      if output_success output.code
      then mark_staging_partition_next_to_boot s
      else (s, err activate_update)

  unfoldable pub deactivate_output :
      Environment V Time Friendly
      → Output (Update V Time)
      → UpdateStatus V Time
      → UpdateStatus V Time × Outcome Error (Unit {0})
  deactivate_output env output s =
      let s = set_recent_command_info deactivate_command env.now output s in
      if output_success output.code
      then unmark_staging_partition_next_to_boot s
      else (s, err deactivate_update)

  unfoldable pub refresh :
      Environment V Time Friendly → UpdateStatus V Time → UpdateStatus V Time × Outcome Error Bool
  unfolding forked run_updog refresh_output
  refresh env s = forked env.forks s (run_updog env.output s (refresh_output env))

  unfoldable pub prepare_chosen :
      Environment V Time Friendly
      → Option (UpdateImage V)
      → UpdateStatus V Time
      → UpdateStatus V Time × Outcome Error (Unit {0})
  unfolding run_updog prepare_output
  prepare_chosen env none s = (s, err update_does_not_exist)
  prepare_chosen env (some chosen_update) s =
      run_updog env.output s (prepare_output env chosen_update)

  unfoldable pub prepare :
      Environment V Time Friendly
      → UpdateStatus V Time
      → UpdateStatus V Time × Outcome Error (Unit {0})
  unfolding forked prepare_chosen
  prepare env s = forked env.forks s (prepare_chosen env s.chosen_update s)

  unfoldable pub activate :
      Environment V Time Friendly
      → UpdateStatus V Time
      → UpdateStatus V Time × Outcome Error (Unit {0})
  unfolding forked run_updog activate_output
  activate env s = forked env.forks s (run_updog env.output s (activate_output env))

  unfoldable pub deactivate :
      Environment V Time Friendly
      → UpdateStatus V Time
      → UpdateStatus V Time × Outcome Error (Unit {0})
  unfolding forked run_updog deactivate_output
  deactivate env s = forked env.forks s (run_updog env.output s (deactivate_output env))

  -- The match on the command and the state.
  unfoldable pub transition :
      Environment V Time Friendly
      → UpdateStatus V Time
      → UpdateCommand
      → UpdateState
      → UpdateStatus V Time × Outcome Error (Unit {0})
  transition env s refresh_command idle = then_state available_or_idle (refresh env s)
  transition env s refresh_command available = then_state available_or_idle (refresh env s)
  transition env s refresh_command staged = then_state (λ _. staged) (refresh env s)
  transition env s refresh_command ready = then_state (λ _. ready) (refresh env s)
  transition env s prepare_command available =
      ensure_some s.chosen_update update_does_not_exist s (then_state (λ _. staged) (prepare env s))
  transition env s prepare_command staged =
      ensure_some s.chosen_update update_does_not_exist s (then_state (λ _. staged) (prepare env s))
  transition env s activate_command staged =
      ensure_some s.staging_partition staging_partition_missing s
        (then_state (λ _. ready) (activate env s))
  transition env s deactivate_command ready =
      ensure_some s.staging_partition staging_partition_missing s
        (then_state (λ _. staged) (deactivate env s))
  transition env s operation state = (s, err (disallow_command operation state))

  unfoldable pub drive_state_machine :
      Environment V Time Friendly
      → UpdateCommand
      → UpdateStatus V Time
      → UpdateStatus V Time × Outcome Error (Unit {0})
  unfolding transition
  drive_state_machine env operation s = transition env s operation s.update_state
