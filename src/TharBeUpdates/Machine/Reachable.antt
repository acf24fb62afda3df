-- ===== src/TharBeUpdates/Machine/Reachable.antt =====
-- What holds of every status that commands can lead to.
use bottlerocket_core_kit.Prelude.{
  ◌≡◌, refl, sym, subst, inl, inr, Bool, true, false, not, Option, none, some, [], Bool-cases,
  arith,
}
use bottlerocket_core_kit.Prelude.Order.{Ord}
use bottlerocket_core_kit.Prelude.Outcome.{Outcome, ok}
use bottlerocket_core_kit.Signpost.Set.{SetSelect, same_select}
use bottlerocket_core_kit.TharBeUpdates.Machine.{
  Environment, prepare_chosen, prepare_output, activate_output, deactivate_output, refresh, prepare,
  activate, deactivate, ensure_some, then_state, transition, drive_state_machine,
  initialize_update_status,
}
use bottlerocket_core_kit.TharBeUpdates.Status.{
  UpdateState, idle, available, staged, ready, UpdateCommand, refresh_command, prepare_command,
  activate_command, deactivate_command, Error, UpdateImage, StagedImage, UpdateStatus, Output,
  output_success, update_active_partition_info, set_staging_partition_image_info, set_next_to_boot,
  mark_staging_partition_next_to_boot, unmark_staging_partition_next_to_boot,
  set_recent_command_info,
}
use bottlerocket_core_kit.UpdateMetadata.Manifest.{Update}
use bottlerocket_core_kit.TharBeUpdates.Machine.Refreshes.{
  Refreshed, forked-holds, run_updog-holds, refresh-Refreshed,
}
use bottlerocket_core_kit.TharBeUpdates.Machine.Consistent.{
  Consistent, IsConsistent, running_of, after_refresh, refresh_staged, refresh_ready, idle_after,
}

module _ {V Time : Type 0} where
  -- The two flags are set where both images are known.
  set_next_to_boot-ok :
      (b : Bool) (s : UpdateStatus V Time) (i r : StagedImage V)
      → s.staging_partition ≡ some i
      → s.active_partition ≡ some r
      → set_next_to_boot b s ≡ (
        record s {
          staging_partition = some (record i { next_to_boot = b });
          active_partition = some (record r { next_to_boot = not b });
        },
        ok tt,
      )
  unfolding set_next_to_boot
  set_next_to_boot-ok b s i r h k = ground (arith, h, k)

module _ {V Time Friendly : Type 0} ⦃o : Ord V⦄ (env : Environment V Time Friendly)
    (s : UpdateStatus V Time) (h : IsConsistent s) where
  prepared_output :
      (image : UpdateImage V) (out : Output (Update V Time))
      → IsConsistent (then_state (λ _. staged) (prepare_output env image out s)).0
  unfolding prepare_output set_recent_command_info set_staging_partition_image_info
  prepared_output image out =
      let (r, running) =
        running_of s.update_state s.chosen_update s.active_partition s.staging_partition h in
      elim (Bool-cases (output_success out.code)) [
        | inl fine ↦ rw (fine, running) refl
        | inr failing ↦ rw failing h
      ]

  prepared :
      (c : Option (UpdateImage V))
      → IsConsistent (then_state (λ _. staged) (prepare_chosen env c s)).0
  unfolding prepare_chosen
  prepared none = h
  prepared (some image) =
      run_updog-holds (λ r. IsConsistent (then_state (λ _. staged) r).0) s (λ e. h) env.output
        (prepare_output env image) (prepared_output image)

  after_prepare : IsConsistent (then_state (λ _. staged) (prepare env s)).0
  unfolding prepare
  after_prepare =
      forked-holds (λ r. IsConsistent (then_state (λ _. staged) r).0) s (λ e. h) env.forks _
        (prepared s.chosen_update)

  module _ (i : StagedImage V) (known : s.staging_partition ≡ some i) where
    activated_output :
        (out : Output (Update V Time))
        → IsConsistent (then_state (λ _. ready) (activate_output env out s)).0
    unfolding activate_output set_recent_command_info mark_staging_partition_next_to_boot
    activated_output out =
        let (r, running) =
          running_of s.update_state s.chosen_update s.active_partition s.staging_partition h in
        let s' = set_recent_command_info activate_command env.now out s in
        elim (Bool-cases (output_success out.code)) [
          | inl fine ↦ rw fine (
              subst (λ q. IsConsistent (then_state (λ _. ready) q).0)
                (sym (set_next_to_boot-ok true s' i r known running)) (refl, refl))
          | inr failing ↦ rw failing h
        ]

    after_activate : IsConsistent (then_state (λ _. ready) (activate env s)).0
    unfolding activate
    after_activate =
        forked-holds (λ r. IsConsistent (then_state (λ _. ready) r).0) s (λ e. h) env.forks _
          (run_updog-holds (λ r. IsConsistent (then_state (λ _. ready) r).0) s (λ e. h) env.output
            (activate_output env) activated_output)

    deactivated_output :
        (out : Output (Update V Time))
        → IsConsistent (then_state (λ _. staged) (deactivate_output env out s)).0
    unfolding deactivate_output set_recent_command_info unmark_staging_partition_next_to_boot
    deactivated_output out =
        let (r, running) =
          running_of s.update_state s.chosen_update s.active_partition s.staging_partition h in
        let s' = set_recent_command_info deactivate_command env.now out s in
        elim (Bool-cases (output_success out.code)) [
          | inl fine ↦ rw fine (
              subst (λ q. IsConsistent (then_state (λ _. staged) q).0)
                (sym (set_next_to_boot-ok false s' i r known running)) refl)
          | inr failing ↦ rw failing h
        ]

    after_deactivate : IsConsistent (then_state (λ _. staged) (deactivate env s)).0
    unfolding deactivate
    after_deactivate =
        forked-holds (λ r. IsConsistent (then_state (λ _. staged) r).0) s (λ e. h) env.forks _
          (run_updog-holds (λ r. IsConsistent (then_state (λ _. staged) r).0) s (λ e. h) env.output
            (deactivate_output env) deactivated_output)

  -- The checks of the staged image and of the chosen update before a command is run.
  if_image :
      (r : UpdateStatus V Time × Outcome Error (Unit {0})) (e : Error)
      → ((i : StagedImage V) → s.staging_partition ≡ some i → IsConsistent r.0)
      → (p : Option (StagedImage V)) → s.staging_partition ≡ p
      → IsConsistent (ensure_some p e s r).0
  if_image r e run none known = h
  if_image r e run (some i) known = run i known

  if_chosen :
      (r : UpdateStatus V Time × Outcome Error (Unit {0})) (e : Error)
      → IsConsistent r.0
      → (c : Option (UpdateImage V)) → IsConsistent (ensure_some c e s r).0
  if_chosen r e run none = h
  if_chosen r e run (some _) = run

  in_state :
      (st : UpdateState)
      → s.update_state ≡ st
      → Consistent st s.chosen_update s.active_partition s.staging_partition
  in_state st e =
      subst (λ x. Consistent x s.chosen_update s.active_partition s.staging_partition) e h

  refresh_in :
      (st : UpdateState)
      → s.update_state ≡ st
      → Refreshed st s.chosen_update s.active_partition s.staging_partition (refresh env s)
  refresh_in st e =
      subst
        (λ x. Refreshed x s.chosen_update s.active_partition s.staging_partition (refresh env s)) e
        (refresh-Refreshed env s)

  transition-IsConsistent :
      (op : UpdateCommand) (st : UpdateState)
      → s.update_state ≡ st
      → IsConsistent (transition env s op st).0
  unfolding transition
  transition-IsConsistent refresh_command idle e =
      after_refresh idle _ _ _ (refresh env s) (refresh_in idle e) (in_state idle e)
        (in_state idle e)
  transition-IsConsistent refresh_command available e =
      after_refresh available _ _ _ (refresh env s) (refresh_in available e) (in_state available e)
        (idle_after s.chosen_update s.chosen_update s.active_partition s.staging_partition
          (in_state available e))
  transition-IsConsistent refresh_command staged e =
      refresh_staged _ _ _ (refresh env s) (refresh_in staged e) (in_state staged e)
  transition-IsConsistent refresh_command ready e =
      refresh_ready _ _ _ (refresh env s) (refresh_in ready e) (in_state ready e)
  transition-IsConsistent prepare_command idle e = h
  transition-IsConsistent prepare_command available e = if_chosen _ _ after_prepare s.chosen_update
  transition-IsConsistent prepare_command staged e = if_chosen _ _ after_prepare s.chosen_update
  transition-IsConsistent prepare_command ready e = h
  transition-IsConsistent activate_command idle e = h
  transition-IsConsistent activate_command available e = h
  transition-IsConsistent activate_command staged e =
      if_image _ _ after_activate s.staging_partition refl
  transition-IsConsistent activate_command ready e = h
  transition-IsConsistent deactivate_command idle e = h
  transition-IsConsistent deactivate_command available e = h
  transition-IsConsistent deactivate_command staged e = h
  transition-IsConsistent deactivate_command ready e =
      if_image _ _ after_deactivate s.staging_partition refl

module _ {V Time : Type 0} where
  initialize-IsConsistent :
      (release : Option (UpdateImage V)) (sets : Option (SetSelect × Option SetSelect))
      (s : UpdateStatus V Time)
      → initialize_update_status release sets ≡ ok s
      → IsConsistent s
  unfolding initialize_update_status update_active_partition_info
  initialize-IsConsistent none sets s h = cc
  initialize-IsConsistent (some os) none s h = cc
  initialize-IsConsistent (some os) (some (active, none)) s h = cc
  initialize-IsConsistent (some os) (some (active, some next)) s h =
      let e : record {
        update_state = idle;
        available_updates = [];
        chosen_update = none;
        active_partition = some (record { image = os; next_to_boot = same_select active next });
        staging_partition = none;
        most_recent_command = none;
      }
          ≡ s =
        cc in
      subst IsConsistent e tt

module _ {V Time : Type 0} (Friendly : Type 0) ⦃o : Ord V⦄ where
  -- The statuses that are written, one run after the other; a run that fails writes its status too.
  pub data Reachable : UpdateStatus V Time → Type 0 where
    initial :
        (release : Option (UpdateImage V)) (sets : Option (SetSelect × Option SetSelect))
        {s : UpdateStatus V Time}
        → initialize_update_status release sets ≡ ok s
        → Reachable s
    run :
        (env : Environment V Time Friendly) (op : UpdateCommand) {s t : UpdateStatus V Time}
        → Reachable s
        → (drive_state_machine env op s).0 ≡ t
        → Reachable t

  -- In every status that runs of commands lead to from the initial one, whether they succeed or
  -- fail: the running image is known; where the state is available, an update is chosen; an image is
  -- staged in the states staged and ready and in no other; it is marked as next to boot in the state
  -- ready and not in the state staged; and in the state ready the running image is not so marked.
  pub reachable-IsConsistent : {s : UpdateStatus V Time} → Reachable s → IsConsistent s
  unfolding drive_state_machine
  reachable-IsConsistent (initial release sets {s} e) = initialize-IsConsistent release sets s e
  reachable-IsConsistent (run env op {s} {t} before e) =
      subst IsConsistent e
        (transition-IsConsistent env s (reachable-IsConsistent before) op s.update_state refl)
