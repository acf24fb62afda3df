-- ===== src/TharBeUpdates/Machine/Refreshes.antt =====
-- What a refresh leaves as it was.
use bottlerocket_core_kit.Prelude.{
  ◌≡◌, refl, inl, inr, Bool, true, false, Option, none, some, List, Bool-cases,
}
use bottlerocket_core_kit.Prelude.Order.{Ord}
use bottlerocket_core_kit.Prelude.Outcome.{Outcome, ok, err, panic}
use bottlerocket_core_kit.TharBeUpdates.Machine.{
  Environment, forked, run_updog, read_updates, refresh, refresh_output,
}
use bottlerocket_core_kit.TharBeUpdates.Status.{
  UpdateState, Error, UpdateImage, StagedImage, UpdateStatus, Output, output_success, Settings,
  set_recent_command_info, choose_latest, choose_locked, choose_update, set_chosen,
  update_available_updates,
}
use bottlerocket_core_kit.UpdateMetadata.Manifest.{Update}

module _ {V Time : Type 0} where
  -- What a refresh does to the update that is chosen.
  abbrev pub Chosen : Option (UpdateImage V) → UpdateStatus V Time → Outcome Error Bool → Type 0
  Chosen c t (ok true) = (image : UpdateImage V) × (t.chosen_update ≡ some image)
  Chosen c t (ok false) = Unit
  Chosen c t (err e) = t.chosen_update ≡ c
  Chosen c t panic = ⊥

  pub record Refreshed (state : UpdateState) (c : Option (UpdateImage V))
      (a p : Option (StagedImage V)) (r : UpdateStatus V Time × Outcome Error Bool) : Type 0 where
    pub same_state : r.0.update_state ≡ state
    pub same_active : r.0.active_partition ≡ a
    pub same_staging : r.0.staging_partition ≡ p
    pub chosen : Chosen c r.0 r.1

  abbrev pub RefreshedFrom : UpdateStatus V Time → UpdateStatus V Time × Outcome Error Bool → Type 0
  RefreshedFrom s r =
      Refreshed s.update_state s.chosen_update s.active_partition s.staging_partition r

  set_chosen-Refreshed :
      (c : Option (UpdateImage V)) (s : UpdateStatus V Time) → RefreshedFrom s (set_chosen c s)
  unfolding set_chosen
  set_chosen-Refreshed none s = record {
    same_state = refl;
    same_active = refl;
    same_staging = refl;
    chosen = tt;
  }
  set_chosen-Refreshed (some c) s = record {
    same_state = refl;
    same_active = refl;
    same_staging = refl;
    chosen = (c, refl);
  }

  unchanged : (s : UpdateStatus V Time) (e : Error) → RefreshedFrom s (s, err e)
  unchanged s e = record {
    same_state = refl;
    same_active = refl;
    same_staging = refl;
    chosen = refl;
  }

module _ {V Time : Type 0} ⦃o : Ord V⦄ where
  choose_latest-Refreshed :
      (release : Option (UpdateImage V)) (us : List (Update V Time)) (s : UpdateStatus V Time)
      → RefreshedFrom s (choose_latest release us s)
  unfolding choose_latest
  choose_latest-Refreshed none us s = unchanged s _
  choose_latest-Refreshed (some os) us s = set_chosen-Refreshed _ s

  choose_locked-Refreshed :
      (version : Option V) (release : Option (UpdateImage V)) (us : List (Update V Time))
      (s : UpdateStatus V Time)
      → RefreshedFrom s (choose_locked version release us s)
  unfolding choose_locked
  choose_locked-Refreshed none release us s = unchanged s _
  choose_locked-Refreshed (some v) none us s = unchanged s _
  choose_locked-Refreshed (some v) (some os) us s = set_chosen-Refreshed _ s

module _ {V Time Friendly : Type 0} ⦃o : Ord V⦄ where
  choose_update-Refreshed :
      (env : Settings V Friendly) (lock : Option (Option Friendly)) (us : List (Update V Time))
      (s : UpdateStatus V Time)
      → RefreshedFrom s (choose_update env lock us s)
  unfolding choose_update
  choose_update-Refreshed env none us s = unchanged s _
  choose_update-Refreshed env (some none) us s = unchanged s _
  choose_update-Refreshed env (some (some lock)) us s = elim (Bool-cases (env.is_latest lock)) [
    | inl latest ↦ rw latest (choose_latest-Refreshed env.release us s)
    | inr named ↦ rw named (choose_locked-Refreshed (env.semver lock) env.release us s)
  ]

  read_updates-Refreshed :
      (env : Environment V Time Friendly) (updates : Option (List (Update V Time)))
      (s : UpdateStatus V Time)
      → RefreshedFrom s (read_updates env updates s)
  unfolding read_updates update_available_updates
  read_updates-Refreshed env none s = unchanged s _
  read_updates-Refreshed env (some us) s =
      choose_update-Refreshed env.settings env.settings.version_lock us _

  refresh_output-Refreshed :
      (env : Environment V Time Friendly) (output : Output (Update V Time))
      (s : UpdateStatus V Time)
      → RefreshedFrom s (refresh_output env output s)
  unfolding refresh_output set_recent_command_info
  refresh_output-Refreshed env output s = elim (Bool-cases (output_success output.code)) [
    | inr failing ↦
        rw failing
          (record { same_state = refl; same_active = refl; same_staging = refl; chosen = tt })
    | inl fine ↦ rw fine (read_updates-Refreshed env output.updates _)
  ]

-- What holds where nothing was run, and whatever `updog` did, holds.
module _ {V Time A : Type 0} (P : UpdateStatus V Time × Outcome Error A → Type 0)
    (s : UpdateStatus V Time) (kept : (e : Error) → P (s, err e)) where
  pub forked-holds :
      (forks : Bool) (child : UpdateStatus V Time × Outcome Error A)
      → P child
      → P (forked forks s child)
  unfolding forked
  forked-holds true child h = h
  forked-holds false child h = kept _

  pub run_updog-holds :
      (output : Option (Output (Update V Time)))
      (then_do : Output (Update V Time)
        → UpdateStatus V Time
        → UpdateStatus V Time × Outcome Error A)
      → ((out : Output (Update V Time)) → P (then_do out s))
      → P (run_updog output s then_do)
  unfolding run_updog
  run_updog-holds none then_do h = kept _
  run_updog-holds (some out) then_do h = h out

module _ {V Time Friendly : Type 0} ⦃o : Ord V⦄ where
  pub refresh-Refreshed :
      (env : Environment V Time Friendly) (s : UpdateStatus V Time)
      → RefreshedFrom s (refresh env s)
  unfolding refresh
  refresh-Refreshed env s = forked-holds (RefreshedFrom s) s (unchanged s) env.forks _ (
      run_updog-holds (RefreshedFrom s) s (unchanged s) env.output (refresh_output env)
        (λ out. refresh_output-Refreshed env out s))
