-- ===== src/TharBeUpdates/Machine/Consistent.antt =====
-- What goes together in a status, by its state, and how a refresh keeps it.
use bottlerocket_core_kit.Prelude.{◌≡◌, refl, Bool, true, false, Option, none, some}
use bottlerocket_core_kit.Prelude.Outcome.{Outcome, ok, err, panic}
use bottlerocket_core_kit.TharBeUpdates.Machine.{then_state, available_or_idle}
use bottlerocket_core_kit.TharBeUpdates.Status.{
  UpdateState, idle, available, staged, ready, Error, UpdateImage, StagedImage, UpdateStatus,
}
use bottlerocket_core_kit.TharBeUpdates.Machine.Refreshes.{Refreshed}

module _ {V : Type 0} where
  -- By the state: the chosen update, the image that runs and the one that is staged.
  abbrev pub Consistent :
      UpdateState
      → Option (UpdateImage V)
      → Option (StagedImage V)
      → Option (StagedImage V)
      → Type 0
  Consistent idle chosen (some running) none = Unit
  Consistent available (some chosen) (some running) none = Unit
  Consistent staged chosen (some running) (some image) = image.next_to_boot ≡ false
  Consistent ready chosen (some running) (some image) =
      (image.next_to_boot ≡ true) × (running.next_to_boot ≡ false)
  Consistent _ _ _ _ = ⊥

  any_chosen_staged :
      (c d : Option (UpdateImage V)) (a p : Option (StagedImage V))
      → Consistent staged c a p
      → Consistent staged d a p
  any_chosen_staged c d none p h = absurd h
  any_chosen_staged c d (some _) none h = absurd h
  any_chosen_staged c d (some _) (some _) h = h

  any_chosen_ready :
      (c d : Option (UpdateImage V)) (a p : Option (StagedImage V))
      → Consistent ready c a p
      → Consistent ready d a p
  any_chosen_ready c d none p h = absurd h
  any_chosen_ready c d (some _) none h = absurd h
  any_chosen_ready c d (some _) (some _) h = h

  pub idle_after :
      (c d : Option (UpdateImage V)) (a p : Option (StagedImage V))
      → Consistent available c a p
      → Consistent idle d a p
  idle_after none d a p h = absurd h
  idle_after (some _) d none p h = absurd h
  idle_after (some _) d (some _) none h = tt
  idle_after (some _) d (some _) (some _) h = absurd h

  any_chosen_idle :
      (c d : Option (UpdateImage V)) (a p : Option (StagedImage V))
      → Consistent idle c a p
      → Consistent idle d a p
  any_chosen_idle c d none p h = absurd h
  any_chosen_idle c d (some _) none h = tt
  any_chosen_idle c d (some _) (some _) h = absurd h

  available_after :
      (c : Option (UpdateImage V)) (image : UpdateImage V) (a p : Option (StagedImage V))
      → Consistent idle c a p
      → Consistent available (some image) a p
  available_after c image none p h = absurd h
  available_after c image (some _) none h = tt
  available_after c image (some _) (some _) h = absurd h

  -- A running image is known in every state.
  pub running_of :
      (st : UpdateState) (c : Option (UpdateImage V)) (a p : Option (StagedImage V))
      → Consistent st c a p
      → (r : StagedImage V) × (a ≡ some r)
  running_of st c (some r) p h = (r, refl)
  running_of idle c none p h = absurd h
  running_of available none none p h = absurd h
  running_of available (some _) none p h = absurd h
  running_of staged c none p h = absurd h
  running_of ready c none p h = absurd h

module _ {V Time : Type 0} where
  abbrev pub IsConsistent : UpdateStatus V Time → Type 0
  IsConsistent s = Consistent s.update_state s.chosen_update s.active_partition s.staging_partition

  -- After a refresh in the states without a staged image.
  pub after_refresh :
      (st : UpdateState) (c : Option (UpdateImage V)) (a p : Option (StagedImage V))
      (r : UpdateStatus V Time × Outcome Error Bool)
      → Refreshed st c a p r
      → Consistent st c a p
      → Consistent idle c a p
      → IsConsistent (then_state available_or_idle r).0
  after_refresh st c a p (t, ok true) f h q =
      let (image, e) = f.chosen in
      rw (e, f.same_active, f.same_staging) (available_after c image a p q)
  after_refresh st c a p (t, ok false) f h q =
      rw (f.same_active, f.same_staging) (any_chosen_idle c t.chosen_update a p q)
  after_refresh st c a p (t, err e) f h q =
      rw (f.same_state, f.chosen, f.same_active, f.same_staging) h
  after_refresh st c a p (t, panic) f h q = absurd f.chosen

  -- After a refresh that leaves the state.
  pub refresh_staged :
      (c : Option (UpdateImage V)) (a p : Option (StagedImage V))
      (r : UpdateStatus V Time × Outcome Error Bool)
      → Refreshed staged c a p r
      → Consistent staged c a p
      → IsConsistent (then_state (λ _. staged) r).0
  refresh_staged c a p (t, ok b) f h =
      rw (f.same_active, f.same_staging) (any_chosen_staged c t.chosen_update a p h)
  refresh_staged c a p (t, err e) f h = rw (f.same_state, f.chosen, f.same_active, f.same_staging) h
  refresh_staged c a p (t, panic) f h = absurd f.chosen

  pub refresh_ready :
      (c : Option (UpdateImage V)) (a p : Option (StagedImage V))
      (r : UpdateStatus V Time × Outcome Error Bool)
      → Refreshed ready c a p r
      → Consistent ready c a p
      → IsConsistent (then_state (λ _. ready) r).0
  refresh_ready c a p (t, ok b) f h =
      rw (f.same_active, f.same_staging) (any_chosen_ready c t.chosen_update a p h)
  refresh_ready c a p (t, err e) f h = rw (f.same_state, f.chosen, f.same_active, f.same_staging) h
  refresh_ready c a p (t, panic) f h = absurd f.chosen
