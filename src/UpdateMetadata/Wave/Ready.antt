-- ===== src/UpdateMetadata/Wave/Ready.antt =====
-- When an update becomes available to a host.
use bottlerocket_core_kit.Prelude.{
  ℕ, ◌≤◌, ◌≡◌, refl, inl, inr, true, Option, none, some, arith, Option-cases,
}
use bottlerocket_core_kit.Prelude.Outcome.{ok}
use bottlerocket_core_kit.UpdateMetadata.Chrono.{Chrono}
use bottlerocket_core_kit.UpdateMetadata.Wave.{
  Wave, initial, general, last, Waves, start_wave, end_wave, wave_between, update_wave,
  seeds_between, has_passed, has_started, position_passed, wave_ready, update_ready,
}

module _ ⦃c : Chrono⦄ where
  le_later : (t u v : c.Time) → c.at u ≤ c.at v → c.le t u ≡ true → c.le t v ≡ true
  le_later t u v h e = ground (arith, c.le_at t u, c.le_at t v)

  position_later {ℓ} :
      {E : Type ℓ} (w : Wave c.Time) (seed : ℕ) (u v : c.Time)
      → c.at u ≤ c.at v
      → position_passed {E = E} w seed u ≡ ok true
      → position_passed {E = E} w seed v ≡ ok true
  unfolding position_passed
  position_later (initial _ _) seed u v h e = refl
  position_later (last _ _) seed u v h e = refl
  position_later (general st et s e') seed u v h e =
      elim (Option-cases (c.plus st (c.mul (c.div (c.minus et st) (seeds_between e' s)) seed))) [
        | inr beyond ↦ ground (arith, beyond)
        | inl (target, there) ↦ ground (arith, there, le_later target u v h)
      ]

  started_later :
      (w : Wave c.Time) (u v : c.Time)
      → c.at u ≤ c.at v
      → has_started w u ≡ true
      → has_started w v ≡ true
  unfolding has_started
  started_later (initial _ _) u v h e = refl
  started_later (general st _ _ _) u v h e = le_later st u v h e
  started_later (last st _) u v h e = le_later st u v h e

  passed_later :
      (w : Wave c.Time) (u v : c.Time)
      → c.at u ≤ c.at v
      → has_passed w u ≡ true
      → has_passed w v ≡ true
  unfolding has_passed
  passed_later (initial et _) u v h e = le_later et u v h e
  passed_later (general _ et _ _) u v h e = le_later et u v h e
  passed_later (last st _) u v h e = le_later st u v h e

  wave_ready_later {ℓ} :
      {E : Type ℓ} (w : Option (Wave c.Time)) (seed : ℕ) (u v : c.Time)
      → c.at u ≤ c.at v
      → wave_ready {E = E} w seed u ≡ ok true
      → wave_ready {E = E} w seed v ≡ ok true
  unfolding wave_ready
  wave_ready_later {E} none seed u v h e = refl
  wave_ready_later {E} (some w) seed u v h e =
      ground
        (arith, passed_later w u v h, started_later w u v h, position_later {E = E} w seed u v h)

  -- An update that is available to a host stays available at every later time.
  pub update_ready_later {ℓ} :
      {E : Type ℓ} (waves : Waves c.Time) (seed : ℕ) (u v : c.Time)
      → c.at u ≤ c.at v
      → update_ready {E = E} waves seed u ≡ ok true
      → update_ready {E = E} waves seed v ≡ ok true
  unfolding update_ready update_wave
  update_ready_later {E} waves seed u v h e =
      let w = wave_between (start_wave waves seed) (end_wave waves seed) in
      ground (arith, wave_ready_later {E = E} w seed u v h)
