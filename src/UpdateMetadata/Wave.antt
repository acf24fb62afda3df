-- ===== src/UpdateMetadata/Wave.antt =====
-- The waves of an update (sources/updater/update_metadata/src/lib.rs): which wave the seed of a
-- host falls in, and whether the update is available to it.
pub mod Lookup
pub mod Ready
pub mod Position
use bottlerocket_core_kit.Prelude.{
  ℕ, ◌+◌, ◌-◌, ◌%◌, ◌^◌, Bool, true, false, ◌&&◌, Option, none, some, List, [], ◌∷◌, ltb, leb, ◌==◌,
  if◌then◌else◌, find_by,
}
use bottlerocket_core_kit.Prelude.Outcome.{Outcome, ok, panic, ◌>>=◌, or_panic}
use bottlerocket_core_kit.UpdateMetadata.Chrono.{Chrono}

abbrev pub max_seed : ℕ
max_seed = 2048

pub data Wave (Time : Type 0) : Type 0 where
  initial : Time → ℕ → Wave Time
  general : Time → Time → ℕ → ℕ → Wave Time
  last : Time → ℕ → Wave Time

-- `BTreeMap<u32, DateTime<Utc>>`: the entries in the order of their keys.
abbrev pub Waves : Type 0 → Type 0
Waves Time = List (ℕ × Time)

module _ {Time : Type 0} where
  -- `range((Included(0), Excluded(seed))).next_back()`
  unfoldable pub start_wave : Waves Time → ℕ → Option (ℕ × Time)
  start_wave [] seed = none
  start_wave ((k, v) ∷ rest) seed = elim (start_wave rest seed) [
    | some e ↦ some e
    | none ↦ if ltb k seed then some (k, v) else none
  ]

  -- `range((Included(seed), Included(MAX_SEED))).next()`
  unfoldable pub end_wave : Waves Time → ℕ → Option (ℕ × Time)
  end_wave waves seed = find_by (λ e. leb seed e.0 && leb e.0 max_seed) waves

  unfoldable pub wave_between : Option (ℕ × Time) → Option (ℕ × Time) → Option (Wave Time)
  wave_between none (some (end_seed, end_time)) = some (initial end_time end_seed)
  wave_between (some (start_seed, start_time)) (some (end_seed, end_time)) =
      some (general start_time end_time start_seed end_seed)
  wave_between (some (start_seed, start_time)) none = some (last start_time start_seed)
  wave_between none none = none

  -- `range` panics where its start is past its end.
  unfoldable pub update_wave {ℓ} : {E : Type ℓ} → Waves Time → ℕ → Outcome E (Option (Wave Time))
  update_wave waves seed =
      if ltb max_seed seed
      then panic
      else ok (wave_between (start_wave waves seed) (end_wave waves seed))

-- `end_seed - start_seed` on u32
abbrev pub seeds_between : ℕ → ℕ → ℕ
seeds_between end_seed start_seed = (end_seed + 2 ^ 32 - start_seed) % 2 ^ 32

module _ ⦃c : Chrono⦄ where
  unfoldable pub has_started : Wave c.Time → c.Time → Bool
  has_started (initial _ _) time = true
  has_started (general start_time _ _ _) time = c.le start_time time
  has_started (last start_time _) time = c.le start_time time

  unfoldable pub has_passed : Wave c.Time → c.Time → Bool
  has_passed (initial end_time _) time = c.le end_time time
  has_passed (general _ end_time _ _) time = c.le end_time time
  has_passed (last start_time _) time = c.le start_time time

  -- The place of the seed in a wave with a start and an end; `time >= target_time` is
  -- `target_time <= time`, and the sum for the target panics out of chrono's range.
  unfoldable pub position_passed {ℓ} : {E : Type ℓ} → Wave c.Time → ℕ → c.Time → Outcome E Bool
  position_passed (initial _ _) seed time = ok true
  position_passed (general start_time end_time start_seed end_seed) seed time =
      let wave_duration = c.minus end_time start_time in
      let num_seeds = seeds_between end_seed start_seed in
      if num_seeds == 0 then ok true else do
        target_time ← or_panic (c.plus start_time (c.mul (c.div wave_duration num_seeds) seed))
        ok (c.le target_time time)
  position_passed (last _ _) seed time = ok true

  unfoldable pub wave_ready {ℓ} : {E : Type ℓ} → Option (Wave c.Time) → ℕ → c.Time → Outcome E Bool
  unfolding has_started has_passed position_passed
  wave_ready none seed time = ok true
  wave_ready (some wave) seed time =
      if has_passed wave time
      then ok true
      else if has_started wave time
      then position_passed wave seed time
      else ok false

  unfoldable pub update_ready {ℓ} : {E : Type ℓ} → Waves c.Time → ℕ → c.Time → Outcome E Bool
  update_ready waves seed time = do wave ← update_wave waves seed; wave_ready wave seed time
