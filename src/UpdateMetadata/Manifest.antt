-- ===== src/UpdateMetadata/Manifest.antt =====
-- The updates of a manifest (sources/updater/update_metadata/src/lib.rs): adding one, raising the
-- largest published version, and setting the waves of a release.
pub mod Added
pub mod Planned
use bottlerocket_core_kit.Prelude.{
  ℕ, Bool, true, false, not, ◌&&◌, Option, none, some, List, [], ◌∷◌, ◌++◌, map, String, str_eq,
  ltb, leb, ◌==◌, if◌then◌else◌, filter_by, first, length,
}
use bottlerocket_core_kit.Prelude.Order.{Ord, eqb, at_most, max_of}
use bottlerocket_core_kit.Prelude.Outcome.{Outcome, ok, err, panic, ◌>>=◌, ◌>>◌, ensure}
use bottlerocket_core_kit.UpdateMetadata.Chrono.{Chrono}
use bottlerocket_core_kit.UpdateMetadata.Error.{
  Error, waves_unordered, invalid_fleet_percentage, bad_offset,
}
use bottlerocket_core_kit.UpdateMetadata.Seeds.{seed_after}
use bottlerocket_core_kit.UpdateMetadata.Wave.{Waves}

pub record Images : Type 0 where
  pub boot : String
  pub root : String
  pub hash : String

pub record Update (V Time : Type 0) : Type 0 where
  pub variant : String
  pub arch : String
  pub version : V
  pub max_version : V
  pub waves : Waves Time
  pub images : Images

pub record UpdateWave : Type 0 where
  pub start_after : String
  pub fleet_percentage : ℕ

-- The filter of `update_max_version`: a name that is not given matches all.
unfoldable pub names_match : Option String → Option String → String → String → Bool
names_match (some arch) (some variant) a v = str_eq a arch && str_eq v variant
names_match (some arch) none a v = str_eq a arch
names_match none (some variant) a v = str_eq v variant
names_match none none a v = true

module _ {V Time : Type 0} where
  unfoldable pub raise_if : V → Option String → Option String → Update V Time → Update V Time
  unfolding names_match
  raise_if version arch variant u =
      if names_match arch variant u.arch u.variant then record u { max_version = version } else u

  unfoldable pub update_max_version :
      V → Option String → Option String → List (Update V Time) → List (Update V Time)
  unfolding raise_if
  update_max_version version arch variant updates = map (raise_if version arch variant) updates

module _ {V Time : Type 0} ⦃o : Ord V⦄ where
  -- The greater of the first update's `max_version` and the image's version, where none is given.
  unfoldable pub chosen_max : V → Option V → List (Update V Time) → V
  chosen_max image_version (some version) updates = version
  chosen_max image_version none [] = image_version
  chosen_max image_version none (u ∷ _) = max_of image_version u.max_version

  unfoldable pub add_update :
      V → Option V → String → String → Images → List (Update V Time) → List (Update V Time)
  unfolding chosen_max update_max_version
  add_update image_version max_version arch variant images updates =
      let chosen = chosen_max image_version max_version updates in
      update_max_version chosen (some arch) (some variant) updates
      ++ (record {
        variant = variant;
        arch = arch;
        version = image_version;
        max_version = chosen;
        waves = [];
        images = images;
      }
          ∷ [])

  -- The updates that `set_waves` is about.
  unfoldable pub is_match : String → String → V → Update V Time → Bool
  is_match variant arch image_version u =
      str_eq u.arch arch && (str_eq u.variant variant && eqb u.version image_version)

-- `BTreeMap::insert`: a key that is there gets the new value.
unfoldable pub insert {ℓ} : {A : Type ℓ} → ℕ → A → List (ℕ × A) → List (ℕ × A)
insert k v [] = (k, v) ∷ []
insert k v ((j, w) ∷ rest) =
    let later = insert k v rest in
    if ltb k j then (k, v) ∷ (j, w) ∷ rest else if k == j then (k, v) ∷ rest else (j, w) ∷ later

-- `&mut self` and a `Result`: the value as it is left, beside the result.
module _ {V : Type 0} ⦃c : Chrono⦄ where
  -- `start_after` is read by the parser of the crate parse-datetime.
  module _ (parse_offset : String → Option c.Span) (start_at : c.Time) where
    -- The loop over the waves of one update, after `waves.clear()`; the sum panics out of chrono's
    -- range.
    unfoldable pub fill_waves :
        List UpdateWave → ℕ → Waves c.Time → Waves c.Time × Outcome (Error V) (Unit {0})
    unfolding insert
    fill_waves [] seed out = (out, ok tt)
    fill_waves (w ∷ ws) seed out =
        if not (ltb 0 w.fleet_percentage && leb w.fleet_percentage 100)
        then (out, err (invalid_fleet_percentage w.fleet_percentage))
        else elim (parse_offset w.start_after) [
          | none ↦ (out, err (bad_offset w.start_after))
          | some offset ↦ elim (c.plus start_at offset) [
            | none ↦ (out, panic)
            | some time ↦ fill_waves ws (seed_after w.fleet_percentage) (insert seed time out)
          ]
        ]

    unfoldable pub fill_matching :
        (Update V c.Time → Bool)
        → List UpdateWave
        → List (Update V c.Time)
        → List (Update V c.Time) × Outcome (Error V) (Unit {0})
    fill_matching matches ws [] = ([], ok tt)
    fill_matching matches ws (u ∷ us) =
        let (waves, filled) = fill_waves ws 0 [] in
        let (later, result) = fill_matching matches ws us in
        if not (matches u) then (u ∷ later, result) else elim filled [
          | ok _ ↦ (record u { waves = waves } ∷ later, result)
          | err e ↦ (record u { waves = waves } ∷ us, err e)
          | panic ↦ (record u { waves = waves } ∷ us, panic)
        ]

  -- The dates of one update's waves, in the order of their seeds.
  unfoldable pub validate_waves : Waves c.Time → Outcome (Error V) (Unit {0})
  validate_waves [] = ok tt
  validate_waves (w ∷ []) = ok tt
  validate_waves (w ∷ x ∷ rest) = do
    ensure (c.lt w.1 x.1) waves_unordered
    validate_waves (x ∷ rest)

  unfoldable pub validate_updates : List (Update V c.Time) → Outcome (Error V) (Unit {0})
  unfolding validate_waves
  validate_updates [] = ok tt
  validate_updates (u ∷ us) = do validate_waves u.waves; validate_updates us

module _ {V : Type 0} ⦃o : Ord V⦄ ⦃c : Chrono⦄ (parse_offset : String → Option c.Span) where
  unfoldable pub set_waves :
      String
      → String
      → V
      → c.Time
      → List UpdateWave
      → List (Update V c.Time)
      → List (Update V c.Time) × Outcome (Error V) ℕ
  unfolding is_match
  set_waves variant arch image_version start_at ws updates =
      let matches = is_match variant arch image_version in
      let (updates', filled) = fill_matching parse_offset start_at matches ws updates in
      (updates', (do filled; validate_updates updates'; ok (length (filter_by matches updates))))
