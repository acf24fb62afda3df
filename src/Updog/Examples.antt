-- ===== src/Updog/Examples.antt =====
-- A manifest of four updates, and the theorems about the update that a host takes.
use bottlerocket_core_kit.Prelude.{
  ℕ, ◌≡◌, refl, inl, inr, true, false, Option, none, some, List, [], ◌∷◌, String, str_eq,
  if◌then◌else◌, All,
}
use bottlerocket_core_kit.Prelude.Order.{nat_ord, at_most}
use bottlerocket_core_kit.Prelude.Outcome.{ok}
use bottlerocket_core_kit.UpdateMetadata.Chrono.{number_times}
use bottlerocket_core_kit.UpdateMetadata.Manifest.{Images, Update}
use bottlerocket_core_kit.UpdateMetadata.Wave.{
  update_ready, update_wave, wave_ready, wave_between, start_wave, end_wave,
}
use bottlerocket_core_kit.Updog.Select.{
  update_required, applicable_updates, choose, moves_to, locked, find_version,
}
use bottlerocket_core_kit.Updog.Select.Chosen.{IsFor}
use bottlerocket_core_kit.Updog.Select.Required.{
  Moves, IsAnswered, update_required-IsFor, update_required-latest,
}

abbrev images : Images
images = record { boot = "boot"; root = "root"; hash = "hash" }

-- Every host has an update from the time 100 on.
abbrev an_update : String → ℕ → Update ℕ ℕ
an_update variant version = record {
  variant = variant;
  arch = "x86_64";
  version = version;
  max_version = 4;
  waves = (0, 0) ∷ (2048, 100) ∷ [];
  images = images;
}

abbrev manifest : List (Update ℕ ℕ)
manifest =
    an_update "vmware" 4 ∷ an_update "metal" 2 ∷ an_update "metal" 3 ∷ an_update "metal" 5 ∷ []

abbrev now : Update ℕ ℕ → ℕ
now u = 100

abbrev friendly : String → Option String
friendly s = some s

abbrev semver : String → Option ℕ
semver s = if str_eq s "v3" then some 3 else none

takes_latest :
    update_required friendly semver manifest "x86_64" 1 "metal" false 7 now "latest" none
    ≡ ok (some (an_update "metal" 3))
unfolding update_required applicable_updates choose moves_to update_ready update_wave wave_ready
    wave_between start_wave end_wave
takes_latest = refl

takes_locked :
    update_required friendly semver manifest "x86_64" 1 "metal" false 7 now "v3" none
    ≡ ok (some (an_update "metal" 3))
unfolding update_required applicable_updates choose locked find_version update_ready update_wave
    wave_ready wave_between start_wave end_wave
takes_locked = refl

takes_forced :
    update_required friendly semver manifest "x86_64" 1 "metal" false 7 now "latest" (some 2)
    ≡ ok (some (an_update "metal" 2))
unfolding update_required applicable_updates choose find_version update_ready update_wave wave_ready
    wave_between start_wave end_wave
takes_forced = refl

update_required-IsFor_example : IsFor "x86_64" "metal" false 7 now manifest (an_update "metal" 2)
update_required-IsFor_example =
    update_required-IsFor friendly semver manifest "x86_64" 1 "metal" false 7 now "latest" (some 2)
      (an_update "metal" 2) takes_forced

lower_IsFor : IsFor "x86_64" "metal" false 7 now manifest (an_update "metal" 2)
unfolding update_ready update_wave wave_ready wave_between start_wave end_wave
lower_IsFor = record {
  listed = inr (inl refl);
  same_variant = refl;
  same_arch = refl;
  not_past_max = refl;
  released = inr refl;
}

all-IsAnswered : All (IsAnswered "x86_64" "metal" false 7 now) manifest
unfolding update_ready update_wave wave_ready wave_between start_wave end_wave
all-IsAnswered = (inr (true, refl), (inr (true, refl), (inr (true, refl), (inr (true, refl), tt))))

update_required-latest_example :
    (u : Update ℕ ℕ) × (update_required friendly semver manifest "x86_64" 1 "metal" false 7 now
        "latest" none
      ≡ ok (some u))
    × Moves 1 u
    × (at_most {A = ℕ} 2 u.version ≡ true)
update_required-latest_example =
    update_required-latest friendly semver manifest "x86_64" 1 "metal" false 7 now "latest"
      (an_update "metal" 2) refl all-IsAnswered lower_IsFor (inl refl)

-- From a version past all that were published, the mode "latest" goes back to the largest.
takes_lower :
    update_required friendly semver manifest "x86_64" 9 "metal" false 7 now "latest" none
    ≡ ok (some (an_update "metal" 3))
unfolding update_required applicable_updates choose moves_to update_ready update_wave wave_ready
    wave_between start_wave end_wave
takes_lower = refl
