-- ===== src/UpdateMetadata/Examples.antt =====
-- A release in three waves and a manifest of three updates, and the theorems about them.
use bottlerocket_core_kit.Prelude.{
  ℕ, ◌≡◌, refl, true, false, Option, none, some, List, [], ◌∷◌, String, All, arith, str_eq,
  if◌then◌else◌,
}
use bottlerocket_core_kit.Prelude.Order.{nat_ord}
use bottlerocket_core_kit.Prelude.Outcome.{Outcome, ok, panic}
use bottlerocket_core_kit.UpdateMetadata.Chrono.{number_times}
use bottlerocket_core_kit.UpdateMetadata.Error.{Error}
use bottlerocket_core_kit.UpdateMetadata.Wave.{
  Wave, general, Waves, position_passed, update_wave, update_ready, wave_ready, wave_between,
  start_wave, end_wave,
}
use bottlerocket_core_kit.UpdateMetadata.Wave.Lookup.{Fits, update_wave-Fits}
use bottlerocket_core_kit.UpdateMetadata.Wave.Ready.{update_ready_later}
use bottlerocket_core_kit.UpdateMetadata.Wave.Position.{ready_at_last, waits_for_whole_wave}
use bottlerocket_core_kit.UpdateMetadata.Seeds.{seed_after, seed_after-exact}
use bottlerocket_core_kit.UpdateMetadata.Migrations.{
  Migrations, lookup, keys, candidates, find_migrations,
}
use bottlerocket_core_kit.UpdateMetadata.Migrations.Path.{Finishes}
use bottlerocket_core_kit.UpdateMetadata.Migrations.Ends.{
  find_migrations_ends, find_migrations-Finishes, self_loop_never_ends,
}
use bottlerocket_core_kit.UpdateMetadata.Manifest.{
  Images, Update, UpdateWave, add_update, set_waves, fill_waves, fill_matching, validate_updates,
}
use bottlerocket_core_kit.UpdateMetadata.Manifest.Added.{IsLargest, AreAdded, add_update-max}
use bottlerocket_core_kit.UpdateMetadata.Manifest.Planned.{
  ArePlanned, IsReleased, Rising, set_waves_ok,
}

-- Seeds 21 to 1024 from the time 10000000, and the rest from the time 20000000.
abbrev three_waves : Waves ℕ
three_waves = (0, 100) ∷ (20, 10000000) ∷ (1024, 20000000) ∷ []

update_wave-Fits_example :
    (w : Option (Wave ℕ)) × (update_wave {E = String} three_waves 500 ≡ ok w)
    × Fits three_waves 500 w
update_wave-Fits_example = update_wave-Fits {E = String} three_waves 500 (grind arith) (omega arith)

ready_then : update_ready {E = String} three_waves 500 20000000 ≡ ok true
unfolding update_ready update_wave wave_ready wave_between start_wave end_wave
ready_then = refl

update_ready_later_example : update_ready {E = String} three_waves 500 25000000 ≡ ok true
update_ready_later_example =
    update_ready_later {E = String} three_waves 500 20000000 25000000 (omega arith) ready_then

ready_at_last_example : update_ready {E = String} three_waves 2000 20000000 ≡ ok true
ready_at_last_example =
    ready_at_last three_waves 2000 20000000 (grind arith) (omega arith) (grind arith)

-- A host in the last seeds of a long wave has a target time past the last time that there is.
no_such_time : update_ready {E = String} ((1980, 0) ∷ (2000, 900000000000) ∷ []) 2000 1 ≡ panic
unfolding update_ready update_wave wave_ready wave_between start_wave end_wave position_passed
no_such_time = refl

-- The first wave of half of the hosts, the second of the others.
abbrev two_halves : Waves ℕ
two_halves = (0, 0) ∷ (1024, 10000000) ∷ (2048, 20000000) ∷ []

in_latter :
    update_wave {E = String} two_halves 1025 ≡ ok (some (general 10000000 20000000 1024 2048))
unfolding update_wave wave_between start_wave end_wave
in_latter = refl

waits_for_whole_wave_example : update_ready {E = String} two_halves 1025 19999999 ≡ ok false
waits_for_whole_wave_example =
    waits_for_whole_wave two_halves 1025 10000000 20000000 19999999 1024 2048 (grind arith)
      (omega arith) in_latter (omega arith) (omega arith) (omega arith) (omega arith)

seed_after-exact_example : seed_after 1 ≡ 20
seed_after-exact_example = seed_after-exact 1 (omega arith) (omega arith)

-- Migrations from 1 to 2, from 2 to 3 and from 1 to 4.
abbrev steps : Migrations ℕ
steps = ((1, 2), "a" ∷ "b" ∷ []) ∷ ((1, 4), "d" ∷ []) ∷ ((2, 3), "c" ∷ []) ∷ []

find_migrations_ends_example :
    (r : Outcome (Error ℕ) (List String)) × (find_migrations 4 3 1 steps ≡ some r)
find_migrations_ends_example =
    find_migrations_ends steps 4 3 1 (unfold keys in (refl, (refl, (refl, tt)))) (omega arith)

found_steps : find_migrations 4 1 3 steps ≡ some (ok ("a" ∷ "b" ∷ "c" ∷ []))
unfolding find_migrations candidates lookup
found_steps = refl

find_migrations-Finishes_example : Finishes 3 steps 1 [] (ok ("a" ∷ "b" ∷ "c" ∷ []))
find_migrations-Finishes_example =
    find_migrations-Finishes steps 4 1 3 (ok ("a" ∷ "b" ∷ "c" ∷ [])) refl found_steps

self_loop_never_ends_example : find_migrations {V = ℕ} 9 1 3 (((1, 1), []) ∷ []) ≡ none
self_loop_never_ends_example =
    self_loop_never_ends (((1, 1), []) ∷ []) 9 1 3 (1, 1) refl (unfold candidates in refl) refl

abbrev images : Images
images = record { boot = "boot"; root = "root"; hash = "hash" }

abbrev an_update : String → ℕ → ℕ → Update ℕ ℕ
an_update variant version max = record {
  variant = variant;
  arch = "x86_64";
  version = version;
  max_version = max;
  waves = [];
  images = images;
}

abbrev updates : List (Update ℕ ℕ)
updates = an_update "aws-k8s" 1 3 ∷ an_update "aws-k8s" 2 3 ∷ an_update "vmware" 1 9 ∷ []

add_update-max_example :
    (m : ℕ) × IsLargest 4 "x86_64" "aws-k8s" images none updates m
    × AreAdded 4 "x86_64" "aws-k8s" images m updates
        (add_update 4 none "x86_64" "aws-k8s" images updates)
add_update-max_example = add_update-max 4 "x86_64" "aws-k8s" images none updates

abbrev offset : String → Option ℕ
offset s = if str_eq s "1 hour" then some 3600 else if str_eq s "1 day" then some 86400 else none

abbrev wave_file : List UpdateWave
wave_file =
    record { start_after = "1 hour"; fleet_percentage = 1 }
    ∷ record { start_after = "1 day"; fleet_percentage = 50 }
    ∷ []

waves_set : (set_waves offset "aws-k8s" "x86_64" 2 1000 wave_file updates).1 ≡ ok 1
unfolding set_waves fill_matching fill_waves validate_updates seed_after
waves_set = refl

set_waves_ok_example :
    ArePlanned ℕ offset 1000
      (IsReleased offset "aws-k8s" "x86_64" 2 1000 wave_file updates)
      wave_file
      updates
      (set_waves offset "aws-k8s" "x86_64" 2 1000 wave_file updates).0
      1
    × All
        (λ u. Rising ℕ offset 1000 u.waves)
        (set_waves offset "aws-k8s" "x86_64" 2 1000 wave_file updates).0
set_waves_ok_example = set_waves_ok offset "aws-k8s" "x86_64" 2 1000 wave_file updates 1 waves_set
