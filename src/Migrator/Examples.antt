-- ===== src/Migrator/Examples.antt =====
-- A host that goes from version 1.5.2 to 1.6.0, and the theorems about it.
use bottlerocket_core_kit.Prelude.{
  ℕ, ◌+◌, ◌≡◌, refl, true, ◌||◌, String, str_eq, Option, none, some, List, [], ◌∷◌, ◌++◌, take,
  if◌then◌else◌,
}
use bottlerocket_core_kit.Prelude.Text.{Text, text_eq}
use bottlerocket_core_kit.Prelude.HashMap.{HashMap, text_key, get, remove, Distinct}
use bottlerocket_core_kit.Prelude.Outcome.{ok}
use bottlerocket_core_kit.Prelude.Decimal.{to_decimal, digits}
use bottlerocket_core_kit.Migrator.Direction.{forward}
use bottlerocket_core_kit.Migrator.Links.{
  Links, Semver, current_name, major_name, minor_name, patch_name, perform_all, flip_steps,
  flip_to_new_version, get_current_version, without_v,
}
use bottlerocket_core_kit.Migrator.Links.Swaps.{LeadsTo}
use bottlerocket_core_kit.Migrator.Links.States.{IsLive, IsFresh}
use bottlerocket_core_kit.Migrator.Links.Atomic.{flip_steps-LeadsTo, flip_to_new_version-IsLive}
use bottlerocket_core_kit.Datastore.Memory.{starts_with}
use bottlerocket_core_kit.Migrator.Transient.{
  Scalars, DataStoreData, strength, services, configuration_files, remove_transient,
}
use bottlerocket_core_kit.Migrator.Transient.Cleaned.{is_weak_key, remove_transient-get}
use bottlerocket_core_kit.Migrator.Run.{Program, migrated_store, migrate_data}
use bottlerocket_core_kit.Migrator.Run.Chain.{Ends, migrated_store-Ends}

abbrev scalars : Scalars String
scalars = record {
  deserialize_scalar = λ s. some s;
  serialize_scalar = λ s. some s;
  is_weak = λ s. str_eq s "weak";
}

-- The key a is weak, b is not, and services.c is one of the services.
abbrev some_data : DataStoreData String
some_data = record {
  entries = ((97 ∷ []), "1") ∷ ((98 ∷ []), "2") ∷ (services ++ (99 ∷ []), "3") ∷ [];
  metadata = ((97 ∷ []), (strength, "weak") ∷ []) ∷ ((98 ∷ []), (strength, "strong") ∷ []) ∷ [];
}

no_doubles : Distinct some_data.metadata
unfolding get
no_doubles = (refl, (refl, tt))

remove_transient-get_example :
    (get (98 ∷ []) (remove_transient scalars some_data).entries ≡ (
      if starts_with services (98 ∷ [])
        || (starts_with configuration_files (98 ∷ [])
            || is_weak_key scalars (98 ∷ []) some_data.metadata)
      then none
      else get (98 ∷ []) some_data.entries))
    × ((remove_transient scalars some_data).metadata ≡ [])
remove_transient-get_example = remove_transient-get scalars (98 ∷ []) some_data no_doubles

left_over : (remove_transient scalars some_data).entries ≡ ((98 ∷ []), "2") ∷ []
unfolding remove_transient get remove
left_over = refl

abbrev Version : Type 0
Version = ℕ × ℕ × ℕ

abbrev old_version : Version
old_version = (1, 5, 2)

abbrev new_version : Version
new_version = (1, 6, 0)

-- It reads the new version's name only.
abbrev semver : Semver Version
semver = record {
  major = λ v. v.0;
  minor = λ v. v.1;
  patch = λ v. v.2;
  parse = λ s. if text_eq s (49 ∷ 46 ∷ 54 ∷ 46 ∷ 48 ∷ []) then some new_version else none;
}

abbrev old_store : Text
old_store = 111 ∷ []

abbrev next_store : Text
next_store = 110 ∷ []

abbrev temp_link : Text
temp_link = 116 ∷ []

abbrev links : Links
links =
    (current_name, major_name semver old_version)
    ∷ (major_name semver old_version, minor_name semver old_version)
    ∷ (minor_name semver old_version, patch_name semver old_version)
    ∷ (patch_name semver old_version, old_store)
    ∷ []

links-IsLive : IsLive semver links old_version old_store
unfolding get major_name minor_name patch_name to_decimal digits
links-IsLive = record {
  current_to_major = refl;
  major_to_minor = refl;
  minor_to_patch = refl;
  patch_to_store = refl;
}

temp_link-IsFresh : IsFresh semver links new_version temp_link
unfolding get major_name minor_name patch_name to_decimal digits
temp_link-IsFresh = record {
  absent = refl;
  not_patch = refl;
  not_minor = refl;
  not_major = refl;
  not_current = refl;
}

-- Cut off after the third step.
flip_steps-LeadsTo_example :
    (links' : Links) × (perform_all temp_link
        (take 3 (flip_steps semver new_version next_store))
        links
      ≡ ok links')
    × LeadsTo old_store next_store links'
flip_steps-LeadsTo_example =
    flip_steps-LeadsTo semver links old_version new_version old_store next_store temp_link 3
      links-IsLive temp_link-IsFresh

read_back : semver.parse (without_v (patch_name semver new_version)) ≡ some new_version
unfolding major_name minor_name patch_name to_decimal digits
read_back = refl

flip_to_new_version-IsLive_example :
    (links' : Links) × (flip_to_new_version semver temp_link new_version next_store links
      ≡ ok links')
    × IsLive semver links' new_version next_store
    × (get_current_version semver links' ≡ ok new_version)
flip_to_new_version-IsLive_example =
    flip_to_new_version-IsLive semver links old_version new_version old_store next_store temp_link
      links-IsLive temp_link-IsFresh read_back

-- A store's content is a number here; the migration doubles it.
abbrev double : Program ℕ
double direction n = (n + n, true)

abbrev read_target : Text → Option (Program ℕ)
read_target name = some double

abbrev location : ℕ → Text
location n = 97 ∷ n ∷ []

abbrev stores : HashMap Text ℕ
stores = (old_store, 3) ∷ []

abbrev migrations : List Text
migrations = (109 ∷ []) ∷ (110 ∷ []) ∷ []

store_there : get old_store stores ≡ some 3
unfolding get
store_there = refl

migrated_store-Ends_example :
    Ends read_target location forward old_store 3
      (migrate_data read_target location forward migrations 3)
      (migrated_store read_target location forward migrations old_store stores)
migrated_store-Ends_example =
    migrated_store-Ends read_target location forward migrations old_store stores 3 store_there
