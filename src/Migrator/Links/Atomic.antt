-- ===== src/Migrator/Links/Atomic.antt =====
-- `flip_to_new_version` of main.rs may be cut off anywhere: the links lead to the old data store or
-- to the new one.
use bottlerocket_core_kit.Prelude.{ℕ, ◌≡◌, refl, some, List, [], ◌∷◌, take}
use bottlerocket_core_kit.Prelude.Text.{Text}
use bottlerocket_core_kit.Prelude.HashMap.{text_key}
use bottlerocket_core_kit.Prelude.Outcome.{ok}
use bottlerocket_core_kit.Migrator.Links.{
  Links, perform_all, Semver, current_name, major_name, minor_name, patch_name, flip_steps,
  flip_to_new_version, get_current_version, read_link, without_v,
}
use bottlerocket_core_kit.Migrator.Links.Swaps.{
  LeadsTo, perform_all-LeadsTo, swap_all, perform_all-swap_all,
}
use bottlerocket_core_kit.Migrator.Links.States.{IsLive, IsFresh, done, all_lead}

module _ {V : Type 0} (semver : Semver V) where
  abbrev pairs : V → Text → List (Text × Text)
  pairs v store =
      (patch_name semver v, store)
      ∷ (minor_name semver v, patch_name semver v)
      ∷ (major_name semver v, minor_name semver v)
      ∷ (current_name, major_name semver v)
      ∷ []

  -- The links lead to the live store of the old version; the name of the temporary link is new. However
  -- many of its steps `flip_to_new_version` has made when it is cut off, each of them was made
  -- without an error, and the links lead to the old store or to the new one; whether the
  -- versions share their major, minor or patch link or not.
  pub flip_steps-LeadsTo :
      (links : Links) (old new : V) (old_store new_store temp_link : Text) (n : ℕ)
      → IsLive semver links old old_store
      → IsFresh semver links new temp_link
      → (links' : Links) × (perform_all temp_link (take n (flip_steps semver new new_store)) links
          ≡ ok links')
        × LeadsTo old_store new_store links'
  flip_steps-LeadsTo links old new old_store new_store temp_link n i f =
      perform_all-LeadsTo temp_link old_store new_store links (pairs new new_store) n f.absent
        (all_lead semver links old new old_store new_store temp_link i f)

  get_current_version-live :
      (links : Links) (v : V) (store : Text)
      → IsLive semver links v store
      → semver.parse (without_v (patch_name semver v)) ≡ some v
      → get_current_version semver links ≡ ok v
  unfolding get_current_version read_link
  get_current_version-live links v store i p =
      rw (i.current_to_major, i.major_to_minor, i.minor_to_patch, p) refl

  -- Not cut off, `flip_to_new_version` succeeds, the links lead through the new version's names to the
  -- new store, and `get_current_version` reads the new version, for a version that the parser reads
  -- back from the name of its patch link.
  pub flip_to_new_version-IsLive :
      (links : Links) (old new : V) (old_store new_store temp_link : Text)
      → IsLive semver links old old_store
      → IsFresh semver links new temp_link
      → semver.parse (without_v (patch_name semver new)) ≡ some new
      → (links' : Links) × (flip_to_new_version semver temp_link new new_store links ≡ ok links')
        × IsLive semver links' new new_store
        × (get_current_version semver links' ≡ ok new)
  unfolding flip_to_new_version
  flip_to_new_version-IsLive links old new old_store new_store temp_link i f p =
      let last = done semver links old new old_store new_store temp_link i f in
      let lead = all_lead semver links old new old_store new_store temp_link i f in
      (
        swap_all temp_link links (pairs new new_store),
        perform_all-swap_all temp_link old_store new_store links (pairs new new_store) f.absent
            lead,
        last,
        get_current_version-live _ new new_store last p,
      )
