-- ===== src/Updog/Select.antt =====
-- `applicable_updates` and `update_required` of sources/updater/updog/src/main.rs.
pub mod Chosen
pub mod Required
use bottlerocket_core_kit.Prelude.{
  ℕ, Bool, true, false, ◌&&◌, ◌||◌, Option, none, some, List, [], ◌∷◌, String, str_eq,
  if◌then◌else◌, find_by,
}
use bottlerocket_core_kit.Prelude.Order.{Ord, eqb, before, at_most}
use bottlerocket_core_kit.Prelude.Sort.{sort_descending}
use bottlerocket_core_kit.Prelude.Outcome.{Outcome, ok, err, panic, ◌>>=◌, context}
use bottlerocket_core_kit.UpdateMetadata.Chrono.{Chrono}
use bottlerocket_core_kit.UpdateMetadata.Manifest.{Update}
use bottlerocket_core_kit.UpdateMetadata.Wave.{update_ready}

-- The variants of updog's `Error` that choosing an update returns.
pub data Error : Type 0 where
  bad_version_config : String → Error
  bad_version : String → Error

module _ {V : Type 0} ⦃o : Ord V⦄ ⦃c : Chrono⦄ where
  -- The test of the filter; `update_ready` is only called for an update that passes the rest, with the
  -- time `now u` at which the clock is read for it.
  unfoldable pub is_applicable :
      String → String → Bool → ℕ → (Update V c.Time → c.Time) → Update V c.Time → Outcome Error Bool
  is_applicable target_arch variant ignore_waves seed now u =
      if str_eq u.variant variant && (str_eq u.arch target_arch && at_most u.version u.max_version)
      then (if ignore_waves then ok true else update_ready u.waves seed (now u))
      else ok false

  unfoldable pub applicable :
      String
      → String
      → Bool
      → ℕ
      → (Update V c.Time → c.Time)
      → List (Update V c.Time)
      → Outcome Error (List (Update V c.Time))
  unfolding is_applicable
  applicable target_arch variant ignore_waves seed now [] = ok []
  applicable target_arch variant ignore_waves seed now (u ∷ us) = do
    keep ← is_applicable target_arch variant ignore_waves seed now u
    rest ← applicable target_arch variant ignore_waves seed now us
    ok (if keep then u ∷ rest else rest)

  abbrev pub version_of : Update V c.Time → V
  version_of u = u.version

  -- `sort_unstable_by(|a, b| b.version.cmp(&a.version))`; the order of updates of one version is
  -- not specified by the library.
  unfoldable pub applicable_updates :
      String
      → String
      → Bool
      → ℕ
      → (Update V c.Time → c.Time)
      → List (Update V c.Time)
      → Outcome Error (List (Update V c.Time))
  unfolding applicable sort_descending
  applicable_updates target_arch variant ignore_waves seed now updates = do
    found ← applicable target_arch variant ignore_waves seed now updates
    ok (sort_descending version_of found)

  -- Whether a version moves to an update: to a later one, or back from a version that is past all
  -- that were published.
  unfoldable pub moves_to : V → Update V c.Time → Bool
  moves_to version u = before version u.version || before u.max_version version

  unfoldable pub find_version : V → List (Update V c.Time) → Option (Update V c.Time)
  find_version wanted updates = find_by (λ u. eqb u.version wanted) updates

  -- The two conversions of a `version-lock`: to a `FriendlyVersion`, which bottlerocket-modeled-types
  -- accepts or not, and to a semver version.
  module _ {Friendly : Type 0} (friendly : String → Option Friendly)
      (semver : Friendly → Option V) where
    unfoldable pub locked :
        V → String → List (Update V c.Time) → Outcome Error (Option (Update V c.Time))
    unfolding find_version
    locked version version_lock updates = do
      friendly_version_lock ← context (bad_version_config version_lock) (friendly version_lock)
      semver_version_lock ← context (bad_version version_lock) (semver friendly_version_lock)
      ok (
          if eqb semver_version_lock version
          then none
          else find_version semver_version_lock updates)

    -- The answer once the applicable updates are known.
    unfoldable pub choose :
        V → String → Option V → List (Update V c.Time) → Outcome Error (Option (Update V c.Time))
    unfolding locked moves_to find_version
    choose version version_lock (some forced_version) updates =
        ok (find_version forced_version updates)
    choose version version_lock none updates =
        if str_eq version_lock "latest"
        then ok (find_by (moves_to version) updates)
        else locked version version_lock updates

    unfoldable pub update_required :
        List (Update V c.Time)
        → String
        → V
        → String
        → Bool
        → ℕ
        → (Update V c.Time → c.Time)
        → String
        → Option V
        → Outcome Error (Option (Update V c.Time))
    unfolding choose applicable_updates
    update_required manifest target_arch version variant ignore_waves seed now version_lock
          force_version =
        do
          updates ← applicable_updates target_arch variant ignore_waves seed now manifest
          choose version version_lock force_version updates
