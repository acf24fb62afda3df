-- ===== src/Migrator/Links.antt =====
-- The symbolic links that name the live data store: `get_current_version` and
-- `flip_to_new_version` of sources/api/migration/migrator/src/main.rs.
pub mod Names
pub mod Swaps
pub mod States
pub mod Atomic
use bottlerocket_core_kit.Prelude.{
  ℕ, Bool, true, false, Option, none, some, List, [], ◌∷◌, ◌++◌, if◌then◌else◌, ◌==◌,
}
use bottlerocket_core_kit.Prelude.Text.{Text}
use bottlerocket_core_kit.Prelude.HashMap.{HashMap, text_key, get, put, remove}
use bottlerocket_core_kit.Prelude.Outcome.{Outcome, ok, err, ◌>>=◌, ◌>>◌, context}
use bottlerocket_core_kit.Prelude.Decimal.{to_decimal}

-- The links of the directory of data stores, by name; a link's target is a name in it too.
abbrev pub Links : Type 0
Links = HashMap Text Text

-- The variants of the migrator's `Error` that concern links.
pub data Error : Type 0 where
  link_read : (link : Text) → Error
  link_create : (path : Text) → Error
  link_swap : (link : Text) → Error
  invalid_data_store_version : (path : Text) → Error

-- What the code uses of the crate `semver`.
pub record Semver (V : Type 0) : Type 0 where
  pub major : V → ℕ
  pub minor : V → ℕ
  pub patch : V → ℕ
  pub parse : Text → Option V

unfoldable pub read_link : Text → Links → Outcome Error Text
unfolding get
read_link link links = context (link_read link) (get link links)

-- "current"
abbrev pub current_name : Text
current_name = 99 ∷ 117 ∷ 114 ∷ 114 ∷ 101 ∷ 110 ∷ 116 ∷ []

-- `starts_with('v')`, and the rest
abbrev pub without_v : Text → Text
without_v [] = []
without_v (c ∷ s) = if c == 118 then s else c ∷ s

-- `symlink` makes a link where there is none; `rename` puts the link at another place, over one
-- that may be there.
pub data LinkStep : Type 0 where
  create : (target : Text) → LinkStep
  swap : (link : Text) → LinkStep

unfoldable pub perform : Text → LinkStep → Links → Outcome Error Links
unfolding get put remove
perform temp_link (create target) links = elim (get temp_link links) [
  | none ↦ ok (put temp_link target links)
  | some _ ↦ err (link_create temp_link)
]
perform temp_link (swap link) links = do
  target ← context (link_swap link) (get temp_link links)
  ok (put link target (remove temp_link links))

unfoldable pub perform_all : Text → List LinkStep → Links → Outcome Error Links
unfolding perform
perform_all temp_link [] links = ok links
perform_all temp_link (step ∷ steps) links = do
  links ← perform temp_link step links
  perform_all temp_link steps links

module _ {V : Type 0} (semver : Semver V) where
  unfoldable pub get_current_version : Links → Outcome Error V
  unfolding read_link
  get_current_version links = do
    major ← read_link current_name links
    minor ← read_link major links
    patch ← read_link minor links
    context (invalid_data_store_version patch) (semver.parse (without_v patch))

  unfoldable pub major_name : V → Text
  major_name v = 118 ∷ to_decimal (semver.major v)

  unfoldable pub minor_name : V → Text
  unfolding major_name
  minor_name v = major_name v ++ (46 ∷ to_decimal (semver.minor v))

  unfoldable pub patch_name : V → Text
  unfolding minor_name
  patch_name v = minor_name v ++ (46 ∷ to_decimal (semver.patch v))

  -- The calls of `flip_to_new_version` that change the directory, in their order.
  abbrev pub flip_steps : V → Text → List LinkStep
  flip_steps version to_target =
      create to_target
      ∷ swap (patch_name version)
      ∷ create (patch_name version)
      ∷ swap (minor_name version)
      ∷ create (minor_name version)
      ∷ swap (major_name version)
      ∷ create (major_name version)
      ∷ swap current_name
      ∷ []

  -- `to_target` is the name of the new data store; the name of the temporary link is random.
  unfoldable pub flip_to_new_version : Text → V → Text → Links → Outcome Error Links
  unfolding perform_all
  flip_to_new_version temp_link version to_target links =
      perform_all temp_link (flip_steps version to_target) links
