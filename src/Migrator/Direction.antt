-- ===== src/Migrator/Direction.antt =====
-- sources/api/migration/migrator/src/direction.rs, and `MigrationVersionMeta` of main.rs.
use bottlerocket_core_kit.Prelude.{Option, none, some, Ordering}
use bottlerocket_core_kit.Prelude.Order.{Ord}

pub data Direction : Type 0 where
  forward backward : Direction

abbrev pub direction_of : Ordering → Option Direction
direction_of Ordering.lt = some forward
direction_of Ordering.gt = some backward
direction_of Ordering.eq = none

pub record MigrationVersionMeta (V : Type 0) : Type 0 where
  pub current_version : V
  pub target_version : V
  pub direction : Direction

module _ {V : Type 0} ⦃o : Ord V⦄ where
  unfoldable pub from_versions : V → V → Option Direction
  from_versions from to = direction_of (o.cmp from to)

  -- `MigrationVersionMeta::new`
  unfoldable pub version_meta : V → V → Option (MigrationVersionMeta V)
  unfolding from_versions
  version_meta current_version target_version =
      elim (from_versions current_version target_version) [
        | none ↦ none
        | some direction ↦ some (record {
          current_version = current_version;
          target_version = target_version;
          direction = direction;
        })
      ]
