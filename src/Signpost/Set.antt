-- ===== src/Signpost/Set.antt =====
-- sources/updater/signpost/src/set.rs: a partition set, and which of the two is meant.
use bottlerocket_core_kit.Prelude.{ℕ, Bool, ◌||◌, String, str_eq}

-- The paths of a set's three partitions.
pub record PartitionSet : Type 0 where
  pub boot : String
  pub root : String
  pub hash : String

unfoldable pub contains : PartitionSet → String → Bool
contains s device = str_eq s.boot device || str_eq s.root device || str_eq s.hash device

pub data SetSelect : Type 0 where
  set_a set_b : SetSelect

abbrev pub idx : SetSelect → ℕ
idx set_a = 0
idx set_b = 1

-- `!`
abbrev pub other : SetSelect → SetSelect
other set_a = set_b
other set_b = set_a

-- `==` of the derived `PartialEq`
abbrev pub same_select : SetSelect → SetSelect → Bool
same_select set_a set_a = Bool.true
same_select set_b set_b = Bool.true
same_select _ _ = Bool.false
