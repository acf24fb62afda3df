-- ===== src/Signpost/State.antt =====
-- sources/updater/signpost/src/state.rs: the partition sets and the partition table, read once and
-- changed in memory. A method that fails leaves the state as it was, or the caller drops it.
pub mod Holds
pub mod Slots
pub mod Refines
pub mod Sequence
pub mod Keeps
use bottlerocket_core_kit.Prelude.{
  ℕ, Bool, true, false, not, ◌&&◌, Option, none, some, List, String, ltb, leb, ◌==◌, if◌then◌else◌,
  get_elem?,
}
use bottlerocket_core_kit.Prelude.Outcome.{Outcome, ok, ◌>>=◌, ◌>>◌, context, or_panic, ensure}
use bottlerocket_core_kit.Signpost.Crates.{BitField, Gptman}
use bottlerocket_core_kit.Signpost.GptPrio.{
  GptPrio, priority, set_priority, tries_left, set_tries_left, successful, set_successful,
  will_boot, boot_has_succeeded, has_boot_succeeded,
}
use bottlerocket_core_kit.Signpost.Set.{PartitionSet, SetSelect, set_a, set_b, idx, other}
use bottlerocket_core_kit.Signpost.Error.{
  Error, inactive_already_marked, inactive_not_available, inactive_not_valid,
  inactive_invalid_rollback,
}

-- The array of two sets, and the active one.
pub record DualPartitionSet : Type 0 where
  pub first_set : PartitionSet
  pub second_set : PartitionSet
  pub active : SetSelect

pub data PartitionSets : Type 0 where
  single : PartitionSet → PartitionSets
  dual : DualPartitionSet → PartitionSets

pub record State (Table : Type 0) : Type 0 where
  pub os_disk : String
  pub private_partition_num : ℕ
  pub sets : PartitionSets
  pub boot_partition_nums : List ℕ
  pub table : Table

-- `s.sets[select.idx()]`
abbrev pub nth_set : DualPartitionSet → SetSelect → PartitionSet
nth_set d set_a = d.first_set
nth_set d set_b = d.second_set

abbrev pub active_in : PartitionSets → SetSelect
active_in (dual d) = d.active
active_in (single _) = set_a

abbrev pub inactive_in : PartitionSets → Option SetSelect
inactive_in (dual d) = some (other d.active)
inactive_in (single _) = none

abbrev pub active_set_in : PartitionSets → PartitionSet
active_set_in (dual d) = nth_set d d.active
active_set_in (single s) = s

abbrev pub inactive_set_in : PartitionSets → Option PartitionSet
inactive_set_in (dual d) = some (nth_set d (other d.active))
inactive_set_in (single _) = none

module _ {Table : Type 0} where
  abbrev pub active : State Table → SetSelect
  active s = active_in s.sets

  abbrev pub inactive : State Table → Option SetSelect
  inactive s = inactive_in s.sets

  abbrev pub active_set : State Table → PartitionSet
  active_set s = active_set_in s.sets

  abbrev pub inactive_set : State Table → Option PartitionSet
  inactive_set s = inactive_set_in s.sets

-- The choice of `next` between two sets that are there.
unfoldable pub choose : Bool → Bool → Bool → Option SetSelect
choose true true a_first = some (if a_first then set_a else set_b)
choose true false _ = some set_a
choose false true _ = some set_b
choose false false _ = none

module _ ⦃gpt : Gptman⦄ where
  unfoldable pub gpt_attributes : State gpt.Table → ℕ → Outcome Error ℕ
  gpt_attributes s num_part = or_panic (gpt.attributes s.table num_part)

  unfoldable pub gptprio : State gpt.Table → SetSelect → Outcome Error GptPrio
  gptprio s select = do
    n ← or_panic (get_elem? s.boot_partition_nums (idx select))
    gpt_attributes s n

  -- The assignment indexes the table, which panics as the read does.
  unfoldable pub set_gpt_attributes :
      State gpt.Table → ℕ → GptPrio → Outcome Error (State gpt.Table)
  set_gpt_attributes s num_part flags = do
    gpt_attributes s num_part
    ok (record s { table = gpt.set_attributes s.table num_part flags })

  unfoldable pub set_gptprio :
      State gpt.Table → SetSelect → GptPrio → Outcome Error (State gpt.Table)
  set_gptprio s select flags = do
    n ← or_panic (get_elem? s.boot_partition_nums (idx select))
    set_gpt_attributes s n flags

module _ ⦃bits : BitField⦄ ⦃gpt : Gptman⦄ where
  next_dual : State gpt.Table → Outcome Error (Option SetSelect)
  next_dual s = do
    a ← gptprio s set_a
    b ← gptprio s set_b
    ok (choose (will_boot a) (will_boot b) (leb (priority b) (priority a)))

  next_single : State gpt.Table → Outcome Error (Option SetSelect)
  next_single s = do a ← gptprio s set_a; ok (if will_boot a then some set_a else none)

  -- The set that the boot loader will start, if any.
  unfoldable pub next : State gpt.Table → Outcome Error (Option SetSelect)
  unfolding next_dual next_single
  next s = elim s.sets [ single _ ↦ next_single s | dual _ ↦ next_dual s ]

  unfoldable pub mark_successful_boot : State gpt.Table → Outcome Error (State gpt.Table)
  mark_successful_boot s = do
    flags ← gptprio s (active s)
    s ← set_gptprio s (active s) (set_successful flags true)
    private_flags ← gpt_attributes s s.private_partition_num
    set_gpt_attributes s s.private_partition_num (boot_has_succeeded private_flags)

  unfoldable pub clear_inactive : State gpt.Table → Outcome Error (State gpt.Table)
  clear_inactive s = do
    inactive ← context (inactive_not_available s.os_disk) (inactive s)
    flags ← gptprio s inactive
    flags ← set_priority flags 0
    flags ← set_tries_left flags 0
    set_gptprio s inactive (set_successful flags false)

  unfoldable pub mark_inactive_valid : State gpt.Table → Outcome Error (State gpt.Table)
  mark_inactive_valid s = do
    inactive ← context (inactive_not_available s.os_disk) (inactive s)
    flags ← gptprio s inactive
    flags ← set_tries_left flags 1
    set_gptprio s inactive flags

  unfoldable pub upgrade_to_inactive : State gpt.Table → Outcome Error (State gpt.Table)
  upgrade_to_inactive s = do
    inactive ← context (inactive_not_available s.os_disk) (inactive s)
    flags ← gptprio s inactive
    ensure (priority flags == 0 && not (successful flags)) (inactive_already_marked s.os_disk)
    ensure (ltb 0 (tries_left flags)) (inactive_not_valid s.os_disk)
    flags ← set_priority flags 2
    s ← set_gptprio s inactive (set_successful flags false)
    active_flags ← gptprio s (active s)
    active_flags ← set_priority active_flags 1
    set_gptprio s (active s) active_flags

  unfoldable pub cancel_upgrade : State gpt.Table → Outcome Error (State gpt.Table)
  cancel_upgrade s = do
    inactive ← context (inactive_not_available s.os_disk) (inactive s)
    flags ← gptprio s inactive
    flags ← set_priority flags 0
    s ← set_gptprio s inactive flags
    active_flags ← gptprio s (active s)
    active_flags ← set_priority active_flags 2
    set_gptprio s (active s) active_flags

  unfoldable pub rollback_to_inactive : State gpt.Table → Outcome Error (State gpt.Table)
  rollback_to_inactive s = do
    inactive ← context (inactive_not_available s.os_disk) (inactive s)
    flags ← gptprio s inactive
    ensure (will_boot flags)
        (inactive_invalid_rollback (priority flags) (tries_left flags) (successful flags))
    flags ← set_priority flags 2
    s ← set_gptprio s inactive flags
    active_flags ← gptprio s (active s)
    active_flags ← set_priority active_flags 1
    set_gptprio s (active s) active_flags

  -- Whether the private partition has the mark of a successful boot.
  unfoldable pub has_boot_succeeded_in : State gpt.Table → Outcome Error Bool
  has_boot_succeeded_in s = do
    private_flags ← gpt_attributes s s.private_partition_num
    ok (has_boot_succeeded private_flags)
