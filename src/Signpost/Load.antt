-- ===== src/Signpost/Load.antt =====
-- `State::load` of sources/updater/signpost/src/state.rs: the partition sets that the disk of the
-- root file system has, and the one that the system runs from.
mod Wired
mod Active
pub mod Sound
use bottlerocket_core_kit.Prelude.{
  ℕ, zero, suc, Bool, true, false, Option, none, some, List, [], ◌∷◌, ◌++◌, String, if◌then◌else◌,
  get_elem?, filter_by,
}
use bottlerocket_core_kit.Prelude.Outcome.{Outcome, ok, err, panic, ◌>>=◌, ◌>>◌, context, ensure}
use bottlerocket_core_kit.Signpost.Crates.{Gptman}
use bottlerocket_core_kit.Signpost.Error.{
  Error, active_not_in_set, block_device_from_path, disk_from_partition, partition_from_disk,
  gpt_find, open_failed, partition_missing_from_set, partition_not_found_on_device,
  root_has_no_lower_devices, root_lower_devices, root_not_partition,
}
use bottlerocket_core_kit.Signpost.Guid.{
  guid_eq, bottlerocket_boot, bottlerocket_root, bottlerocket_hash, bottlerocket_private,
}
use bottlerocket_core_kit.Signpost.Set.{PartitionSet, contains, SetSelect, set_a, set_b}
use bottlerocket_core_kit.Signpost.State.{PartitionSets, single, dual, State}

-- What the system answers to the calls of `load`. The outer `none` is a failed call, the inner one
-- a device that is not there.
pub record System (Table : Type 0) : Type 0 where
  pub root_found : Bool
  pub lower_device : Option (Option String)
  pub disk : Option (Option String)
  pub disk_opens : Bool
  pub table : Option Table
  pub partition : ℕ → Option (Option String)

-- The number of the nth entry whose type GUID is `guid`.
unfoldable pub nth_guid : List (ℕ × List ℕ) → List ℕ → ℕ → Option ℕ
nth_guid entries guid n = elim (get_elem? (filter_by (λ e. guid_eq e.1 guid) entries) n) [
  | none ↦ none
  | some e ↦ some e.0
]

abbrev pub set_name : ℕ → SetSelect
set_name zero = set_a
set_name (suc n) = set_b

unfoldable pub required_guid : List (ℕ × List ℕ) → List ℕ → ℕ → Outcome Error ℕ
required_guid entries guid n =
    context (partition_missing_from_set (set_name n)) (nth_guid entries guid n)

unfoldable pub device_from_part_num :
    (ℕ → Option (Option String)) → String → ℕ → Outcome Error String
device_from_part_num partition os_disk num = do
  found ← context partition_from_disk (partition num)
  context (partition_not_found_on_device num os_disk) found

-- The nth set, by the number of its boot partition.
unfoldable pub load_set :
    (ℕ → Outcome Error String) → List (ℕ × List ℕ) → ℕ → ℕ → Outcome Error PartitionSet
load_set device entries boot_num n = do
  boot ← device boot_num
  root_num ← required_guid entries bottlerocket_root n
  root ← device root_num
  hash_num ← required_guid entries bottlerocket_hash n
  hash ← device hash_num
  ok (record { boot = boot; root = root; hash = hash })

unfoldable pub select_active : PartitionSet → PartitionSet → String → Outcome Error PartitionSets
select_active a b partition =
    if contains a partition
    then ok (dual (record { first_set = a; second_set = b; active = set_a }))
    else if contains b partition
    then ok (dual (record { first_set = a; second_set = b; active = set_b }))
    else err (active_not_in_set partition (a ∷ b ∷ []))

-- By `boot_partition_nums.len()`.
unfoldable pub load_sets :
    (ℕ → Outcome Error String) → List (ℕ × List ℕ) → String → List ℕ → Outcome Error PartitionSets
load_sets device entries active_partition (num_a ∷ num_b ∷ []) = do
  a ← load_set device entries num_a 0
  b ← load_set device entries num_b 1
  select_active a b active_partition
load_sets device entries active_partition (num_a ∷ _) = do
  a ← load_set device entries num_a 0
  ok (single a)
load_sets device entries active_partition [] = panic

abbrev pub push_found : List ℕ → Option ℕ → List ℕ
push_found nums none = nums
push_found nums (some b) = nums ++ b ∷ []

module _ ⦃gpt : Gptman⦄ where
  -- From the parsed table on.
  unfoldable pub load_from :
      System gpt.Table → String → String → gpt.Table → Outcome Error (State gpt.Table)
  load_from sys os_disk active_partition table = do
    let entries = gpt.iter table
    boot_a ← required_guid entries bottlerocket_boot 0
    let nums = push_found (boot_a ∷ []) (nth_guid entries bottlerocket_boot 1)
    sets ← load_sets (device_from_part_num sys.partition os_disk) entries active_partition nums
    private_num ← required_guid entries bottlerocket_private 0
    ok (record {
      os_disk = os_disk;
      private_partition_num = private_num;
      sets = sets;
      boot_partition_nums = nums;
      table = table;
    })

  unfoldable pub load : System gpt.Table → Outcome Error (State gpt.Table)
  load sys = do
    ensure sys.root_found block_device_from_path
    lower ← context root_lower_devices sys.lower_device
    active_partition ← context root_has_no_lower_devices lower
    disk ← context disk_from_partition sys.disk
    os_disk ← context root_not_partition disk
    ensure sys.disk_opens (open_failed os_disk "reading")
    table ← context (gpt_find os_disk) sys.table
    load_from sys os_disk active_partition table
