-- ===== src/Signpost/Examples.antt =====
-- A disk with two partition sets, running from set B, and the theorems about signpost on it.
use bottlerocket_core_kit.Prelude.{
  ℕ, ◌≡◌, refl, true, false, Option, some, List, [], ◌∷◌, String, ◌==◌, arith,
}
use bottlerocket_core_kit.Prelude.Outcome.{ok}
use bottlerocket_core_kit.Signpost.Command.{Writer, Status, display}
use bottlerocket_core_kit.Signpost.Command.Update.{session, session-perform_all, update_session}
use bottlerocket_core_kit.Signpost.Crates.Bits.{u64_bits, get_bits, set_bits}
use bottlerocket_core_kit.Signpost.Crates.Entries.{
  Entries, entry_table, attributes_from, numbered, set_from,
}
use bottlerocket_core_kit.Signpost.GptPrio.{
  priority, set_priority, tries_left, set_tries_left, successful, set_successful, will_boot,
  has_boot_succeeded,
}
use bottlerocket_core_kit.Signpost.GptPrio.Flags.{flags_of}
use bottlerocket_core_kit.Signpost.Guid.{
  guid_eq, bottlerocket_boot, bottlerocket_root, bottlerocket_hash, bottlerocket_private,
}
use bottlerocket_core_kit.Signpost.Load.{
  System, load, load_from, nth_guid, required_guid, device_from_part_num, load_set, select_active,
  load_sets,
}
use bottlerocket_core_kit.Signpost.Load.Sound.{load-contains}
use bottlerocket_core_kit.Signpost.Set.{PartitionSet, SetSelect, set_a, set_b, contains}
use bottlerocket_core_kit.Signpost.State.{
  DualPartitionSet, single, dual, State, nth_set, next, gptprio, gpt_attributes, set_gptprio,
  set_gpt_attributes, choose, upgrade_to_inactive, mark_inactive_valid,
}
use bottlerocket_core_kit.Signpost.State.Holds.{Represents}
use bottlerocket_core_kit.Signpost.State.Refines.{perform, Agrees, next-eq-boots}
use bottlerocket_core_kit.Signpost.State.Sequence.{
  apply_all, perform_all, perform_all-Agrees, stays_bootable,
}
use bottlerocket_core_kit.Signpost.State.Slots.{Slots, Operation, boots}

abbrev table_entries : Entries
table_entries =
    (bottlerocket_boot, 0x11_0000_0000_0000)
    ∷ (bottlerocket_boot, 0x0111_0000_0000_0000)
    ∷ (bottlerocket_root, 0)
    ∷ (bottlerocket_root, 0)
    ∷ (bottlerocket_hash, 0)
    ∷ (bottlerocket_hash, 0)
    ∷ (bottlerocket_private, 0x0200_0000_0000_0000)
    ∷ []

abbrev path_of : ℕ → Option (Option String)
path_of n = some (elim (n == 1) [
  | true ↦ some "/dev/a1"
  | false ↦ elim (n == 2) [
    | true ↦ some "/dev/b1"
    | false ↦ elim (n == 4) [ true ↦ some "/dev/b2" | false ↦ some "/dev/other" ]
  ]
])

abbrev sys : System Entries
sys = record {
  root_found = true;
  lower_device = some (some "/dev/b2");
  disk = some (some "/dev/disk");
  disk_opens = true;
  table = some table_entries;
  partition = path_of;
}

abbrev paths_a : PartitionSet
paths_a = record { boot = "/dev/a1"; root = "/dev/other"; hash = "/dev/other" }

abbrev paths_b : PartitionSet
paths_b = record { boot = "/dev/b1"; root = "/dev/b2"; hash = "/dev/other" }

abbrev both : DualPartitionSet
both = record { first_set = paths_a; second_set = paths_b; active = set_b }

abbrev loaded : State Entries
loaded = record {
  os_disk = "/dev/disk";
  private_partition_num = 7;
  sets = dual both;
  boot_partition_nums = 1 ∷ 2 ∷ [];
  table = table_entries;
}

load_example : load sys ≡ ok loaded
unfolding load load_from nth_guid required_guid device_from_part_num load_set select_active
    load_sets numbered guid_eq bottlerocket_boot bottlerocket_root bottlerocket_hash
    bottlerocket_private contains
load_example = refl

abbrev slots : Slots
slots = record {
  disk = "/dev/disk";
  running = set_b;
  current = record { prio = 1; tries = 1; booted = true; succeeded = false };
  standby = record { prio = 1; tries = 1; booted = false; succeeded = false };
  ever_booted = true;
}

loaded-Represents : Represents loaded slots
unfolding flags_of priority tries_left successful has_boot_succeeded get_bits attributes_from
loaded-Represents = record {
  pair = both;
  current_num = 2;
  standby_num = 1;
  current_word = 0x0111_0000_0000_0000;
  standby_word = 0x11_0000_0000_0000;
  private_word = 0x0200_0000_0000_0000;
  sets_dual = refl;
  running_eq = refl;
  disk_eq = refl;
  current_at = refl;
  standby_at = refl;
  current_ne_standby = omega arith;
  private_ne_current = omega arith;
  private_ne_standby = omega arith;
  current_read = refl;
  standby_read = refl;
  private_read = refl;
  current_flags = refl;
  standby_flags = refl;
  private_flag = refl;
}

abbrev some_operations : List Operation
some_operations = Operation.clear ∷ Operation.upgrade ∷ []

perform_all-Agrees_example :
    Agrees (perform_all some_operations loaded) (apply_all some_operations slots)
perform_all-Agrees_example = perform_all-Agrees some_operations loaded slots loaded-Represents

next-eq-boots_example : next loaded ≡ ok (boots slots)
next-eq-boots_example = next-eq-boots loaded-Represents

load-contains_example :
    (b : Slots) × (partition : String) × Represents loaded b
    × (sys.lower_device ≡ some (some partition))
    × (contains (nth_set both both.active) partition ≡ true)
load-contains_example = load-contains sys loaded both load_example refl

abbrev willing : Writer
willing = record { opens = true; writes = true }

update_session_example :
    (sys' : System Entries) × (t : State Entries) × (session willing
        (Operation.clear ∷ Operation.mark_valid ∷ Operation.upgrade ∷ [])
        sys
      ≡ ok sys')
    × (load sys' ≡ ok t)
    × (next t ≡ ok (some set_a))
update_session_example = update_session willing refl refl sys both load_example refl

-- The loaded state with other flags on the boot partition of set A.
abbrev with_flags_a : ℕ → State Entries
with_flags_a x = record loaded { table = set_from 1 table_entries 1 x }

with_flags_a-Represents :
    Represents
      (with_flags_a 0x10_0000_0000_0000)
      (record slots { standby = record { prio = 0; tries = 1; booted = false; succeeded = false } })
unfolding flags_of priority tries_left successful has_boot_succeeded get_bits attributes_from
    set_from
with_flags_a-Represents = record {
  pair = both;
  current_num = 2;
  standby_num = 1;
  current_word = 0x0111_0000_0000_0000;
  standby_word = 0x10_0000_0000_0000;
  private_word = 0x0200_0000_0000_0000;
  sets_dual = refl;
  running_eq = refl;
  disk_eq = refl;
  current_at = refl;
  standby_at = refl;
  current_ne_standby = omega arith;
  private_ne_current = omega arith;
  private_ne_standby = omega arith;
  current_read = refl;
  standby_read = refl;
  private_read = refl;
  current_flags = refl;
  standby_flags = refl;
  private_flag = refl;
}

upgrade_runs :
    perform Operation.upgrade (with_flags_a 0x10_0000_0000_0000)
    ≡ ok (with_flags_a 0x12_0000_0000_0000)
unfolding perform upgrade_to_inactive gptprio gpt_attributes set_gptprio set_gpt_attributes
    set_priority set_successful priority tries_left successful get_bits set_bits attributes_from
    set_from
upgrade_runs = refl

mark_valid_runs :
    perform_all (Operation.mark_valid ∷ []) loaded ≡ ok (with_flags_a 0x11_0000_0000_0000)
unfolding perform_all perform mark_inactive_valid gptprio gpt_attributes set_gptprio
    set_gpt_attributes set_tries_left get_bits set_bits attributes_from set_from
mark_valid_runs = refl

stays_bootable_example :
    (select : SetSelect) × (next (with_flags_a 0x11_0000_0000_0000) ≡ ok (some select))
stays_bootable_example =
    stays_bootable loaded-Represents (Operation.mark_valid ∷ []) refl mark_valid_runs

session-perform_all_example :
    (sys' : System Entries) × (session willing (Operation.mark_valid ∷ []) sys ≡ ok sys')
    × (load sys' ≡ ok (with_flags_a 0x11_0000_0000_0000))
session-perform_all_example =
    session-perform_all willing refl refl (Operation.mark_valid ∷ []) sys load_example
      mark_valid_runs

abbrev shown : Status
shown = record {
  os_disk_line = "/dev/disk";
  first_line = record { label = set_a; paths = paths_b; flags = 0x11_0000_0000_0000 };
  second_line = some (record { label = set_b; paths = paths_a; flags = 0x0111_0000_0000_0000 });
  active_line = set_b;
  next_line = some set_a;
}

display_example : display loaded ≡ ok shown
unfolding display next gptprio gpt_attributes will_boot priority tries_left successful choose
    get_bits attributes_from
display_example = refl

gptprio_examples :
    (gptprio loaded set_a ≡ ok 0x11_0000_0000_0000)
    × (gptprio loaded set_b ≡ ok 0x0111_0000_0000_0000)
unfolding gptprio gpt_attributes attributes_from
gptprio_examples = (refl, refl)

abbrev lone : State Entries
lone = record loaded { sets = single paths_a; boot_partition_nums = 1 ∷ [] }
