-- ===== src/Signpost/Command.antt =====
-- sources/updater/signpost/src/main.rs: one run of the command line, on the table that is on disk.
pub mod Update
use bottlerocket_core_kit.Prelude.{ℕ, Bool, true, false, Option, none, some, String, if◌then◌else◌}
use bottlerocket_core_kit.Prelude.Outcome.{Outcome, ok, err, panic, ◌>>=◌, ◌>>◌, ensure}
use bottlerocket_core_kit.Signpost.Crates.{BitField, Gptman}
use bottlerocket_core_kit.Signpost.Error.{Error, gpt_write, open_failed}
use bottlerocket_core_kit.Signpost.Load.{System, load}
use bottlerocket_core_kit.Signpost.Set.{PartitionSet, SetSelect, set_a, set_b}
use bottlerocket_core_kit.Signpost.State.{
  State, active, active_set, inactive_set, gptprio, next, mark_successful_boot, clear_inactive,
  mark_inactive_valid, upgrade_to_inactive, cancel_upgrade, rollback_to_inactive,
  has_boot_succeeded_in,
}

-- The names that `serde_plain` accepts are the kebab-case ones of the variants.
pub data Command : Type 0 where
  status mark_successful mark_valid clear upgrade cancel rollback : Command
  has_boot_ever_succeeded rewrite_table : Command

-- How the disk takes a write: whether it opens for writing, and whether the write succeeds.
pub record Writer : Type 0 where
  pub opens : Bool
  pub writes : Bool

-- A line of `State`'s `Display` about one set: the letter it prints, the paths and the flags.
pub record SetLine : Type 0 where
  pub label : SetSelect
  pub paths : PartitionSet
  pub flags : ℕ

-- `Display` of `State`, line by line; `Set B` has a line only where there is an inactive set.
pub record Status : Type 0 where
  pub os_disk_line : String
  pub first_line : SetLine
  pub second_line : Option SetLine
  pub active_line : SetSelect
  pub next_line : Option SetSelect

pub data Printed : Type 0 where
  nothing : Printed
  printed_status : Status → Printed
  printed_true : Printed

-- What a run leaves: what it prints, and the table that it wrote, if it did.
pub record Finished (Table : Type 0) : Type 0 where
  pub output : Printed
  pub written : Option Table

module _ ⦃bits : BitField⦄ ⦃gpt : Gptman⦄ where
  second_line_of : State gpt.Table → Option PartitionSet → Outcome Error (Option SetLine)
  second_line_of s none = ok none
  second_line_of s (some paths) = do
    flags ← gptprio s set_b
    ok (some (record { label = set_b; paths = paths; flags = flags }))

  unfoldable pub display : State gpt.Table → Outcome Error Status
  unfolding second_line_of
  display s = do
    flags ← gptprio s set_a
    second ← second_line_of s (inactive_set s)
    following ← next s
    ok (record {
      os_disk_line = s.os_disk;
      first_line = record { label = set_a; paths = active_set s; flags = flags };
      second_line = second;
      active_line = active s;
      next_line = following;
    })

  unfoldable pub write : Writer → State gpt.Table → Outcome Error (Finished gpt.Table)
  write w s = do
    ensure w.opens (open_failed s.os_disk "writing")
    ensure w.writes (gpt_write s.os_disk)
    ok (record { output = nothing; written = some s.table })

  -- The arms of the match on the command.
  unfoldable pub execute : Writer → Command → State gpt.Table → Outcome Error (Finished gpt.Table)
  unfolding write
  execute w status s = do
    shown ← display s
    ok (record { output = printed_status shown; written = none })
  execute w clear s = do s ← clear_inactive s; write w s
  execute w mark_successful s = do s ← mark_successful_boot s; write w s
  execute w mark_valid s = do s ← mark_inactive_valid s; write w s
  execute w upgrade s = do s ← upgrade_to_inactive s; write w s
  execute w cancel s = do s ← cancel_upgrade s; write w s
  execute w rollback s = do s ← rollback_to_inactive s; write w s
  execute w has_boot_ever_succeeded s = do
    succeeded ← has_boot_succeeded_in s
    ok (record { output = if succeeded then printed_true else nothing; written = none })
  execute w rewrite_table s = write w s

  unfoldable pub run : System gpt.Table → Writer → Command → Outcome Error (Finished gpt.Table)
  run sys w command = do s ← load sys; execute w command s
