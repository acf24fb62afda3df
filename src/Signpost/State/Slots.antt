-- ===== src/Signpost/State/Slots.antt =====
-- What the methods of `State` promise, without bits, tables or partition numbers: the flags of the
-- running set and of the other one, and the private mark.
use bottlerocket_core_kit.Prelude.{
  Bool, true, false, not, ◌&&◌, Option, none, some, String, ltb, ◌==◌, if◌then◌else◌,
}
use bottlerocket_core_kit.Prelude.Outcome.{Outcome, ok, err}
use bottlerocket_core_kit.Signpost.GptPrio.Flags.{Flags, bootable}
use bottlerocket_core_kit.Signpost.Set.{SetSelect, set_a, set_b}
use bottlerocket_core_kit.Signpost.Error.{
  Error, inactive_already_marked, inactive_not_valid, inactive_invalid_rollback,
}

pub record Slots : Type 0 where
  pub disk : String
  pub running : SetSelect
  pub current : Flags
  pub standby : Flags
  pub ever_booted : Bool

-- The operations of the command line that change the flags.
pub data Operation : Type 0 where
  clear mark_valid upgrade cancel rollback mark_successful : Operation

abbrev pub prioritize : Slots → Slots
prioritize b = record b {
  current = record b.current { prio = 1 };
  standby = record b.standby { prio = 2 };
}

unfoldable pub apply : Operation → Slots → Outcome Error Slots
apply clear b = ok (record b { standby = record b.standby { prio = 0; tries = 0; booted = false } })
apply mark_valid b = ok (record b { standby = record b.standby { tries = 1 } })
apply upgrade b =
    if b.standby.prio == 0 && not b.standby.booted
    then (if ltb 0 b.standby.tries then ok (prioritize b) else err (inactive_not_valid b.disk))
    else err (inactive_already_marked b.disk)
apply cancel b =
    ok (record b {
      current = record b.current { prio = 2 };
      standby = record b.standby { prio = 0 };
    })
apply rollback b =
    if bootable b.standby
    then ok (prioritize b)
    else err (inactive_invalid_rollback b.standby.prio b.standby.tries b.standby.booted)
apply mark_successful b =
    ok (record b { current = record b.current { booted = true }; ever_booted = true })

-- The flags of set A and of set B.
abbrev pub flags_a : Slots → Flags
flags_a b = elim b.running [ set_a ↦ b.current | set_b ↦ b.standby ]

abbrev pub flags_b : Slots → Flags
flags_b b = elim b.running [ set_a ↦ b.standby | set_b ↦ b.current ]

-- What the boot loader takes: set A, if it is bootable and set B is not or has no higher priority;
-- set B, if it is bootable otherwise; or neither.
unfoldable pub boots : Slots → Option SetSelect
boots b =
    let a_yields = bootable (flags_b b) && ltb (flags_a b).prio (flags_b b).prio in
    if bootable (flags_a b) && not a_yields
    then some set_a
    else if bootable (flags_b b)
    then some set_b
    else none
