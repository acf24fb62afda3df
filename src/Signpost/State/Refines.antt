-- ===== src/Signpost/State/Refines.antt =====
-- Every method of `State` does to the table what its operation does to the slots.
use bottlerocket_core_kit.Prelude.{
  ℕ, ◌<◌, ◌≡◌, ap, true, false, not, ◌&&◌, arith, ltb, ◌==◌, Bool-cases, inl, inr,
}
use bottlerocket_core_kit.Prelude.Outcome.{Outcome, ok, err, ◌>>=◌}
use bottlerocket_core_kit.Signpost.Crates.{BitField, Gptman}
use bottlerocket_core_kit.Signpost.Error.{Error}
use bottlerocket_core_kit.Signpost.GptPrio.{
  priority, set_priority, tries_left, successful, set_successful, will_boot,
}
use bottlerocket_core_kit.Signpost.GptPrio.Flags.{
  Flags, bootable, flags_of, with_priority, set_priority_fits, set_tries_left_fits,
  flags_of-with_priority, flags_of-with_tries_left, flags_of-set_successful,
  flags_of-boot_has_succeeded,
}
use bottlerocket_core_kit.Signpost.Set.{other}
use bottlerocket_core_kit.Signpost.State.{
  State, active, gptprio, set_gptprio, next, mark_successful_boot, clear_inactive,
  mark_inactive_valid, upgrade_to_inactive, cancel_upgrade, rollback_to_inactive,
  has_boot_succeeded_in, choose,
}
use bottlerocket_core_kit.Signpost.State.Holds.{
  Represents, active_lem, inactive_lem, gptprio-current, gptprio-standby, private_attributes,
  set_current, set_standby, set_private, put-current, put-standby, put-private,
}
use bottlerocket_core_kit.Signpost.State.Slots.{
  Slots, Operation, clear, mark_valid, upgrade, cancel, rollback, mark_successful, apply, boots,
}

module _ ⦃bits : BitField⦄ ⦃gpt : Gptman⦄ where
  -- The method that an operation names.
  unfoldable pub perform : Operation → State gpt.Table → Outcome Error (State gpt.Table)
  perform clear s = clear_inactive s
  perform mark_valid s = mark_inactive_valid s
  perform upgrade s = upgrade_to_inactive s
  perform cancel s = cancel_upgrade s
  perform rollback s = rollback_to_inactive s
  perform mark_successful s = mark_successful_boot s

  -- Same outcome: both succeed in states that correspond, or both fail with the same error.
  abbrev pub Agrees : Outcome Error (State gpt.Table) → Outcome Error Slots → Type 0
  Agrees (ok s) (ok b) = Represents s b
  Agrees (err e) (err e') = e ≡ e'
  Agrees _ _ = ⊥

  module _ {s : State gpt.Table} {b : Slots} (r : Represents s b) where
    standby_prio : priority r.standby_word ≡ b.standby.prio
    standby_prio = unfold flags_of in ap (λ (f : Flags). f.prio) r.standby_flags

    standby_tries : tries_left r.standby_word ≡ b.standby.tries
    standby_tries = unfold flags_of in ap (λ (f : Flags). f.tries) r.standby_flags

    standby_booted : successful r.standby_word ≡ b.standby.booted
    standby_booted = unfold flags_of in ap (λ (f : Flags). f.booted) r.standby_flags

    standby_will_boot : will_boot r.standby_word ≡ bootable b.standby
    unfolding will_boot
    standby_will_boot = rw (standby_prio, standby_tries, standby_booted)

    current_will_boot : will_boot r.current_word ≡ bootable b.current
    unfolding will_boot flags_of
    current_will_boot = ap bootable r.current_flags

    current_prio : priority r.current_word ≡ b.current.prio
    current_prio = unfold flags_of in ap (λ (f : Flags). f.prio) r.current_flags

    clear-Agrees : Agrees (clear_inactive s) (apply clear b)
    unfolding clear_inactive apply
    clear-Agrees =
        rw
          (
            inactive_lem r,
            gptprio-standby r,
            set_priority_fits _ 0 (omega arith),
            set_tries_left_fits _ 0 (omega arith),
            set_standby r,
          )
          (put-standby r _ (
            rw (
              flags_of-set_successful,
              flags_of-with_tries_left _ 0 (omega arith),
              flags_of-with_priority _ 0 (omega arith),
              r.standby_flags,
            )))

    mark_valid-Agrees : Agrees (mark_inactive_valid s) (apply mark_valid b)
    unfolding mark_inactive_valid apply
    mark_valid-Agrees =
        rw (inactive_lem r, gptprio-standby r, set_tries_left_fits _ 1 (omega arith), set_standby r)
          (put-standby r _ (rw (flags_of-with_tries_left _ 1 (omega arith), r.standby_flags)))

    mark_successful-Agrees : Agrees (mark_successful_boot s) (apply mark_successful b)
    unfolding mark_successful_boot apply
    mark_successful-Agrees =
        let f = record b.current { booted = true } in
        let r' : Represents _ (record b { current = f }) =
          put-current r (set_successful r.current_word true) {f = f}
            (rw (flags_of-set_successful, r.current_flags)) in
        rw (active_lem r, gptprio-current r, set_current r, private_attributes r', set_private r')
          (put-private r' _ (
            unfold flags_of in
            ap (λ (g : Flags). g.succeeded) (flags_of-boot_has_succeeded r'.private_word)))

    -- The end that three methods share: the flags of the standby set, then a new priority for the
    -- running one.
    swap-Agrees :
        (w v : ℕ) {f : Flags}
        → v < 16
        → flags_of w ≡ f
        → Agrees
            (do
              s ← set_gptprio s (other b.running) w
              flags ← gptprio s (active s)
              flags ← set_priority flags v
              set_gptprio s (active s) flags)
            (ok (record b { standby = f; current = record b.current { prio = v } }))
    swap-Agrees w v {f} fits h =
        let r' : Represents _ (record b { standby = f }) = put-standby r w h in
        rw
          (
            set_standby r,
            active_lem r',
            gptprio-current r',
            set_priority_fits _ v fits,
            set_current r',
          )
          (put-current r' _ (rw (flags_of-with_priority _ v fits, r'.current_flags)))

    cancel-Agrees : Agrees (cancel_upgrade s) (apply cancel b)
    unfolding cancel_upgrade apply
    cancel-Agrees =
        rw (inactive_lem r, gptprio-standby r, set_priority_fits _ 0 (omega arith))
          (swap-Agrees (with_priority r.standby_word 0) 2 (omega arith)
            (rw (flags_of-with_priority _ 0 (omega arith), r.standby_flags)))

    rollback-Agrees : Agrees (rollback_to_inactive s) (apply rollback b)
    unfolding rollback_to_inactive apply
    rollback-Agrees = elim (Bool-cases (bootable b.standby)) [
      | inl can ↦
          rw
            (
              inactive_lem r,
              gptprio-standby r,
              standby_will_boot,
              can,
              set_priority_fits _ 2 (omega arith),
            )
            (swap-Agrees (with_priority r.standby_word 2) 1 (omega arith)
              (rw (flags_of-with_priority _ 2 (omega arith), r.standby_flags)))
      | inr cannot ↦
          rw (inactive_lem r, gptprio-standby r, standby_will_boot, cannot)
            (rw (standby_prio, standby_tries, standby_booted))
    ]

    marked_for_upgrade :
        (w : ℕ)
        → flags_of w ≡ b.standby
        → b.standby.booted ≡ false
        → flags_of (set_successful (with_priority w 2) false) ≡ record b.standby { prio = 2 }
    marked_for_upgrade w h never =
        rw (flags_of-set_successful, flags_of-with_priority _ 2 (omega arith), h) (rw (← never))

    upgrade-Agrees : Agrees (upgrade_to_inactive s) (apply upgrade b)
    unfolding upgrade_to_inactive apply
    upgrade-Agrees = elim (Bool-cases (b.standby.prio == 0 && not b.standby.booted)) [
      | inr used ↦
          rw (inactive_lem r, gptprio-standby r, standby_prio, standby_booted, used) (rw r.disk_eq)
      | inl free ↦ elim (Bool-cases (ltb 0 b.standby.tries)) [
        | inr none_left ↦
            rw
              (
                inactive_lem r,
                gptprio-standby r,
                standby_prio,
                standby_booted,
                free,
                standby_tries,
                none_left,
              )
              (rw r.disk_eq)
        | inl left ↦
            rw
              (
                inactive_lem r,
                gptprio-standby r,
                standby_prio,
                standby_booted,
                free,
                standby_tries,
                left,
                set_priority_fits _ 2 (omega arith),
              )
              (swap-Agrees _ 1 (omega arith)
                (marked_for_upgrade r.standby_word r.standby_flags (ground arith)))
      ]
    ]

    -- Every method does on the table what its operation does on the slots: it succeeds or fails in
    -- the same cases, with the same error, and never panics.
    pub perform-Agrees : (op : Operation) → Agrees (perform op s) (apply op b)
    unfolding perform
    perform-Agrees clear = clear-Agrees
    perform-Agrees mark_valid = mark_valid-Agrees
    perform-Agrees upgrade = upgrade-Agrees
    perform-Agrees cancel = cancel-Agrees
    perform-Agrees rollback = rollback-Agrees
    perform-Agrees mark_successful = mark_successful-Agrees

    -- On a state that represents slots, `next` picks the bootable set of the higher priority, set A
    -- where both have the same, and none where no set is bootable.
    pub next-eq-boots : next s ≡ ok (boots b)
    unfolding next boots choose
    next-eq-boots = ground (
      arith,
      r.sets_dual,
      gptprio-current r,
      gptprio-standby r,
      standby_will_boot,
      current_will_boot,
      standby_prio,
      current_prio,
    )

    pub has_boot_succeeded_in-eq : has_boot_succeeded_in s ≡ ok b.ever_booted
    unfolding has_boot_succeeded_in
    has_boot_succeeded_in-eq = rw (private_attributes r) (rw r.private_flag)
