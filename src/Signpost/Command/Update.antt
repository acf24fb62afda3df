-- ===== src/Signpost/Command/Update.antt =====
-- Runs of the command line, one after the other: each reads the table that the last one wrote.
use bottlerocket_core_kit.Prelude.{
  ◌≡◌, refl, sym, ap, ◌∙◌, Bool, true, Option, none, some, List, [], ◌∷◌, arith, String, ℕ,
}
use bottlerocket_core_kit.Prelude.Outcome.{Outcome, ok, ◌>>=◌, >>=-eq-ok}
use bottlerocket_core_kit.Signpost.Crates.{BitField, Gptman}
use bottlerocket_core_kit.Signpost.Command.{
  Command, Writer, Status, nothing, display, write, execute, run,
}
use bottlerocket_core_kit.Signpost.Error.{Error}
use bottlerocket_core_kit.Signpost.Load.{System, load, load_from}
use bottlerocket_core_kit.Signpost.Load.Sound.{load-Represents}
use bottlerocket_core_kit.Signpost.State.Sequence.{perform_all, update_boots_standby}
use bottlerocket_core_kit.Signpost.Set.{SetSelect, set_a, set_b, other}
use bottlerocket_core_kit.Signpost.State.{State, DualPartitionSet, dual, next, gptprio}
use bottlerocket_core_kit.Signpost.State.Keeps.{Same, perform-Same}
use bottlerocket_core_kit.Signpost.State.Refines.{perform}
use bottlerocket_core_kit.Signpost.State.Slots.{Operation}

module _ ⦃bits : BitField⦄ ⦃gpt : Gptman⦄ where
  -- The system whose disk holds the table that a run wrote.
  abbrev pub with_table : System gpt.Table → gpt.Table → System gpt.Table
  with_table sys t = record sys { table = some t }

  -- The table enters a loaded state through its entries, and as it is.
  load_from-table :
      (sys : System gpt.Table) (os_disk active : String) (table t : gpt.Table)
      → gpt.iter table ≡ gpt.iter t
      → load_from (with_table sys t) os_disk active t
        ≡ (load_from sys os_disk active table >>= λ s. ok (record s { table = t }))
  unfolding load_from
  load_from-table sys os_disk active table t e = rw e (ground arith)

  table-load_from :
      (sys : System gpt.Table) (os_disk active : String) (table : gpt.Table) (s : State gpt.Table)
      → load_from sys os_disk active table ≡ ok s
      → s.table ≡ table
  unfolding load_from
  table-load_from sys os_disk active table s e = ground arith

  Same-eq : {s t : State gpt.Table} → Same s t → record s { table = t.table } ≡ t
  Same-eq p = ground (arith, p.os_disk, p.private_num, p.sets, p.nums)

  reload_steps :
      (found : Bool) (lower disk : Option (Option String)) (opens : Bool) (table : Option gpt.Table)
      (partition : ℕ → Option (Option String)) (s t : State gpt.Table)
      → let answers : System gpt.Table = record {
        root_found = found;
        lower_device = lower;
        disk = disk;
        disk_opens = opens;
        table = table;
        partition = partition;
      } in
        load answers ≡ ok s → Same s t → load (with_table answers t.table) ≡ ok t
  unfolding load
  reload_steps true (some (some l)) (some (some d)) true (some table) p s t h same =
      rw
        (
          load_from-table _ d l table t.table
              (sym (ap gpt.iter (table-load_from _ d l table s h)) ∙ same.entries),
          h,
        )
        (ap ok (Same-eq same))
  reload_steps _ _ _ _ _ p s t h same = cc

  -- What an operation that succeeds leaves on disk is loaded as the state that it left in memory.
  reload :
      (sys : System gpt.Table) (op : Operation) {s t : State gpt.Table}
      → load sys ≡ ok s
      → perform op s ≡ ok t
      → load (with_table sys t.table) ≡ ok t
  reload sys op {s} {t} h e =
      reload_steps sys.root_found sys.lower_device sys.disk sys.disk_opens sys.table sys.partition s
        t h (perform-Same op e)

abbrev pub command_of : Operation → Command
command_of Operation.clear = Command.clear
command_of Operation.mark_valid = Command.mark_valid
command_of Operation.upgrade = Command.upgrade
command_of Operation.cancel = Command.cancel
command_of Operation.rollback = Command.rollback
command_of Operation.mark_successful = Command.mark_successful

module _ ⦃bits : BitField⦄ ⦃gpt : Gptman⦄ where
  abbrev pub after : System gpt.Table → Option gpt.Table → System gpt.Table
  after sys none = sys
  after sys (some t) = with_table sys t

  -- Runs of the command line with a disk that takes writes, until one fails.
  unfoldable pub session :
      Writer → List Operation → System gpt.Table → Outcome Error (System gpt.Table)
  session w [] sys = ok sys
  session w (op ∷ ops) sys = do
    finished ← run sys w (command_of op)
    session w ops (after sys finished.written)

  module _ (w : Writer) (opens : w.opens ≡ true) (writes : w.writes ≡ true) where
    run-command_of :
        (sys : System gpt.Table) (op : Operation) {s t : State gpt.Table}
        → load sys ≡ ok s
        → perform op s ≡ ok t
        → run sys w (command_of op) ≡ ok (record { output = nothing; written = some t.table })
    unfolding run execute write perform
    run-command_of sys Operation.clear h e = rw (h, e, opens, writes)
    run-command_of sys Operation.mark_valid h e = rw (h, e, opens, writes)
    run-command_of sys Operation.upgrade h e = rw (h, e, opens, writes)
    run-command_of sys Operation.cancel h e = rw (h, e, opens, writes)
    run-command_of sys Operation.rollback h e = rw (h, e, opens, writes)
    run-command_of sys Operation.mark_successful h e = rw (h, e, opens, writes)

    -- On a disk that takes writes and from which a state is loaded, where a sequence of operations
    -- succeeds on that state in memory, the runs of their subcommands one after the other succeed
    -- too, and the table that they leave is loaded as the state that the operations end in.
    pub session-perform_all :
        (ops : List Operation) (sys : System gpt.Table) {s t : State gpt.Table}
        → load sys ≡ ok s
        → perform_all ops s ≡ ok t
        → (sys' : System gpt.Table) × (session w ops sys ≡ ok sys') × (load sys' ≡ ok t)
    unfolding session perform_all
    session-perform_all [] sys h e = (sys, refl, h ∙ e)
    session-perform_all (op ∷ ops) sys {s} {t} h e =
        let (u, first, rest) = >>=-eq-ok (perform op s) (perform_all ops) e in
        let (sys', ran, loaded) =
          session-perform_all ops (with_table sys u.table) (reload sys op h first) rest in
        (sys', rw (run-command_of sys op h first) ran, loaded)

    -- On a disk that takes writes and from which a state with two partition sets is loaded, separate
    -- runs of clear-inactive, mark-inactive-valid and upgrade-to-inactive all succeed, and the set
    -- that was not running is then the next to boot.
    pub update_session :
        (sys : System gpt.Table) {s : State gpt.Table} (d : DualPartitionSet)
        → load sys ≡ ok s
        → s.sets ≡ dual d
        → (sys' : System gpt.Table) × (t : State gpt.Table) × (session w
              (Operation.clear ∷ Operation.mark_valid ∷ Operation.upgrade ∷ [])
              sys
            ≡ ok sys')
          × (load sys' ≡ ok t)
          × (next t ≡ ok (some (other d.active)))
    update_session sys {s} d h two =
        let (b, r) = load-Represents sys s d h two in
        let (t, done, following) = update_boots_standby r in
        let (sys', ran, loaded) = session-perform_all _ sys h done in
        (
          sys',
          t,
          ran,
          loaded,
          following
              ∙ ap (λ (x : SetSelect). ok (some (other x)))
                  (sym r.running_eq ∙ ground (arith, r.sets_dual)),
        )

  -- Running from set B, the status names the paths of set B behind "Set A" and those of set A
  -- behind "Set B", while the flags on these lines are those of A and of B.
  pub display_swapped :
      (s : State gpt.Table) (d : DualPartitionSet) (a b : ℕ) {st : Status}
      → s.sets ≡ dual d
      → d.active ≡ set_b
      → gptprio s set_a ≡ ok a
      → gptprio s set_b ≡ ok b
      → display s ≡ ok st
      → (st.first_line ≡ record { label = set_a; paths = d.second_set; flags = a })
        × (st.second_line ≡ some (record { label = set_b; paths = d.first_set; flags = b }))
  unfolding display
  display_swapped s d a b two from_b ra rb h = ground arith
