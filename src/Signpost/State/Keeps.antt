-- ===== src/Signpost/State/Keeps.antt =====
-- What the operations leave alone: everything but the flags in the table's entries.
use bottlerocket_core_kit.Prelude.{◌≡◌, refl, ◌∙◌, ℕ, arith, sym, subst}
use bottlerocket_core_kit.Prelude.Outcome.{Outcome, ok, err, panic, ◌>>=◌}
use bottlerocket_core_kit.Signpost.Crates.{BitField, Gptman}
use bottlerocket_core_kit.Signpost.Error.{Error}
use bottlerocket_core_kit.Signpost.GptPrio.{GptPrio}
use bottlerocket_core_kit.Signpost.Set.{SetSelect}
use bottlerocket_core_kit.Signpost.State.{
  State, gpt_attributes, set_gpt_attributes, set_gptprio, mark_successful_boot, clear_inactive,
  mark_inactive_valid, upgrade_to_inactive, cancel_upgrade, rollback_to_inactive,
}
use bottlerocket_core_kit.Signpost.State.Refines.{perform}
use bottlerocket_core_kit.Signpost.State.Slots.{
  Operation, clear, mark_valid, upgrade, cancel, rollback, mark_successful,
}

module _ ⦃gpt : Gptman⦄ where
  pub record Same (s t : State gpt.Table) : Type 0 where
    pub os_disk : s.os_disk ≡ t.os_disk
    pub private_num : s.private_partition_num ≡ t.private_partition_num
    pub sets : s.sets ≡ t.sets
    pub nums : s.boot_partition_nums ≡ t.boot_partition_nums
    pub entries : gpt.iter s.table ≡ gpt.iter t.table

  Same-refl : (s : State gpt.Table) → Same s s
  Same-refl s = record {
    os_disk = refl;
    private_num = refl;
    sets = refl;
    nums = refl;
    entries = refl;
  }

  Same-trans : {s t u : State gpt.Table} → Same s t → Same t u → Same s u
  Same-trans p q = record {
    os_disk = p.os_disk ∙ q.os_disk;
    private_num = p.private_num ∙ q.private_num;
    sets = p.sets ∙ q.sets;
    nums = p.nums ∙ q.nums;
    entries = p.entries ∙ q.entries;
  }

  -- An action that, where it succeeds, keeps all but the flags.
  data Keeps (s : State gpt.Table) : Outcome Error (State gpt.Table) → Type 0 where
    done : {t : State gpt.Table} → Same s t → Keeps s (ok t)
    failed : (e : Error) → Keeps s (err e)
    panicked : Keeps s panic

  Keeps-read :
      {A : Type 0} {s : State gpt.Table} (m : Outcome Error A)
      (f : A → Outcome Error (State gpt.Table))
      → ((a : A) → Keeps s (f a))
      → Keeps s (m >>= f)
  Keeps-read (ok a) f k = k a
  Keeps-read (err e) f k = failed e
  Keeps-read panic f k = panicked

  Keeps-bind :
      {s : State gpt.Table} {m : Outcome Error (State gpt.Table)}
      (f : State gpt.Table → Outcome Error (State gpt.Table))
      → Keeps s m
      → ((t : State gpt.Table) → Same s t → Keeps t (f t))
      → Keeps s (m >>= f)
  Keeps-bind f (done p) k = extend p (k _ p)
    where
      extend :
          {s t : State gpt.Table} {m : Outcome Error (State gpt.Table)}
          → Same s t
          → Keeps t m
          → Keeps s m
      extend p (done q) = done (Same-trans p q)
      extend p (failed e) = failed e
      extend p panicked = panicked
  Keeps-bind f (failed e) k = failed e
  Keeps-bind f panicked k = panicked

  Keeps-set : (s : State gpt.Table) (n : ℕ) (w : GptPrio) → Keeps s (set_gpt_attributes s n w)
  unfolding set_gpt_attributes
  Keeps-set s n w = Keeps-read (gpt_attributes s n) _ (λ _. done (record {
    os_disk = refl;
    private_num = refl;
    sets = refl;
    nums = refl;
    entries = sym (gpt.iter_set s.table n w);
  }))

  Keeps-set_gptprio :
      (s : State gpt.Table) (select : SetSelect) (w : GptPrio) → Keeps s (set_gptprio s select w)
  unfolding set_gptprio
  Keeps-set_gptprio s select w = Keeps-read _ _ (λ n. Keeps-set s n w)

  ruleset keeps_rules = (Keeps-read, Keeps-bind, Keeps-set, Keeps-set_gptprio)

  Keeps-ok :
      {s t : State gpt.Table} (m : Outcome Error (State gpt.Table))
      → Keeps s m
      → m ≡ ok t
      → Same s t
  Keeps-ok {s} m (done p) e = subst (Same s) (ground arith) p
  Keeps-ok m (failed f) e = cc
  Keeps-ok m panicked e = cc

module _ ⦃bits : BitField⦄ ⦃gpt : Gptman⦄ where
  perform-Keeps : (op : Operation) (s : State gpt.Table) → Keeps s (perform op s)
  unfolding perform clear_inactive mark_inactive_valid upgrade_to_inactive cancel_upgrade
      rollback_to_inactive mark_successful_boot
  perform-Keeps clear s = search keeps_rules depth 12
  perform-Keeps mark_valid s = search keeps_rules depth 12
  perform-Keeps upgrade s = search keeps_rules depth 12
  perform-Keeps cancel s = search keeps_rules depth 12
  perform-Keeps rollback s = search keeps_rules depth 12
  perform-Keeps mark_successful s = search keeps_rules depth 12

  -- An operation that succeeds changes nothing but flags: the disk, the numbers, the sets and the
  -- entries of the table are as before.
  pub perform-Same : (op : Operation) {s t : State gpt.Table} → perform op s ≡ ok t → Same s t
  perform-Same op {s} h = Keeps-ok _ (perform-Keeps op s) h
