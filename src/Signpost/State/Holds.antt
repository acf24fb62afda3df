-- ===== src/Signpost/State/Holds.antt =====
-- A state with two sets represents slots; reads and writes of one partition's flags, seen there.
use bottlerocket_core_kit.Prelude.{ℕ, ◌≡◌, ◌≢◌, sym, Bool, some, arith, get_elem?}
use bottlerocket_core_kit.Prelude.Outcome.{ok}
use bottlerocket_core_kit.Signpost.Crates.{BitField, Gptman}
use bottlerocket_core_kit.Signpost.GptPrio.{GptPrio, has_boot_succeeded}
use bottlerocket_core_kit.Signpost.GptPrio.Flags.{Flags, flags_of}
use bottlerocket_core_kit.Signpost.Set.{idx, other}
use bottlerocket_core_kit.Signpost.State.{
  DualPartitionSet, dual, State, active, inactive, gpt_attributes, gptprio, set_gpt_attributes,
  set_gptprio,
}
use bottlerocket_core_kit.Signpost.State.Slots.{Slots}

-- The numbers of the three partitions are different entries of the table, and their flags are
-- those of the slots.
pub record Represents ⦃bits : BitField⦄ ⦃gpt : Gptman⦄ (s : State gpt.Table) (b : Slots)
    : Type 0 where
  pub pair : DualPartitionSet
  pub current_num : ℕ
  pub standby_num : ℕ
  pub current_word : GptPrio
  pub standby_word : GptPrio
  pub private_word : GptPrio
  pub sets_dual : s.sets ≡ dual pair
  pub running_eq : pair.active ≡ b.running
  pub disk_eq : s.os_disk ≡ b.disk
  pub current_at : get_elem? s.boot_partition_nums (idx b.running) ≡ some current_num
  pub standby_at : get_elem? s.boot_partition_nums (idx (other b.running)) ≡ some standby_num
  pub current_ne_standby : current_num ≢ standby_num
  pub private_ne_current : s.private_partition_num ≢ current_num
  pub private_ne_standby : s.private_partition_num ≢ standby_num
  pub current_read : gpt.attributes s.table current_num ≡ some current_word
  pub standby_read : gpt.attributes s.table standby_num ≡ some standby_word
  pub private_read : gpt.attributes s.table s.private_partition_num ≡ some private_word
  pub current_flags : flags_of current_word ≡ b.current
  pub standby_flags : flags_of standby_word ≡ b.standby
  pub private_flag : has_boot_succeeded private_word ≡ b.ever_booted

-- The state after a write to partition `n`.
module _ ⦃gpt : Gptman⦄ where
  abbrev pub put : State gpt.Table → ℕ → GptPrio → State gpt.Table
  put s n w = record s { table = gpt.set_attributes s.table n w }

  module _ (t : gpt.Table) (n w x : ℕ) (there : gpt.attributes t n ≡ some x) where
    read_same : gpt.attributes (gpt.set_attributes t n w) n ≡ some w
    read_same = ground (arith, gpt.attributes_set t n n w x there)

    read_other :
        (m y : ℕ)
        → m ≢ n
        → gpt.attributes t m ≡ some y
        → gpt.attributes (gpt.set_attributes t n w) m ≡ some y
    read_other m y h e = ground (arith, gpt.attributes_set t n m w x there)

module _ ⦃bits : BitField⦄ ⦃gpt : Gptman⦄ {s : State gpt.Table} {b : Slots}
    (r : Represents s b) where
  pub active_lem : active s ≡ b.running
  active_lem = ground (arith, r.sets_dual, r.running_eq)

  pub inactive_lem : inactive s ≡ some (other b.running)
  inactive_lem = ground (arith, r.sets_dual, r.running_eq)

  pub gptprio-current : gptprio s b.running ≡ ok r.current_word
  unfolding gptprio gpt_attributes
  gptprio-current = ground (arith, r.current_at, r.current_read)

  pub gptprio-standby : gptprio s (other b.running) ≡ ok r.standby_word
  unfolding gptprio gpt_attributes
  gptprio-standby = ground (arith, r.standby_at, r.standby_read)

  pub private_attributes : gpt_attributes s s.private_partition_num ≡ ok r.private_word
  unfolding gpt_attributes
  private_attributes = ground (arith, r.private_read)

  module _ (w : GptPrio) where
    pub set_current : set_gptprio s b.running w ≡ ok (put s r.current_num w)
    unfolding set_gptprio set_gpt_attributes gpt_attributes
    set_current = ground (arith, r.current_at, r.current_read)

    pub set_standby : set_gptprio s (other b.running) w ≡ ok (put s r.standby_num w)
    unfolding set_gptprio set_gpt_attributes gpt_attributes
    set_standby = ground (arith, r.standby_at, r.standby_read)

    pub set_private :
        set_gpt_attributes s s.private_partition_num w ≡ ok (put s s.private_partition_num w)
    unfolding set_gpt_attributes gpt_attributes
    set_private = ground (arith, r.private_read)

    pub put-current :
        {f : Flags} → flags_of w ≡ f → Represents (put s r.current_num w) (record b { current = f })
    put-current h = record {
      pair = r.pair;
      current_num = r.current_num;
      standby_num = r.standby_num;
      current_word = w;
      standby_word = r.standby_word;
      private_word = r.private_word;
      sets_dual = r.sets_dual;
      running_eq = r.running_eq;
      disk_eq = r.disk_eq;
      current_at = r.current_at;
      standby_at = r.standby_at;
      current_ne_standby = r.current_ne_standby;
      private_ne_current = r.private_ne_current;
      private_ne_standby = r.private_ne_standby;
      current_read = read_same _ _ w _ r.current_read;
      standby_read =
          read_other _ _ w _ r.current_read _ _ (λ e. r.current_ne_standby (sym e)) r.standby_read;
      private_read = read_other _ _ w _ r.current_read _ _ r.private_ne_current r.private_read;
      current_flags = h;
      standby_flags = r.standby_flags;
      private_flag = r.private_flag;
    }

    pub put-standby :
        {f : Flags} → flags_of w ≡ f → Represents (put s r.standby_num w) (record b { standby = f })
    put-standby h = record {
      pair = r.pair;
      current_num = r.current_num;
      standby_num = r.standby_num;
      current_word = r.current_word;
      standby_word = w;
      private_word = r.private_word;
      sets_dual = r.sets_dual;
      running_eq = r.running_eq;
      disk_eq = r.disk_eq;
      current_at = r.current_at;
      standby_at = r.standby_at;
      current_ne_standby = r.current_ne_standby;
      private_ne_current = r.private_ne_current;
      private_ne_standby = r.private_ne_standby;
      current_read = read_other _ _ w _ r.standby_read _ _ r.current_ne_standby r.current_read;
      standby_read = read_same _ _ w _ r.standby_read;
      private_read = read_other _ _ w _ r.standby_read _ _ r.private_ne_standby r.private_read;
      current_flags = r.current_flags;
      standby_flags = h;
      private_flag = r.private_flag;
    }

    pub put-private :
        {f : Bool}
        → has_boot_succeeded w ≡ f
        → Represents (put s s.private_partition_num w) (record b { ever_booted = f })
    put-private h = record {
      pair = r.pair;
      current_num = r.current_num;
      standby_num = r.standby_num;
      current_word = r.current_word;
      standby_word = r.standby_word;
      private_word = w;
      sets_dual = r.sets_dual;
      running_eq = r.running_eq;
      disk_eq = r.disk_eq;
      current_at = r.current_at;
      standby_at = r.standby_at;
      current_ne_standby = r.current_ne_standby;
      private_ne_current = r.private_ne_current;
      private_ne_standby = r.private_ne_standby;
      current_read =
          read_other _ _ w _ r.private_read _ _ (λ e. r.private_ne_current (sym e)) r.current_read;
      standby_read =
          read_other _ _ w _ r.private_read _ _ (λ e. r.private_ne_standby (sym e)) r.standby_read;
      private_read = read_same _ _ w _ r.private_read;
      current_flags = r.current_flags;
      standby_flags = r.standby_flags;
      private_flag = h;
    }
