-- ===== src/Signpost/Load/Sound.antt =====
-- A loaded state with two sets represents slots, so that every method works on it.
use bottlerocket_core_kit.Prelude.{
  ℕ, ◌≡◌, ◌≢◌, refl, sym, ap, ◌∙◌, subst, inl, inr, Bool, true, Option, none, some, List, [], ◌∷◌,
  String, arith, Option-cases,
}
use bottlerocket_core_kit.Prelude.Outcome.{Outcome, ok, Outcome-cases, context-eq-ok}
use bottlerocket_core_kit.Signpost.Crates.{BitField, Gptman}
use bottlerocket_core_kit.Signpost.Error.{Error}
use bottlerocket_core_kit.Signpost.GptPrio.{has_boot_succeeded}
use bottlerocket_core_kit.Signpost.GptPrio.Flags.{flags_of}
use bottlerocket_core_kit.Signpost.Guid.{bottlerocket_boot, bottlerocket_private}
use bottlerocket_core_kit.Signpost.Load.{
  System, nth_guid, required_guid, device_from_part_num, load_sets, push_found, load_from, load,
}
use bottlerocket_core_kit.Signpost.Load.Active.{load_sets-contains}
use bottlerocket_core_kit.Signpost.Load.Wired.{nth_guid-In, nth_guid-lt, nth_guid-ne}
use bottlerocket_core_kit.Signpost.Set.{SetSelect, set_a, set_b, contains}
use bottlerocket_core_kit.Signpost.State.{DualPartitionSet, PartitionSets, dual, State, nth_set}
use bottlerocket_core_kit.Signpost.State.Holds.{Represents}
use bottlerocket_core_kit.Signpost.State.Slots.{Slots}

abbrev first_byte : List ℕ → ℕ
first_byte [] = 0
first_byte (b ∷ _) = b

private-ne-boot : bottlerocket_private ≢ bottlerocket_boot
unfolding bottlerocket_boot bottlerocket_private
private-ne-boot e = absurd (omega (arith, ap first_byte e))

required_guid-eq-ok :
    (xs : List (ℕ × List ℕ)) (g : List ℕ) (n a : ℕ)
    → required_guid xs g n ≡ ok a
    → nth_guid xs g n ≡ some a
unfolding required_guid
required_guid-eq-ok xs g n a h = context-eq-ok _ _ _ h

-- Two sets are loaded from two boot partitions.
load_sets-dual :
    (device : ℕ → Outcome Error String) (entries : List (ℕ × List ℕ)) (active : String) (a : ℕ)
    (more : Option ℕ) (d : DualPartitionSet)
    → load_sets device entries active (push_found (a ∷ []) more) ≡ ok (dual d)
    → (b : ℕ) × (more ≡ some b)
unfolding load_sets
load_sets-dual device entries active a none d h = ground arith
load_sets-dual device entries active a (some b) d h = (b, refl)

module _ ⦃bits : BitField⦄ ⦃gpt : Gptman⦄ (sys : System gpt.Table) where
  load_steps :
      (found : Bool) (lower disk : Option (Option String)) (opens : Bool) (table : Option gpt.Table)
      (partition : ℕ → Option (Option String)) (s : State gpt.Table)
      → let answers : System gpt.Table = record {
        root_found = found;
        lower_device = lower;
        disk = disk;
        disk_opens = opens;
        table = table;
        partition = partition;
      } in
        load answers ≡ ok s
        → (os_disk active : String) × (t : gpt.Table) × (load_from answers os_disk active t ≡ ok s)
          × (lower ≡ some (some active))
  unfolding load
  load_steps true (some (some l)) (some (some d)) true (some t) p s h = (d, l, t, h, refl)
  load_steps _ _ _ _ _ p s h = cc

  load-load_from :
      (s : State gpt.Table)
      → load sys ≡ ok s
      → (os_disk active : String) × (t : gpt.Table) × (load_from sys os_disk active t ≡ ok s)
        × (sys.lower_device ≡ some (some active))
  load-load_from =
      load_steps sys.root_found sys.lower_device sys.disk sys.disk_opens sys.table sys.partition

  read_at :
      (t : gpt.Table) (g : List ℕ) (i n : ℕ)
      → nth_guid (gpt.iter t) g i ≡ some n
      → (x : ℕ) × (gpt.attributes t n ≡ some x)
  read_at t g i n h =
      let (e, listed, num, _) = nth_guid-In (gpt.iter t) g i n h in
      let (x, there) = gpt.iter_attributes t e listed in
      (x, ap (gpt.attributes t) (sym num) ∙ there)

  -- The slots that the words of a state's partitions give.
  abbrev slots : String → SetSelect → ℕ → ℕ → ℕ → Slots
  slots disk running x y p = record {
    disk = disk;
    running = running;
    current = flags_of x;
    standby = flags_of y;
    ever_booted = has_boot_succeeded p;
  }

  -- By the set that is active.
  represents :
      (os_disk : String) (np : ℕ) (d : DualPartitionSet) (active : SetSelect) (a b x y p : ℕ)
      (t : gpt.Table)
      → d.active ≡ active
      → a ≢ b
      → np ≢ a
      → np ≢ b
      → gpt.attributes t a ≡ some x
      → gpt.attributes t b ≡ some y
      → gpt.attributes t np ≡ some p
      → (sl : Slots) × Represents
          (record {
            os_disk = os_disk;
            private_partition_num = np;
            sets = dual d;
            boot_partition_nums = a ∷ b ∷ [];
            table = t;
          })
          sl
  represents os_disk np d set_a a b x y p t e ab pa pb ra rb rp = (
    slots os_disk set_a x y p,
    record {
      pair = d;
      current_num = a;
      standby_num = b;
      current_word = x;
      standby_word = y;
      private_word = p;
      sets_dual = refl;
      running_eq = e;
      disk_eq = refl;
      current_at = refl;
      standby_at = refl;
      current_ne_standby = ab;
      private_ne_current = pa;
      private_ne_standby = pb;
      current_read = ra;
      standby_read = rb;
      private_read = rp;
      current_flags = refl;
      standby_flags = refl;
      private_flag = refl;
    },
  )
  represents os_disk np d set_b a b x y p t e ab pa pb ra rb rp = (
    slots os_disk set_b y x p,
    record {
      pair = d;
      current_num = b;
      standby_num = a;
      current_word = y;
      standby_word = x;
      private_word = p;
      sets_dual = refl;
      running_eq = e;
      disk_eq = refl;
      current_at = refl;
      standby_at = refl;
      current_ne_standby = λ q. ab (sym q);
      private_ne_current = pb;
      private_ne_standby = pa;
      current_read = rb;
      standby_read = ra;
      private_read = rp;
      current_flags = refl;
      standby_flags = refl;
      private_flag = refl;
    },
  )

  load_from_parts :
      (os_disk active : String) (t : gpt.Table) (s : State gpt.Table)
      → load_from sys os_disk active t ≡ ok s
      → let entries = gpt.iter t in
        let nums = λ (a : ℕ). push_found (a ∷ []) (nth_guid entries bottlerocket_boot 1) in
        (a np : ℕ) × (sets : PartitionSets) × (nth_guid entries bottlerocket_boot 0 ≡ some a)
        × (load_sets (device_from_part_num sys.partition os_disk) entries active (nums a) ≡ ok sets)
        × (nth_guid entries bottlerocket_private 0 ≡ some np)
        × (s ≡ record {
          os_disk = os_disk;
          private_partition_num = np;
          sets = sets;
          boot_partition_nums = nums a;
          table = t;
        })
  unfolding load_from required_guid
  load_from_parts os_disk active t s h =
      let entries = gpt.iter t in
      let device = device_from_part_num sys.partition os_disk in
      let second = nth_guid entries bottlerocket_boot 1 in
      elim (Option-cases (nth_guid entries bottlerocket_boot 0)) [
        | inr missing ↦ absurd (ground (arith, missing))
        | inl (a, found) ↦
            elim (Outcome-cases (load_sets device entries active (push_found (a ∷ []) second))) [
              | inr (inl (e, failed)) ↦ absurd (ground (arith, found, failed))
              | inr (inr failed) ↦ absurd (ground (arith, found, failed))
              | inl (sets, loaded) ↦ elim (Option-cases (nth_guid entries bottlerocket_private 0)) [
                | inr missing ↦ absurd (ground (arith, found, loaded, missing))
                | inl (np, found_p) ↦
                    (a, np, sets, found, loaded, found_p, ground (arith, found, loaded, found_p))
              ]
            ]
      ]

  abbrev HasSlots : State gpt.Table → Type 0
  HasSlots s = (b : Slots) × Represents s b

  load_from-Represents :
      (os_disk active : String) (t : gpt.Table) (s : State gpt.Table) (d : DualPartitionSet)
      → load_from sys os_disk active t ≡ ok s
      → s.sets ≡ dual d
      → HasSlots s
  load_from-Represents os_disk active t s d h two =
      let (a, np, sets, found_a, loaded, found_p, same) = load_from_parts os_disk active t s h in
      let sets_dual : sets ≡ dual d = ground (arith, same) in
      let (b, second) = load_sets-dual _ _ _ a _ d (loaded ∙ ap ok sets_dual) in
      let entries = gpt.iter t in
      let sorted = gpt.iter_Ascending t in
      let (x, read_a) = read_at t _ 0 a found_a in
      let (y, read_b) = read_at t _ 1 b second in
      let (p, read_p) = read_at t _ 0 np found_p in
      let a_ne_b : a ≢ b = omega (arith, nth_guid-lt entries _ a b sorted found_a second) in
      let p_ne_a = nth_guid-ne entries _ _ 0 0 np a sorted private-ne-boot found_p found_a in
      let p_ne_b = nth_guid-ne entries _ _ 0 1 np b sorted private-ne-boot found_p second in
      let (sl, r) =
        represents os_disk np d d.active a b x y p t refl a_ne_b p_ne_a p_ne_b read_a read_b
          read_p in
      subst HasSlots (sym (same ∙ cc (second, sets_dual))) (sl, r)

  -- A state with two sets represents slots.
  pub load-Represents :
      (s : State gpt.Table) (d : DualPartitionSet)
      → load sys ≡ ok s
      → s.sets ≡ dual d
      → (b : Slots) × Represents s b
  load-Represents s d h two =
      let (os_disk, active, t, from, _) = load-load_from s h in
      load_from-Represents os_disk active t s d from two

  -- A state that `load` returns with two partition sets represents slots, and the set that it takes
  -- for the active one has the partition under the root file system for its boot, root or hash
  -- partition.
  pub load-contains :
      (s : State gpt.Table) (d : DualPartitionSet)
      → load sys ≡ ok s
      → s.sets ≡ dual d
      → (b : Slots) × (partition : String) × Represents s b
        × (sys.lower_device ≡ some (some partition))
        × (contains (nth_set d d.active) partition ≡ true)
  load-contains s d h two =
      let (os_disk, active, t, from, lower) = load-load_from s h in
      let (a, np, sets, _, loaded, _, same) = load_from_parts os_disk active t s from in
      let (b, r) = load-Represents s d h two in
      let sets_dual : sets ≡ dual d = ground (arith, same) in
      (b, active, r, lower, load_sets-contains _ _ active a _ d (loaded ∙ ap ok sets_dual))
