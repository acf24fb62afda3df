-- ===== src/Signpost/GptPrio/Flags.antt =====
-- The four fields that the flags hold, and what each setter does to all of them.
use bottlerocket_core_kit.Prelude.{ℕ, ◌<◌, ◌≡◌, inl, inr, Bool, true, ◌&&◌, ◌||◌, arith, ltb}
use bottlerocket_core_kit.Prelude.Outcome.{ok}
use bottlerocket_core_kit.Signpost.Crates.{BitField}
use bottlerocket_core_kit.Signpost.GptPrio.{
  GptPrio, bit, priority, set_priority, tries_left, set_tries_left, successful, set_successful,
  boot_has_succeeded, has_boot_succeeded,
}

-- What the boot loader reads of a partition.
pub record Flags : Type 0 where
  pub prio : ℕ
  pub tries : ℕ
  pub booted : Bool
  pub succeeded : Bool

abbrev pub bootable : Flags → Bool
bootable f = (ltb 0 f.prio && ltb 0 f.tries) || f.booted

module _ ⦃bits : BitField⦄ where
  unfoldable pub flags_of : GptPrio → Flags
  flags_of p = record {
    prio = priority p;
    tries = tries_left p;
    booted = successful p;
    succeeded = has_boot_succeeded p;
  }

  -- The word after `set_priority`; the assertion of `set_bits` holds for a value below 16.
  abbrev pub with_priority : GptPrio → ℕ → GptPrio
  with_priority p v = bits.set_bits p 48 52 v

  abbrev pub with_tries_left : GptPrio → ℕ → GptPrio
  with_tries_left p v = bits.set_bits p 52 56 v

  pub set_priority_fits {ℓ} :
      {E : Type ℓ} (p v : ℕ) → v < 16 → set_priority {E = E} p v ≡ ok (with_priority p v)
  unfolding set_priority
  set_priority_fits p v h = ground arith

  pub set_tries_left_fits {ℓ} :
      {E : Type ℓ} (p v : ℕ) → v < 16 → set_tries_left {E = E} p v ≡ ok (with_tries_left p v)
  unfolding set_tries_left
  set_tries_left_fits p v h = ground arith

  pub flags_of-with_priority :
      (p v : ℕ) → v < 16 → flags_of (with_priority p v) ≡ record (flags_of p) { prio = v }
  unfolding flags_of priority tries_left successful has_boot_succeeded
  flags_of-with_priority p v h = ground (
    arith,
    bits.get_set p 48 4 v (omega arith) h,
    bits.get_set_disjoint p 48 4 v 52 4 (inl (omega arith)),
    bits.get_set_disjoint p 48 4 v 56 1 (inl (omega arith)),
    bits.get_set_disjoint p 48 4 v 57 1 (inl (omega arith)),
  )

  pub flags_of-with_tries_left :
      (p v : ℕ) → v < 16 → flags_of (with_tries_left p v) ≡ record (flags_of p) { tries = v }
  unfolding flags_of priority tries_left successful has_boot_succeeded
  flags_of-with_tries_left p v h = ground (
    arith,
    bits.get_set p 52 4 v (omega arith) h,
    bits.get_set_disjoint p 52 4 v 48 4 (inr (omega arith)),
    bits.get_set_disjoint p 52 4 v 56 1 (inl (omega arith)),
    bits.get_set_disjoint p 52 4 v 57 1 (inl (omega arith)),
  )

  pub flags_of-set_successful :
      (p : ℕ) (b : Bool) → flags_of (set_successful p b) ≡ record (flags_of p) { booted = b }
  unfolding flags_of priority tries_left successful has_boot_succeeded set_successful
  flags_of-set_successful p b = ground (
    arith,
    bits.get_set p 56 1 (bit b) (omega arith) (ground arith),
    bits.get_set_disjoint p 56 1 (bit b) 48 4 (inr (omega arith)),
    bits.get_set_disjoint p 56 1 (bit b) 52 4 (inr (omega arith)),
    bits.get_set_disjoint p 56 1 (bit b) 57 1 (inl (omega arith)),
  )

  pub flags_of-boot_has_succeeded :
      (p : ℕ) → flags_of (boot_has_succeeded p) ≡ record (flags_of p) { succeeded = true }
  unfolding flags_of priority tries_left successful has_boot_succeeded boot_has_succeeded
  flags_of-boot_has_succeeded p = ground (
    arith,
    bits.get_set p 57 1 1 (omega arith) (omega arith),
    bits.get_set_disjoint p 57 1 1 48 4 (inr (omega arith)),
    bits.get_set_disjoint p 57 1 1 52 4 (inr (omega arith)),
    bits.get_set_disjoint p 57 1 1 56 1 (inr (omega arith)),
  )
