-- ===== src/Signpost/GptPrio.antt =====
-- sources/updater/signpost/src/gptprio.rs: the boot flags of a partition, in the u64 of its GPT
-- attribute bits.
pub mod Flags
use bottlerocket_core_kit.Prelude.{ℕ, Bool, true, false, ◌&&◌, ◌||◌, ltb, ◌==◌, if◌then◌else◌}
use bottlerocket_core_kit.Prelude.Outcome.{Outcome, ok, panic}
use bottlerocket_core_kit.Signpost.Crates.{BitField}

-- The newtype around the u64.
abbrev pub GptPrio : Type 0
GptPrio = ℕ

abbrev pub bit : Bool → ℕ
bit true = 1
bit false = 0

module _ ⦃bits : BitField⦄ where
  unfoldable pub priority : GptPrio → ℕ
  priority p = bits.get_bits p 48 52

  -- `set_bits` asserts that the value fits.
  unfoldable pub set_priority {ℓ} : {E : Type ℓ} → GptPrio → ℕ → Outcome E GptPrio
  set_priority p v = if ltb v 16 then ok (bits.set_bits p 48 52 v) else panic

  unfoldable pub tries_left : GptPrio → ℕ
  tries_left p = bits.get_bits p 52 56

  unfoldable pub set_tries_left {ℓ} : {E : Type ℓ} → GptPrio → ℕ → Outcome E GptPrio
  set_tries_left p v = if ltb v 16 then ok (bits.set_bits p 52 56 v) else panic

  unfoldable pub successful : GptPrio → Bool
  successful p = bits.get_bits p 56 57 == 1

  unfoldable pub set_successful : GptPrio → Bool → GptPrio
  set_successful p b = bits.set_bits p 56 57 (bit b)

  unfoldable pub will_boot : GptPrio → Bool
  will_boot p = (ltb 0 (priority p) && ltb 0 (tries_left p)) || successful p

  unfoldable pub boot_has_succeeded : GptPrio → GptPrio
  boot_has_succeeded p = bits.set_bits p 57 58 1

  unfoldable pub has_boot_succeeded : GptPrio → Bool
  has_boot_succeeded p = bits.get_bits p 57 58 == 1
