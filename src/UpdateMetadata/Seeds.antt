-- ===== src/UpdateMetadata/Seeds.antt =====
-- The first seed of the wave after one, from a fleet percentage, as `set_waves` computes it in f32:
-- `(percentage as f32 / 100_f32 * MAX_SEED as f32) as u32`.
use bottlerocket_core_kit.Prelude.{
  ℕ, zero, suc, ◌+◌, ◌*◌, ◌/◌, ◌%◌, ◌^◌, ◌≤◌, ◌<◌, ◌≡◌, refl, Bool, true, false, ◌&&◌, ◌||◌, arith,
  ltb, ◌==◌, if◌then◌else◌, ==→eq,
}
use bottlerocket_core_kit.UpdateMetadata.Wave.{max_seed}

-- a / b, rounded to the nearest number and to the even one of two.
unfoldable pub round_half_even : ℕ → ℕ → ℕ
round_half_even a b =
    let q = a / b in
    let r = a % b in
    if ltb (2 * r) b then q else if ltb b (2 * r) then q + 1 else if q % 2 == 0 then q else q + 1

-- The exponent at which p / q has a mantissa of 24 bits: the least e, at most the fuel, with
-- 2 ^ 23 ≤ p * 2 ^ e / q.
unfoldable pub mantissa_exponent : ℕ → ℕ → ℕ → ℕ → ℕ
mantissa_exponent zero e p q = e
mantissa_exponent (suc fuel) e p q = elim (ltb (p * 2 ^ e) (q * 2 ^ 23)) [
  | true ↦ mantissa_exponent fuel (e + 1) p q
  | false ↦ e
]

-- p / 100 as an f32 is m / 2 ^ e; the product by 2048, a power of two, is exact, and `as u32` drops
-- the fraction. From 1 to 100 the exponent is at most 30.
unfoldable pub seed_after : ℕ → ℕ
unfolding round_half_even mantissa_exponent
seed_after p =
    let e = mantissa_exponent 40 0 p 100 in
    let m = round_half_even (p * 2 ^ e) 100 in m * max_seed / 2 ^ e

all_up_to : ℕ → (ℕ → Bool) → Bool
all_up_to zero test = test 0
all_up_to (suc n) test = test (suc n) && all_up_to n test

all_up_to_sound :
    (n : ℕ) (test : ℕ → Bool) (p : ℕ) → all_up_to n test ≡ true → p ≤ n → test p ≡ true
unfolding all_up_to
all_up_to_sound zero test zero h le = h
all_up_to_sound zero test (suc p) h le = absurd (omega arith)
all_up_to_sound (suc n) test p h le = ground (arith, all_up_to_sound n test p)

seeds_table : all_up_to 100 (λ p. p == 0 || (seed_after p == p * max_seed / 100)) ≡ true
unfolding all_up_to seed_after
seeds_table = refl

-- For every percentage that `set_waves` accepts, the float arithmetic gives the exact share of the
-- seeds, rounded down.
pub seed_after-exact : (p : ℕ) → 0 < p → p ≤ 100 → seed_after p ≡ p * max_seed / 100
seed_after-exact p pos le = ==→eq _ _ (
    ground (
      arith,
      all_up_to_sound 100 (λ p. p == 0 || (seed_after p == p * max_seed / 100)) p seeds_table le,
    ))
