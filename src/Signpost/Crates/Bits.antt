-- ===== src/Signpost/Crates/Bits.antt =====
-- `bit_field` on concrete numbers, to show that what is relied on can hold.
use bottlerocket_core_kit.Prelude.{
  ℕ, zero, suc, ◌+◌, ◌-◌, ◌*◌, ◌/◌, ◌%◌, ◌^◌, ◌≤◌, ◌<◌, ◌≡◌, refl, ap, ◌⊎◌, inl, inr, arith,
}
use native.Mathlib.Nat.{pow-suc}
use bottlerocket_core_kit.Signpost.Crates.{BitField}

low : ℕ → ℕ → ℕ
low zero x = 0
low (suc n) x = x % 2 + 2 * low n (x / 2)

skip : ℕ → ℕ → ℕ
skip zero x = x
skip (suc k) x = skip k (x / 2)

overwrite : ℕ → ℕ → ℕ → ℕ
overwrite zero v x = x
overwrite (suc n) v x = v % 2 + 2 * overwrite n (v / 2) (x / 2)

write_at : ℕ → ℕ → ℕ → ℕ → ℕ
unfolding overwrite
write_at zero n v x = overwrite n v x
write_at (suc lo) n v x = x % 2 + 2 * write_at lo n v (x / 2)

half : (b y : ℕ) → (b % 2 + 2 * y) / 2 ≡ y
half b y = omega arith

odd : (b y : ℕ) → (b % 2 + 2 * y) % 2 ≡ b % 2
odd b y = omega arith

low-overwrite : (n v x : ℕ) → v < 2 ^ n → low n (overwrite n v x) ≡ v
unfolding low overwrite
low-overwrite zero v x h = omega arith
low-overwrite (suc n) v x h =
    rw (half v (overwrite n (v / 2) (x / 2)), odd v (overwrite n (v / 2) (x / 2)))
      (omega (arith, low-overwrite n (v / 2) (x / 2) (halved n v h)))
  where
    halved : (n v : ℕ) → v < 2 ^ suc n → v / 2 < 2 ^ n
    halved n v h = omega (arith, pow-suc 2 n)

low-skip-write : (lo n v x : ℕ) → v < 2 ^ n → low n (skip lo (write_at lo n v x)) ≡ v
unfolding skip write_at
low-skip-write zero n v x h = low-overwrite n v x h
low-skip-write (suc lo) n v x h =
    rw (half x (write_at lo n v (x / 2))) (low-skip-write lo n v (x / 2) h)

skip-overwrite : (n lo' v x : ℕ) → n ≤ lo' → skip lo' (overwrite n v x) ≡ skip lo' x
unfolding skip overwrite
skip-overwrite zero lo' v x h = refl
skip-overwrite (suc n) zero v x h = absurd (omega arith)
skip-overwrite (suc n) (suc lo') v x h =
    rw (half v (overwrite n (v / 2) (x / 2))) (skip-overwrite n lo' (v / 2) (x / 2) (omega arith))

skip-write_above : (lo n v x lo' : ℕ) → lo + n ≤ lo' → skip lo' (write_at lo n v x) ≡ skip lo' x
unfolding skip write_at
skip-write_above zero n v x lo' h = skip-overwrite n lo' v x (omega arith)
skip-write_above (suc lo) n v x zero h = absurd (omega arith)
skip-write_above (suc lo) n v x (suc lo') h =
    rw (half x (write_at lo n v (x / 2))) (skip-write_above lo n v (x / 2) lo' (omega arith))

low-write_above : (lo n v x n' : ℕ) → n' ≤ lo → low n' (write_at lo n v x) ≡ low n' x
unfolding low write_at
low-write_above lo n v x zero h = refl
low-write_above zero n v x (suc n') h = absurd (omega arith)
low-write_above (suc lo) n v x (suc n') h =
    rw (half x (write_at lo n v (x / 2)), odd x (write_at lo n v (x / 2)))
      (ap (λ k. x % 2 + 2 * k) (low-write_above lo n v (x / 2) n' (omega arith)))

low-write_below :
    (lo n v x lo' n' : ℕ)
    → lo' + n' ≤ lo
    → low n' (skip lo' (write_at lo n v x)) ≡ low n' (skip lo' x)
unfolding skip write_at
low-write_below lo n v x zero n' h = low-write_above lo n v x n' (omega arith)
low-write_below zero n v x (suc lo') n' h = absurd (omega arith)
low-write_below (suc lo) n v x (suc lo') n' h =
    rw (half x (write_at lo n v (x / 2))) (low-write_below lo n v (x / 2) lo' n' (omega arith))

width : (lo n : ℕ) → (lo + n) - lo ≡ n
width lo n = omega arith

unfoldable pub get_bits : ℕ → ℕ → ℕ → ℕ
unfolding low skip
get_bits x lo hi = low (hi - lo) (skip lo x)

unfoldable pub set_bits : ℕ → ℕ → ℕ → ℕ → ℕ
unfolding write_at
set_bits x lo hi v = write_at lo (hi - lo) v x

pub get_set_lem :
    (x lo n v : ℕ) → lo + n ≤ 64 → v < 2 ^ n → get_bits (set_bits x lo (lo + n) v) lo (lo + n) ≡ v
unfolding get_bits set_bits
get_set_lem x lo n v h f = rw (width lo n) (low-skip-write lo n v x f)

pub get_set_disjoint_lem :
    (x lo n v lo' n' : ℕ)
    → (lo + n ≤ lo') ⊎ (lo' + n' ≤ lo)
    → get_bits (set_bits x lo (lo + n) v) lo' (lo' + n') ≡ get_bits x lo' (lo' + n')
unfolding get_bits set_bits
get_set_disjoint_lem x lo n v lo' n' (inl above) =
    rw (width lo n) (ap (low ((lo' + n') - lo')) (skip-write_above lo n v x lo' above))
get_set_disjoint_lem x lo n v lo' n' (inr below) =
    rw (width lo n, width lo' n') (low-write_below lo n v x lo' n' below)

instance abbrev pub u64_bits : BitField
u64_bits = record {
  get_bits = get_bits;
  set_bits = set_bits;
  get_set = get_set_lem;
  get_set_disjoint = get_set_disjoint_lem;
}
