-- ===== src/Prelude/Order.antt =====
-- A total order by a three-way comparison, as Rust's `Ord`; the versions of the `semver` crate and
-- the names used as map keys come with one.
use bottlerocket_core_kit.Prelude.Tests.{if◌then◌else◌}
use Prim.Native.Nat.{ℕ, compare, Ordering}
use mathlib.Core.Path.{◌≡◌, refl}
use mathlib.Core.Logic.{◌↔◌, ◌⊎◌, inl, inr}
use mathlib.Core.Bool.{Bool, true, false}
use native.Mathlib.Omega.{arith}

abbrev pub opposite : Ordering → Ordering
opposite Ordering.lt = Ordering.gt
opposite Ordering.eq = Ordering.eq
opposite Ordering.gt = Ordering.lt

pub record Ord {ℓ} (A : Type ℓ) : Type ℓ where
  pub cmp : A → A → Ordering
  pub cmp_eq : (a b : A) → (cmp a b ≡ Ordering.eq) ↔ (a ≡ b)
  pub cmp_opposite : (a b : A) → cmp b a ≡ opposite (cmp a b)
  pub cmp_trans :
      (a b c : A) → cmp a b ≡ Ordering.lt → cmp b c ≡ Ordering.lt → cmp a c ≡ Ordering.lt

pub Ordering-cases : (r : Ordering) → (r ≡ Ordering.lt) ⊎ (r ≡ Ordering.eq) ⊎ (r ≡ Ordering.gt)
Ordering-cases Ordering.lt = inl refl
Ordering-cases Ordering.eq = inr (inl refl)
Ordering-cases Ordering.gt = inr (inr refl)

module _ {ℓ} {A : Type ℓ} ⦃o : Ord A⦄ where
  abbrev pub eqb : A → A → Bool
  eqb a b = elim (o.cmp a b) [ Ordering.eq ↦ true | _ ↦ false ]

  abbrev pub before : A → A → Bool
  before a b = elim (o.cmp a b) [ Ordering.lt ↦ true | _ ↦ false ]

  abbrev pub at_most : A → A → Bool
  at_most a b = elim (o.cmp a b) [ Ordering.gt ↦ false | _ ↦ true ]

  -- `std::cmp::max`: the second of two equal values
  abbrev pub max_of : A → A → A
  max_of a b = if at_most a b then b else a

  pub eqb→eq : (a b : A) → eqb a b ≡ true → a ≡ b
  eqb→eq a b h = (o.cmp_eq a b).0 (ground arith)

  pub eqb_refl : (a : A) → eqb a a ≡ true
  eqb_refl a = ground (arith, (o.cmp_eq a a).1 refl)

  pub before_trans : (a b c : A) → before a b ≡ true → before b c ≡ true → before a c ≡ true
  before_trans a b c p q = ground (arith, o.cmp_trans a b c (ground arith) (ground arith))

  pub at_most-total : (a b : A) → at_most a b ≡ false → at_most b a ≡ true
  at_most-total a b h = ground (arith, o.cmp_opposite a b)

  pub at_most_refl : (a : A) → at_most a a ≡ true
  at_most_refl a = ground (arith, (o.cmp_eq a a).1 refl)

  pub at_most_trans : (a b c : A) → at_most a b ≡ true → at_most b c ≡ true → at_most a c ≡ true
  at_most_trans a b c p q = elim (Ordering-cases (o.cmp a b)) [
    | inl ab ↦ elim (Ordering-cases (o.cmp b c)) [
      | inl bc ↦ ground (arith, o.cmp_trans a b c ab bc)
      | inr (inl bc) ↦ rw ((o.cmp_eq b c).0 bc) at p
      | inr (inr bc) ↦ ground arith
    ]
    | inr (inl ab) ↦ rw ((o.cmp_eq a b).0 ab) q
    | inr (inr ab) ↦ ground arith
  ]

  -- `before` is strict.
  pub before-at_most : (a b : A) → before a b ≡ true → at_most b a ≡ false
  before-at_most a b h = ground (arith, o.cmp_opposite a b)

  pub before→at_most : (a b : A) → before a b ≡ true → at_most a b ≡ true
  before→at_most a b h = ground arith

pub compare_eq : (a b : ℕ) → (compare a b ≡ Ordering.eq) ↔ (a ≡ b)
compare_eq a b = (λ h. ground arith, λ h. ground arith)

pub compare-opposite : (a b : ℕ) → compare b a ≡ opposite (compare a b)
compare-opposite a b = ground arith

pub compare_trans :
    (a b c : ℕ) → compare a b ≡ Ordering.lt → compare b c ≡ Ordering.lt → compare a c ≡ Ordering.lt
compare_trans a b c p q = ground arith

instance abbrev pub nat_ord : Ord ℕ
nat_ord = record {
  cmp = compare;
  cmp_eq = compare_eq;
  cmp_opposite = compare-opposite;
  cmp_trans = compare_trans;
}
