-- ===== src/Migrator/Links/Names.antt =====
-- The names of the links of main.rs: those of different kinds differ.
use bottlerocket_core_kit.Prelude.{
  ℕ, zero, suc, ◌+◌, ◌/◌, ◌%◌, ◌≡◌, ◌≢◌, refl, ◌∙◌, ap, false, [], ◌∷◌, ◌++◌, inl, inr, arith,
  if◌then◌else◌, Bool-cases, ◌==◌, ltb,
}
use bottlerocket_core_kit.Prelude.Text.{Text, text_eq, text_eq→eq}
use bottlerocket_core_kit.Prelude.Decimal.{to_decimal, digits}
use bottlerocket_core_kit.Migrator.Links.{Semver, current_name, major_name, minor_name, patch_name}

-- The number of full stops in a name.
unfoldable dots : Text → ℕ
dots [] = 0
dots (c ∷ s) = let rest = dots s in if c == 46 then suc rest else rest

dots-append : (s t : Text) → dots (s ++ t) ≡ dots s + dots t
unfolding dots
dots-append [] t = omega arith
dots-append (c ∷ s) t = ground (arith, dots-append s t)

dots-digits : (fuel n : ℕ) → dots (digits fuel n) ≡ 0
unfolding dots digits
dots-digits zero n = refl
dots-digits (suc fuel) n = elim (Bool-cases (ltb n 10)) [
  | inl small ↦ rw small (ground arith)
  | inr large ↦ rw large (
      dots-append (digits fuel (n / 10)) ((48 + n % 10) ∷ [])
      ∙ ground (arith, dots-digits fuel (n / 10)))
]

dots-to_decimal : (n : ℕ) → dots (to_decimal n) ≡ 0
unfolding to_decimal
dots-to_decimal n = dots-digits 20 n

differ : (s t : Text) → dots s ≢ dots t → text_eq s t ≡ false
differ s t h = elim (Bool-cases (text_eq s t)) [
  | inl same ↦ absurd (h (ap dots (text_eq→eq s t same)))
  | inr other ↦ other
]

module _ {V : Type 0} (semver : Semver V) where
  dots-major : (v : V) → dots (major_name semver v) ≡ 0
  unfolding dots major_name
  dots-major v = dots-to_decimal (semver.major v)

  dots-minor : (v : V) → dots (minor_name semver v) ≡ 1
  unfolding dots minor_name
  dots-minor v =
      dots-append (major_name semver v) (46 ∷ to_decimal (semver.minor v))
      ∙ omega (arith, dots-major v, dots-to_decimal (semver.minor v))

  dots-patch : (v : V) → dots (patch_name semver v) ≡ 2
  unfolding dots patch_name
  dots-patch v =
      dots-append (minor_name semver v) (46 ∷ to_decimal (semver.patch v))
      ∙ omega (arith, dots-minor v, dots-to_decimal (semver.patch v))

  pub patch-minor : (v w : V) → text_eq (patch_name semver v) (minor_name semver w) ≡ false
  patch-minor v w =
      differ (patch_name semver v) (minor_name semver w)
        (λ e. omega (arith, dots-patch v, dots-minor w))

  pub patch-major : (v w : V) → text_eq (patch_name semver v) (major_name semver w) ≡ false
  patch-major v w =
      differ (patch_name semver v) (major_name semver w)
        (λ e. omega (arith, dots-patch v, dots-major w))

  pub minor-patch : (v w : V) → text_eq (minor_name semver v) (patch_name semver w) ≡ false
  minor-patch v w =
      differ (minor_name semver v) (patch_name semver w)
        (λ e. omega (arith, dots-minor v, dots-patch w))

  pub minor-major : (v w : V) → text_eq (minor_name semver v) (major_name semver w) ≡ false
  minor-major v w =
      differ (minor_name semver v) (major_name semver w)
        (λ e. omega (arith, dots-minor v, dots-major w))

  pub major-minor : (v w : V) → text_eq (major_name semver v) (minor_name semver w) ≡ false
  major-minor v w =
      differ (major_name semver v) (minor_name semver w)
        (λ e. omega (arith, dots-major v, dots-minor w))

  pub major-patch : (v w : V) → text_eq (major_name semver v) (patch_name semver w) ≡ false
  major-patch v w =
      differ (major_name semver v) (patch_name semver w)
        (λ e. omega (arith, dots-major v, dots-patch w))

  dots_current : dots current_name ≡ 0
  unfolding dots
  dots_current = refl

  pub patch-current : (v : V) → text_eq (patch_name semver v) current_name ≡ false
  patch-current v =
      differ (patch_name semver v) current_name (λ e. omega (arith, dots-patch v, dots_current))

  pub minor-current : (v : V) → text_eq (minor_name semver v) current_name ≡ false
  minor-current v =
      differ (minor_name semver v) current_name (λ e. omega (arith, dots-minor v, dots_current))

  pub current-patch : (v : V) → text_eq current_name (patch_name semver v) ≡ false
  current-patch v =
      differ current_name (patch_name semver v) (λ e. omega (arith, dots-patch v, dots_current))

  pub current-minor : (v : V) → text_eq current_name (minor_name semver v) ≡ false
  current-minor v =
      differ current_name (minor_name semver v) (λ e. omega (arith, dots-minor v, dots_current))

  pub major-current : (v : V) → text_eq (major_name semver v) current_name ≡ false
  unfolding major_name
  major-current v = refl

  pub current-major : (v : V) → text_eq current_name (major_name semver v) ≡ false
  unfolding major_name
  current-major v = refl
