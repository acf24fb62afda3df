-- ===== src/UpdateMetadata/Manifest/Added.antt =====
-- What `add_update` does to the largest published version.
use bottlerocket_core_kit.Prelude.{
  ◌≡◌, refl, sym, ap, subst, ◌∙◌, inl, inr, ◌⊎◌, true, ◌&&◌, false≢true, Option, none, some, List,
  [], ◌∷◌, ◌++◌, map, String, str_eq, eq_iff, In, arith, Bool-cases, &&-eq-true,
}
use bottlerocket_core_kit.Prelude.HashMap.{str_same, str_same_refl}
use bottlerocket_core_kit.Prelude.Order.{
  Ord, before, at_most, max_of, before-at_most, at_most_refl, at_most-total,
}
use bottlerocket_core_kit.UpdateMetadata.Manifest.{
  Update, Images, names_match, raise_if, update_max_version, chosen_max, add_update,
}

module _ {A : Type 0} where
  append-In : (a : A) (xs ys : List A) → In a xs → In a (xs ++ ys)
  append-In a [] ys m = absurd m
  append-In a (x ∷ xs) ys (inl e) = inl e
  append-In a (x ∷ xs) ys (inr m) = inr (append-In a xs ys m)

module _ {A B : Type 0} where
  map-In : (f : A → B) (a : A) (xs : List A) → In a xs → In (f a) (map f xs)
  map-In f a [] m = absurd m
  map-In f a (x ∷ xs) (inl e) = inl (ap f e)
  map-In f a (x ∷ xs) (inr m) = inr (map-In f a xs m)

module _ {V Time : Type 0} ⦃o : Ord V⦄ (version : V) (arch variant : String) (images : Images) where
  -- The largest version to publish: the one given, or else the greater of the new version and the
  -- first update's largest, if there is an update.
  abbrev pub IsLargest : Option V → List (Update V Time) → V → Type 0
  IsLargest (some given) updates m = m ≡ given
  IsLargest none [] m = m ≡ version
  IsLargest none (u ∷ _) m =
      (at_most version m ≡ true)
      × (at_most u.max_version m ≡ true)
      × ((m ≡ version) ⊎ (m ≡ u.max_version))

  abbrev IsSibling : Update V Time → Type 0
  IsSibling u = (u.arch ≡ arch) × (u.variant ≡ variant)

  -- The updates before and after: those of the architecture and variant have the largest version and
  -- are otherwise as they were, the others are as they were, and the new one is last.
  abbrev pub AreAdded : V → List (Update V Time) → List (Update V Time) → Type 0
  AreAdded m [] after =
      after
      ≡ record {
        variant = variant;
        arch = arch;
        version = version;
        max_version = m;
        waves = [];
        images = images;
      }
        ∷ []
  AreAdded m (u ∷ us) [] = ⊥
  AreAdded m (u ∷ us) (v ∷ vs) =
      ((IsSibling u × (v ≡ record u { max_version = m })) ⊎ (¬ IsSibling u × (v ≡ u)))
      × AreAdded m us vs

  chosen_max-IsLargest :
      (max : Option V) (updates : List (Update V Time))
      → IsLargest max updates (chosen_max version max updates)
  unfolding chosen_max
  chosen_max-IsLargest (some given) updates = refl
  chosen_max-IsLargest none [] = refl
  chosen_max-IsLargest none (u ∷ us) = elim (Bool-cases (at_most version u.max_version)) [
    | inl le ↦ rw le (le, at_most_refl u.max_version, inr refl)
    | inr gt ↦ rw gt (at_most_refl version, at_most-total version u.max_version gt, inl refl)
  ]

  raise_if-AreAdded :
      (m : V) (u : Update V Time)
      → (IsSibling u × (raise_if m (some arch) (some variant) u ≡ record u { max_version = m }))
        ⊎ (¬ IsSibling u × (raise_if m (some arch) (some variant) u ≡ u))
  unfolding raise_if names_match
  raise_if-AreAdded m u = elim (Bool-cases (str_eq u.arch arch && str_eq u.variant variant)) [
    | inl hit ↦
        let (a, v) = &&-eq-true _ _ hit in
        inl ((str_same u.arch arch a, str_same u.variant variant v), rw hit refl)
    | inr other ↦ inr (
      λ (a, v).
          false≢true (sym other ∙ rw (a, v) (rw (str_same_refl arch, str_same_refl variant) refl)),
      rw other refl,
    )
  ]

  map_raise-AreAdded :
      (m : V) (us : List (Update V Time))
      → AreAdded m us (
          map (raise_if m (some arch) (some variant)) us
          ++ record {
            variant = variant;
            arch = arch;
            version = version;
            max_version = m;
            waves = [];
            images = images;
          }
            ∷ [])
  map_raise-AreAdded m [] = refl
  map_raise-AreAdded m (u ∷ us) = (raise_if-AreAdded m u, map_raise-AreAdded m us)

  -- `add_update` puts the new update last, with no waves and the largest version, which is the given
  -- one, or else the greater of the new version and the largest of the first update, if there is one;
  -- gives that largest version to every update of the new one's architecture and variant; and
  -- changes nothing else.
  pub add_update-max :
      (max : Option V) (updates : List (Update V Time))
      → (m : V) × IsLargest max updates m
        × AreAdded m updates (add_update version max arch variant images updates)
  unfolding add_update update_max_version
  add_update-max max updates = (
    chosen_max version max updates,
    chosen_max-IsLargest max updates,
    map_raise-AreAdded (chosen_max version max updates) updates,
  )

module _ {V Time : Type 0} ⦃o : Ord V⦄ (version : V) (arch variant : String) (images : Images)
    (front u : Update V Time) (rest : List (Update V Time)) where
  -- Without a given largest version, only the first update of the manifest is looked at, of
  -- whatever variant: where that one's is below the new version, every update of the new one's
  -- architecture and variant gets the new version for its largest, whatever it had before.
  pub default_max_overwrites :
      In u rest
      → u.arch ≡ arch
      → u.variant ≡ variant
      → before front.max_version version ≡ true
      → In
          (record u { max_version = version })
          (add_update version none arch variant images (front ∷ rest))
  unfolding add_update update_max_version chosen_max
  default_max_overwrites m p q low =
      let raise = raise_if (max_of version front.max_version) (some arch) (some variant) in
      let greater : max_of version front.max_version ≡ version =
        rw (before-at_most front.max_version version low) in
      inr (
        append-In _ (map raise rest) _
          (subst (λ x. In x (map raise rest)) (overwritten p q greater) (map-In raise u rest m)))
    where
      overwritten :
          u.arch ≡ arch
          → u.variant ≡ variant
          → max_of version front.max_version ≡ version
          → raise_if (max_of version front.max_version) (some arch) (some variant) u
            ≡ record u { max_version = version }
      overwritten p q e =
          unfold raise_if names_match in
          rw e (ground (arith, eq_iff u.arch arch, eq_iff u.variant variant))
