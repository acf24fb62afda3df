-- ===== src/Updog/Select/Chosen.antt =====
-- What the chosen update satisfies.
use bottlerocket_core_kit.Prelude.{
  ℕ, ◌≡◌, refl, sym, ap, subst, ◌∙◌, inl, inr, ◌⊎◌, Bool, true, false, some, List, [], ◌∷◌, String,
  eq_iff, find_by, In, All, arith, Bool-cases, false≢true,
}
use bottlerocket_core_kit.Prelude.Order.{Ord, at_most, at_most_refl}
use bottlerocket_core_kit.Prelude.Outcome.{Outcome, ok, >>=-eq-ok}
use bottlerocket_core_kit.Prelude.Sort.{Descending, All-In}
use bottlerocket_core_kit.UpdateMetadata.Chrono.{Chrono}
use bottlerocket_core_kit.UpdateMetadata.Manifest.{Update}
use bottlerocket_core_kit.UpdateMetadata.Wave.{update_ready}
use bottlerocket_core_kit.Updog.Select.{Error, is_applicable, applicable, version_of}

module _ {V : Type 0} ⦃o : Ord V⦄ ⦃c : Chrono⦄ (target_arch variant : String) (ignore_waves : Bool)
    (seed : ℕ) (now : Update V c.Time → c.Time) where
  -- An update of the manifest for this host: of its variant and architecture, not past the largest
  -- published version, and released to it.
  pub record IsFor (manifest : List (Update V c.Time)) (u : Update V c.Time) : Type 0 where
    pub listed : In u manifest
    pub same_variant : u.variant ≡ variant
    pub same_arch : u.arch ≡ target_arch
    pub not_past_max : at_most u.version u.max_version ≡ true
    pub released : (ignore_waves ≡ true) ⊎ (update_ready {E = Error} u.waves seed (now u) ≡ ok true)

  abbrev pub keeps : Update V c.Time → Outcome Error Bool
  keeps = is_applicable target_arch variant ignore_waves seed now

  record Passes (u : Update V c.Time) : Type 0 where
    passes_variant : u.variant ≡ variant
    passes_arch : u.arch ≡ target_arch
    passes_max : at_most u.version u.max_version ≡ true
    passes_waves : (ignore_waves ≡ true) ⊎ (update_ready {E = Error} u.waves seed (now u) ≡ ok true)

  is_applicable-Passes : (u : Update V c.Time) → keeps u ≡ ok true → Passes u
  unfolding is_applicable
  is_applicable-Passes u h = ground (arith, eq_iff u.variant variant, eq_iff u.arch target_arch)

  weaken :
      (u : Update V c.Time) (us l : List (Update V c.Time))
      → All (IsFor us) l
      → All (IsFor (u ∷ us)) l
  weaken u us [] h = tt
  weaken u us (x ∷ l) h = (
    record {
      listed = inr h.0.listed;
      same_variant = h.0.same_variant;
      same_arch = h.0.same_arch;
      not_past_max = h.0.not_past_max;
      released = h.0.released;
    },
    weaken u us l h.1,
  )

  pub applicable-IsFor :
      (us found : List (Update V c.Time))
      → applicable target_arch variant ignore_waves seed now us ≡ ok found
      → All (IsFor us) found
  unfolding applicable
  applicable-IsFor [] found h = let e : [] ≡ found = ground arith in subst (All (IsFor [])) e tt
  applicable-IsFor (u ∷ us) found h =
      let (keep, kept, h₁) = >>=-eq-ok (keeps u) _ h in
      let (rest, more, h₂) =
        >>=-eq-ok (applicable target_arch variant ignore_waves seed now us) _ h₁ in
      let later = weaken u us rest (applicable-IsFor us rest more) in
      elim (Bool-cases keep) [
        | inl yes_keep ↦
            let p = is_applicable-Passes u (kept ∙ ap ok yes_keep) in
            let e : u ∷ rest ≡ found = ground (arith, yes_keep) in
            subst (All (IsFor (u ∷ us))) e (
              record {
                listed = inl refl;
                same_variant = p.passes_variant;
                same_arch = p.passes_arch;
                not_past_max = p.passes_max;
                released = p.passes_waves;
              },
              later,
            )
        | inr skip ↦
            let e : rest ≡ found = ground (arith, skip) in subst (All (IsFor (u ∷ us))) e later
      ]

  pub IsFor-keeps :
      (us : List (Update V c.Time)) (u : Update V c.Time) → IsFor us u → keeps u ≡ ok true
  unfolding is_applicable
  IsFor-keeps us u f = ground (
    arith,
    f.same_variant,
    f.same_arch,
    f.not_past_max,
    f.released,
    eq_iff u.variant variant,
    eq_iff u.arch target_arch,
  )

  pub applicable_complete :
      (us found : List (Update V c.Time)) (v : Update V c.Time)
      → applicable target_arch variant ignore_waves seed now us ≡ ok found
      → In v us
      → keeps v ≡ ok true
      → In v found
  unfolding applicable
  applicable_complete [] found v h m k = absurd m
  applicable_complete (u ∷ us) found v h m k =
      let (keep, kept, h₁) = >>=-eq-ok (keeps u) _ h in
      let (rest, more, h₂) =
        >>=-eq-ok (applicable target_arch variant ignore_waves seed now us) _ h₁ in
      elim (Bool-cases keep) [
        | inl yes_keep ↦
            let e : u ∷ rest ≡ found = ground (arith, yes_keep) in
            subst (In v) e (elim m [
              | inl same ↦ inl same
              | inr later ↦ inr (applicable_complete us rest v more later k)
            ])
        | inr skip ↦
            let e : rest ≡ found = ground (arith, skip) in
            subst (In v) e (elim m [
              | inl same ↦ absurd (clash u v keep same kept skip k)
              | inr later ↦ applicable_complete us rest v more later k
            ])
      ]
    where
      clash :
          (u v : Update V c.Time) (keep : Bool)
          → v ≡ u
          → keeps u ≡ ok keep
          → keep ≡ false
          → keeps v ≡ ok true
          → ⊥
      clash u v keep same kept skip k = false≢true (cc (ap keeps same))

module _ {V : Type 0} ⦃o : Ord V⦄ ⦃c : Chrono⦄ where
  pub find_by-In :
      (test : Update V c.Time → Bool) (l : List (Update V c.Time)) (u : Update V c.Time)
      → find_by test l ≡ some u
      → In u l × (test u ≡ true)
  find_by-In test [] u h = cc
  find_by-In test (x ∷ l) u h = elim (Bool-cases (test x)) [
    | inl here ↦
        let e : x ≡ u = ground (arith, here) in (inl (sym e), subst (λ y. test y ≡ true) e here)
    | inr later ↦ let (m, t) = find_by-In test l u (rw later at h) in (inr m, t)
  ]

  -- In a list that is sorted by version, the first hit is the highest.
  pub find_by-highest :
      (test : Update V c.Time → Bool) (l : List (Update V c.Time)) (u v : Update V c.Time)
      → Descending version_of l
      → find_by test l ≡ some u
      → In v l
      → test v ≡ true
      → at_most v.version u.version ≡ true
  find_by-highest test [] u v d h m t = absurd m
  find_by-highest test (x ∷ l) u v d h m t = elim (Bool-cases (test x)) [
    | inl here ↦
        let e : x ≡ u = ground (arith, here) in
        subst (λ y. at_most v.version y.version ≡ true) e
          (elim m [
            | inl same ↦
                subst (λ y. at_most y.version x.version ≡ true) (sym same) (at_most_refl x.version)
            | inr later ↦ All-In (λ y. at_most y.version x.version ≡ true) l v d.0 later
          ])
    | inr skip ↦ elim m [
      | inl same ↦ absurd (false≢true (sym skip ∙ ap test (sym same) ∙ t))
      | inr later ↦ find_by-highest test l u v d.1 (rw skip at h) later t
    ]
  ]
