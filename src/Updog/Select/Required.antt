-- ===== src/Updog/Select/Required.antt =====
-- What `update_required` of sources/updater/updog/src/main.rs returns.
use bottlerocket_core_kit.Prelude.{
  ℕ, ◌≡◌, ◌≢◌, refl, sym, ap, subst, ◌∙◌, inl, inr, ◌⊎◌, Bool, true, false, ◌&&◌, Option, none,
  some, List, [], ◌∷◌, eq_iff, String, str_eq, find_by, if◌then◌else◌, In, All, arith, Bool-cases,
  false≢true,
}
use bottlerocket_core_kit.Prelude.Order.{
  Ord, eqb, before, at_most, eqb→eq, eqb_refl, before-at_most, at_most_refl,
}
use bottlerocket_core_kit.Prelude.Outcome.{Outcome, ok, context, >>=-eq-ok}
use bottlerocket_core_kit.Prelude.Sort.{
  sort_descending, All-sort, sort-All, Descending-sort, All-In,
}
use bottlerocket_core_kit.UpdateMetadata.Chrono.{Chrono}
use bottlerocket_core_kit.UpdateMetadata.Manifest.{Update}
use bottlerocket_core_kit.UpdateMetadata.Wave.{update_ready}
use bottlerocket_core_kit.Updog.Select.{
  is_applicable, Error, applicable, applicable_updates, version_of, moves_to, find_version, locked,
  choose, update_required,
}
use bottlerocket_core_kit.Updog.Select.Chosen.{
  IsFor, applicable-IsFor, IsFor-keeps, applicable_complete, find_by-In, find_by-highest,
}

All-from : {A : Type 0} (P : A → Type 0) (l : List A) → ((u : A) → In u l → P u) → All P l
All-from P [] h = tt
All-from P (x ∷ l) h = (h x (inl refl), All-from P l (λ u m. h u (inr m)))

eq_iff-true : (lock : String) → lock ≡ "latest" → str_eq lock "latest" ≡ true
eq_iff-true lock h = ground (arith, eq_iff lock "latest")

find_by-some :
    {A : Type 0} (test : A → Bool) (l : List A) (v : A)
    → In v l
    → test v ≡ true
    → (u : A) × (find_by test l ≡ some u)
find_by-some test [] v m t = absurd m
find_by-some test (x ∷ l) v m t = elim (Bool-cases (test x)) [
  | inl here ↦ (x, rw here refl)
  | inr skip ↦ elim m [
    | inl same ↦ absurd (false≢true (sym skip ∙ ap test (sym same) ∙ t))
    | inr later ↦ let (u, h) = find_by-some test l v later t in (u, rw skip h)
  ]
]

-- What the mode "latest" takes: an increase of the version, or, from a version past the largest one
-- that was published, any version.
abbrev pub Moves : {V : Type 0} → ⦃o : Ord V⦄ → ⦃c : Chrono⦄ → V → Update V c.Time → Type 0
Moves version u = (before version u.version ≡ true) ⊎ (before u.max_version version ≡ true)

module _ {V : Type 0} ⦃o : Ord V⦄ ⦃c : Chrono⦄ where
  moves_to-Moves : (version : V) (u : Update V c.Time) → moves_to version u ≡ true → Moves version u
  unfolding moves_to
  moves_to-Moves version u h = elim (Bool-cases (before version u.version)) [
    | inl up ↦ inl up
    | inr flat ↦ inr (rw flat at h)
  ]

  Moves-moves_to : (version : V) (u : Update V c.Time) → Moves version u → moves_to version u ≡ true
  unfolding moves_to
  Moves-moves_to version u (inl up) = rw up refl
  Moves-moves_to version u (inr down) = ground arith

module _ {V : Type 0} ⦃o : Ord V⦄ ⦃c : Chrono⦄ (target_arch variant : String) (ignore_waves : Bool)
    (seed : ℕ) (now : Update V c.Time → c.Time) where
  -- Waves are ignored, or asking whether the update is ready does not panic.
  abbrev pub IsAnswered : Update V c.Time → Type 0
  IsAnswered u =
      (ignore_waves ≡ true) ⊎ ((b : Bool) × (update_ready {E = Error} u.waves seed (now u) ≡ ok b))

  is_applicable-ok :
      (u : Update V c.Time)
      → IsAnswered u
      → (b : Bool) × (is_applicable target_arch variant ignore_waves seed now u ≡ ok b)
  unfolding is_applicable
  is_applicable-ok u answered =
      elim (Bool-cases (
        str_eq u.variant variant
        && (str_eq u.arch target_arch && at_most u.version u.max_version))) [
          | inr other ↦ (false, rw other refl)
          | inl fits ↦ elim answered [
            | inl ignored ↦ (true, rw (fits, ignored) refl)
            | inr (b, e) ↦ elim (Bool-cases ignore_waves) [
              | inl ignored ↦ (true, rw (fits, ignored) refl)
              | inr heeded ↦ (b, rw (fits, heeded) e)
            ]
          ]
        ]

  applicable-ok :
      (us : List (Update V c.Time))
      → All IsAnswered us
      → (found : List (Update V c.Time)) × (applicable target_arch variant ignore_waves seed now us
          ≡ ok found)
  unfolding applicable
  applicable-ok [] answered = ([], refl)
  applicable-ok (u ∷ us) answered =
      let (b, e) = is_applicable-ok u answered.0 in
      let (found, e') = applicable-ok us answered.1 in
      (if b then u ∷ found else found, rw (e, e') refl)

module _ {V : Type 0} ⦃o : Ord V⦄ ⦃c : Chrono⦄ {Friendly : Type 0}
    (friendly : String → Option Friendly) (semver : Friendly → Option V) where
  -- The update chosen is one of the applicable ones.
  choose-In :
      (version : V) (version_lock : String) (force : Option V) (l : List (Update V c.Time))
      (u : Update V c.Time)
      → choose friendly semver version version_lock force l ≡ ok (some u)
      → In u l
  unfolding choose locked find_version
  choose-In version lock (some forced) l u h =
      (find_by-In (λ u. eqb u.version forced) l u (ground arith)).0
  choose-In version lock none l u h = elim (Bool-cases (str_eq lock "latest")) [
    | inl latest ↦ (find_by-In (moves_to version) l u (ground (arith, latest))).0
    | inr named ↦
        let h' : locked friendly semver version lock l ≡ ok (some u) = rw named at h in
        let (f, _, h₁) = >>=-eq-ok (context _ (friendly lock)) _ h' in
        let (v, _, h₂) = >>=-eq-ok (context _ (semver f)) _ h₁ in
        elim (Bool-cases (eqb v version)) [
          | inl same ↦ absurd (ground (arith, same))
          | inr other ↦ (find_by-In (λ u. eqb u.version v) l u (ground (arith, other))).0
        ]
  ]

  at_least :
      (version : V) (u : Update V c.Time)
      → at_most u.version u.max_version ≡ true
      → moves_to version u ≡ true
      → u.version ≢ version
  unfolding moves_to
  at_least version u fits h e = elim (Bool-cases (before version u.version)) [
    | inl up ↦ false≢true (sym (before-at_most version u.version up) ∙ rw e (at_most_refl version))
    | inr flat ↦
        let down : before u.max_version version ≡ true = ground (arith, flat) in
        false≢true (
          sym (before-at_most u.max_version version down)
          ∙ subst (λ v. at_most v u.max_version ≡ true) e fits)
  ]

  -- Without a forced version the update chosen has another version.
  choose-moves :
      (version : V) (version_lock : String) (l : List (Update V c.Time)) (u : Update V c.Time)
      → (at_most u.version u.max_version ≡ true)
      → choose friendly semver version version_lock none l ≡ ok (some u)
      → u.version ≢ version
  unfolding choose locked find_version
  choose-moves version lock l u fits h = elim (Bool-cases (str_eq lock "latest")) [
    | inl latest ↦
        at_least version u fits (find_by-In (moves_to version) l u (ground (arith, latest))).1
    | inr named ↦
        let h' : locked friendly semver version lock l ≡ ok (some u) = rw named at h in
        let (f, _, h₁) = >>=-eq-ok (context _ (friendly lock)) _ h' in
        let (v, _, h₂) = >>=-eq-ok (context _ (semver f)) _ h₁ in
        elim (Bool-cases (eqb v version)) [
          | inl same ↦ absurd (ground (arith, same))
          | inr other ↦
              let hit = (find_by-In (λ u. eqb u.version v) l u (ground (arith, other))).1 in
              λ e. false≢true (
                sym other
                ∙ subst (λ x. eqb x version ≡ true) (eqb→eq u.version v hit)
                    (subst (λ x. eqb x version ≡ true) (sym e) (eqb_refl version)))
        ]
  ]

  module _ (manifest : List (Update V c.Time)) (target_arch : String) (version : V)
      (variant : String) (ignore_waves : Bool) (seed : ℕ) (now : Update V c.Time → c.Time)
      (version_lock : String) where
    abbrev required : Option V → Outcome Error (Option (Update V c.Time))
    required =
        update_required friendly semver manifest target_arch version variant ignore_waves seed now
          version_lock

    -- The applicable updates of the manifest, before they are sorted.
    required-from :
        (force : Option V) (u : Update V c.Time)
        → required force ≡ ok (some u)
        → (found : List (Update V c.Time)) × (applicable target_arch variant ignore_waves seed now
              manifest
            ≡ ok found)
          × (choose friendly semver version version_lock force (sort_descending version_of found)
              ≡ ok (some u))
    unfolding update_required applicable_updates
    required-from force u h =
        let (sorted, e, h₁) =
          >>=-eq-ok (applicable_updates target_arch variant ignore_waves seed now manifest) _ h in
        let (found, e', h₂) =
          >>=-eq-ok (applicable target_arch variant ignore_waves seed now manifest) _ e in
        let same : sort_descending version_of found ≡ sorted = cc in
        (
          found,
          e',
          subst (λ l. choose friendly semver version version_lock force l ≡ ok (some u)) (sym same)
              h₁,
        )

    -- Whatever way an update is chosen, forced, latest or locked, it is one of the manifest for this
    -- host: of its variant and architecture, not past its largest published version, and released to
    -- the host's wave unless waves are ignored.
    pub update_required-IsFor :
        (force : Option V) (u : Update V c.Time)
        → required force ≡ ok (some u)
        → IsFor target_arch variant ignore_waves seed now manifest u
    update_required-IsFor force u h =
        let (found, e, chosen) = required-from force u h in
        All-In (IsFor target_arch variant ignore_waves seed now manifest)
          (sort_descending version_of found) u
          (All-sort version_of _ found
            (applicable-IsFor target_arch variant ignore_waves seed now manifest found e))
          (choose-In version version_lock force _ u chosen)

    -- Without a forced version, the update chosen is of another version than the host's.
    pub update_required-moves :
        (u : Update V c.Time) → required none ≡ ok (some u) → u.version ≢ version
    update_required-moves u h =
        let (found, e, chosen) = required-from none u h in
        choose-moves version version_lock _ u (update_required-IsFor none u h).not_past_max chosen

    -- In the mode "latest" without a forced version, where some update for this host is a higher
    -- version, or the host's version is past that update's largest published one, an update is chosen
    -- of which the same is true, so that it may be a lower version than the host's; and none for which
    -- it is true is of a higher version than the one chosen. Nothing panics as each update of the
    -- manifest is asked whether it is ready.
    pub update_required-latest :
        (v : Update V c.Time)
        → version_lock ≡ "latest"
        → All (IsAnswered target_arch variant ignore_waves seed now) manifest
        → IsFor target_arch variant ignore_waves seed now manifest v
        → Moves version v
        → (u : Update V c.Time) × (required none ≡ ok (some u))
          × Moves version u
          × (at_most v.version u.version ≡ true)
    unfolding update_required applicable_updates choose
    update_required-latest v latest answered f moved =
        let (found, e) =
          applicable-ok target_arch variant ignore_waves seed now manifest answered in
        let sorted = sort_descending version_of found in
        let moves = Moves-moves_to version v moved in
        let m =
          applicable_complete target_arch variant ignore_waves seed now manifest found v e f.listed
            (IsFor-keeps target_arch variant ignore_waves seed now manifest v f) in
        let m' =
          All-In (λ x. In x sorted) found v
            (sort-All version_of (λ x. In x sorted) found (All-from _ sorted (λ x i. i))) m in
        let (u, hit) = find_by-some (moves_to version) sorted v m' moves in
        (
          u,
          rw (e, eq_iff-true version_lock latest, hit) refl,
          moves_to-Moves version u (find_by-In (moves_to version) sorted u hit).1,
          find_by-highest (moves_to version) sorted u v (Descending-sort version_of found) hit m'
              moves,
        )
