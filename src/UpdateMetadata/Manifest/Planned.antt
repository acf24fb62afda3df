-- ===== src/UpdateMetadata/Manifest/Planned.antt =====
-- What `set_waves` writes.
use bottlerocket_core_kit.Prelude.{
  ℕ, suc, ◌*◌, ◌/◌, ◌≤◌, ◌<◌, ◌≡◌, ◌≢◌, refl, sym, ap, subst, ◌∙◌, inl, inr, ◌⊎◌, Bool, true, false,
  not, ◌&&◌, false≢true, Option, none, some, List, [], ◌∷◌, String, ltb, leb, ◌==◌, ==→eq,
  if◌then◌else◌, All, arith, Bool-cases, Option-cases, &&-eq-true, filter_by, length,
}
use bottlerocket_core_kit.Prelude.HashMap.{str_same, str_same_refl}
use bottlerocket_core_kit.Prelude.Order.{Ord, eqb→eq, eqb_refl}
use bottlerocket_core_kit.Prelude.Outcome.{Outcome, ok, err, panic, Outcome-cases}
use bottlerocket_core_kit.UpdateMetadata.Chrono.{Chrono}
use bottlerocket_core_kit.UpdateMetadata.Error.{Error, invalid_fleet_percentage, bad_offset}
use bottlerocket_core_kit.UpdateMetadata.Manifest.{
  Update, UpdateWave, insert, is_match, fill_waves, fill_matching, validate_waves, validate_updates,
  set_waves,
}
use bottlerocket_core_kit.UpdateMetadata.Seeds.{seed_after, seed_after-exact}
use bottlerocket_core_kit.UpdateMetadata.Wave.{Waves, max_seed}
use bottlerocket_core_kit.UpdateMetadata.Wave.Lookup.{Sorted}

All-insert {ℓ} :
    {A : Type ℓ} (P : ℕ × A → Type 0) (k : ℕ) (v : A) (l : List (ℕ × A))
    → P (k, v)
    → All P l
    → All P (insert k v l)
unfolding insert
All-insert P k v [] p h = (p, tt)
All-insert P k v ((j, w) ∷ l) p h = elim (Bool-cases (ltb k j)) [
  | inl lt ↦ rw lt (p, h)
  | inr ge ↦ elim (Bool-cases (k == j)) [
    | inl eq ↦ rw (ge, eq) (p, h.1)
    | inr gt ↦ rw (ge, gt) (h.0, All-insert P k v l p h.1)
  ]
]

All-mono {ℓ} :
    {A : Type ℓ} (j k : ℕ) (l : List (ℕ × A)) → j ≤ k → All (λ e. k < e.0) l → All (λ e. j < e.0) l
All-mono j k [] le h = tt
All-mono j k (e ∷ l) le h = (omega (arith, h.0), All-mono j k l le h.1)

Sorted-insert : {A : Type 0} (k : ℕ) (v : A) (l : Waves A) → Sorted l → Sorted (insert k v l)
unfolding insert
Sorted-insert k v [] h = (tt, tt)
Sorted-insert k v ((j, w) ∷ l) h = elim (Bool-cases (ltb k j)) [
  | inl lt ↦ rw lt ((ground arith, All-mono k j l (ground arith) h.0), h)
  | inr ge ↦ elim (Bool-cases (k == j)) [
    | inl eq ↦ rw (ge, eq) (All-mono k j l (ground arith) h.0, h.1)
    | inr gt ↦
        rw (ge, gt) (All-insert (λ e. j < e.0) k v l (ground arith) h.0, Sorted-insert k v l h.1)
  ]
]

seed_after-le : (p : ℕ) → 0 < p → p ≤ 100 → seed_after p ≤ max_seed
seed_after-le p pos le = omega (arith, seed_after-exact p pos le)

-- The keys are in order, and are seeds.
pub record IsSeedMap {Time : Type 0} (waves : Waves Time) : Type 0 where
  pub sorted : Sorted waves
  pub bounded : All (λ e. e.0 ≤ max_seed) waves

abbrev percent_ok : UpdateWave → Bool
percent_ok w = ltb 0 w.fleet_percentage && leb w.fleet_percentage 100

percent_pos : (w : UpdateWave) → percent_ok w ≡ true → 0 < w.fleet_percentage
percent_pos w h = ground arith

percent_le : (w : UpdateWave) → percent_ok w ≡ true → w.fleet_percentage ≤ 100
percent_le w h = ground arith

-- The first seed and the start of each wave of a file: a wave's percentage of all seeds is where
-- the next one starts.
unfoldable pub schedule : ℕ → List UpdateWave → List (ℕ × String)
schedule seed [] = []
schedule seed (w ∷ ws) = (seed, w.start_after) ∷ schedule (w.fleet_percentage * max_seed / 100) ws

module _ {A : Type 0} where
  -- The last entry of a list for a key.
  unfoldable pub last_entry : ℕ → List (ℕ × A) → Option A
  last_entry k [] = none
  last_entry k ((j, x) ∷ rest) = elim (last_entry k rest) [
    | some y ↦ some y
    | none ↦ if j == k then some x else none
  ]

  -- `BTreeMap::get`
  abbrev pub entry_at : ℕ → List (ℕ × A) → Option A
  entry_at k [] = none
  entry_at k ((j, x) ∷ rest) = let later = entry_at k rest in if j == k then some x else later

  entry_at-insert :
      (k j : ℕ) (x : A) (l : List (ℕ × A))
      → entry_at k (insert j x l) ≡ (if j == k then some x else entry_at k l)
  unfolding insert
  entry_at-insert k j x [] = refl
  entry_at-insert k j x ((i, y) ∷ l) = elim (Bool-cases (ltb j i)) [
    | inl lt ↦ rw lt refl
    | inr ge ↦ elim (Bool-cases (j == i)) [
      | inl eq ↦
          let same : j ≡ i = ==→eq j i eq in
          rw (ge, eq) (ground (arith, Bool-cases (j == k), Bool-cases (i == k)))
      | inr gt ↦
          rw (ge, gt, entry_at-insert k j x l)
            (ground (arith, Bool-cases (j == k), Bool-cases (i == k)))
    ]
  ]

module _ (V : Type 0) ⦃c : Chrono⦄ (parse_offset : String → Option c.Span) (start_at : c.Time) where
  abbrev pub filled :
      List UpdateWave → ℕ → Waves c.Time → Waves c.Time × Outcome (Error V) (Unit {0})
  filled = fill_waves parse_offset start_at

  -- A wave that is accepted: its percentage, offset and date are fine.
  record Accepted (w : UpdateWave) : Type 0 where
    in_percent : percent_ok w ≡ true
    offset : c.Span
    parsed : parse_offset w.start_after ≡ some offset
    date : c.Time
    summed : c.plus start_at offset ≡ some date

  -- The loop stops at a wave, with what it has written, or goes on.
  fill_step :
      (w : UpdateWave) (ws : List UpdateWave) (seed : ℕ) (out : Waves c.Time)
      → ((r : Outcome (Error V) (Unit {0})) × (filled (w ∷ ws) seed out ≡ (out, r)) × (r ≢ ok tt))
        ⊎ ((a : Accepted w) × (filled (w ∷ ws) seed out
              ≡ filled ws (seed_after w.fleet_percentage) (insert seed a.date out)))
  unfolding fill_waves
  fill_step w ws seed out = elim (Bool-cases (percent_ok w)) [
    | inr bad ↦ inl (err (invalid_fleet_percentage w.fleet_percentage), rw bad refl, λ e. cc)
    | inl good ↦ elim (Option-cases (parse_offset w.start_after)) [
      | inr missing ↦ inl (err (bad_offset w.start_after), rw (good, missing) refl, λ e. cc)
      | inl (d, found) ↦ elim (Option-cases (c.plus start_at d)) [
        | inr beyond ↦ inl (panic, rw (good, found, beyond) refl, λ e. cc)
        | inl (u, sum) ↦ inr (
          record { in_percent = good; offset = d; parsed = found; date = u; summed = sum },
          rw (good, found, sum) refl,
        )
      ]
    ]
  ]

  fill_waves-keys :
      (ws : List UpdateWave) (seed : ℕ) (out : Waves c.Time)
      → seed ≤ max_seed
      → IsSeedMap out
      → IsSeedMap (filled ws seed out).0
  fill_waves-keys [] seed out small h = unfold fill_waves in h
  fill_waves-keys (w ∷ ws) seed out small h = elim (fill_step w ws seed out) [
    | inl (r, stopped, _) ↦ rw stopped h
    | inr (a, on) ↦ rw on (
        fill_waves-keys ws (seed_after w.fleet_percentage) (insert seed a.date out)
          (seed_after-le w.fleet_percentage (percent_pos w a.in_percent)
            (percent_le w a.in_percent))
          (record {
            sorted = Sorted-insert seed a.date out h.sorted;
            bounded = All-insert (λ e. e.0 ≤ max_seed) seed a.date out small h.bounded;
          }))
  ]

  -- What the date of a seed is, by the last wave of the file for that seed, if there is one: the
  -- start of the release and the wave's offset.
  abbrev pub Written : Option String → Option c.Time → Option c.Time → Type 0
  Written none before after = after ≡ before
  Written (some start_after) before after =
      (d : c.Span) × (u : c.Time) × (parse_offset start_after ≡ some d)
      × (c.plus start_at d ≡ some u)
      × (after ≡ some u)

  Written-cons :
      (k seed : ℕ) (w : UpdateWave) (rest : List (ℕ × String)) (a : Accepted w) (out : Waves c.Time)
      (after : Option c.Time)
      → Written (last_entry k rest) (entry_at k (insert seed a.date out)) after
      → Written (last_entry k ((seed, w.start_after) ∷ rest)) (entry_at k out) after
  unfolding last_entry
  Written-cons k seed w rest a out after h = elim (Option-cases (last_entry k rest)) [
    | inl (s, later) ↦ rw later (rw later at h)
    | inr nothing ↦
        let e : after ≡ entry_at k (insert seed a.date out) = rw nothing at h in
        let e' = e ∙ entry_at-insert k seed a.date out in
        elim (Bool-cases (seed == k)) [
          | inl here ↦ rw (nothing, here) (a.offset, a.date, a.parsed, a.summed, rw here at e')
          | inr other ↦ rw (nothing, other) (rw other at e')
        ]
  ]

  fill_waves-Written :
      (k : ℕ) (ws : List UpdateWave) (seed : ℕ) (out : Waves c.Time)
      → (filled ws seed out).1 ≡ ok tt
      → Written
          (last_entry k (schedule seed ws))
          (entry_at k out)
          (entry_at k (filled ws seed out).0)
  unfolding schedule
  fill_waves-Written k [] seed out h = unfold fill_waves last_entry in refl
  fill_waves-Written k (w ∷ ws) seed out h = elim (fill_step w ws seed out) [
    | inl (r, stopped, failed) ↦ absurd (failed (rw stopped at h))
    | inr (a, on) ↦ rw on (
        Written-cons k seed w (schedule (w.fleet_percentage * max_seed / 100) ws) a out _ (
          subst
            (λ n.
              Written (last_entry k (schedule n ws)) (entry_at k (insert seed a.date out))
                (entry_at k (filled ws (seed_after w.fleet_percentage) (insert seed a.date out)).0))
            (seed_after-exact w.fleet_percentage (percent_pos w a.in_percent)
              (percent_le w a.in_percent))
            (fill_waves-Written k ws (seed_after w.fleet_percentage) (insert seed a.date out)
              (rw on at h))))
  ]

  -- The waves that a file stands for: in the order of their seeds, none past the largest, and at
  -- each seed the date that the file gives it.
  pub record IsPlan (ws : List UpdateWave) (waves : Waves c.Time) : Type 0 where
    pub seeds : IsSeedMap waves
    pub dates : (k : ℕ) → Written (last_entry k (schedule 0 ws)) none (entry_at k waves)

  -- The dates rise with the seeds.
  abbrev pub Rising : Waves c.Time → Type 0
  Rising [] = Unit
  Rising (w ∷ []) = Unit
  Rising (w ∷ x ∷ rest) = (c.at w.1 < c.at x.1) × Rising (x ∷ rest)

  validate_waves-Rising :
      (waves : Waves c.Time) → validate_waves {V = V} waves ≡ ok tt → Rising waves
  unfolding validate_waves
  validate_waves-Rising [] h = tt
  validate_waves-Rising (w ∷ []) h = tt
  validate_waves-Rising (w ∷ x ∷ rest) h = elim (Bool-cases (c.lt w.1 x.1)) [
    | inl lt ↦ (ground (arith, c.lt_at w.1 x.1), validate_waves-Rising (x ∷ rest) (rw lt at h))
    | inr ge ↦ absurd (ground (arith, ge))
  ]

  validate_updates-Rising :
      (us : List (Update V c.Time)) → validate_updates us ≡ ok tt → All (λ u. Rising u.waves) us
  unfolding validate_updates
  validate_updates-Rising [] h = tt
  validate_updates-Rising (u ∷ us) h = elim (Outcome-cases (validate_waves {V = V} u.waves)) [
    | inl (_, fine) ↦
        (validate_waves-Rising u.waves fine, validate_updates-Rising us (rw fine at h))
    | inr (inl (e, bad)) ↦ absurd (ground (arith, bad))
    | inr (inr bad) ↦ absurd (ground (arith, bad))
  ]

  -- Two lists of updates, before and after: those that are meant have the waves of the file and are
  -- otherwise as they were, the others are as they were, and the number is of those that are meant.
  abbrev pub ArePlanned :
      (Update V c.Time → Type 0)
      → List UpdateWave
      → List (Update V c.Time)
      → List (Update V c.Time)
      → ℕ
      → Type 0
  ArePlanned IsMeant ws [] [] n = n ≡ 0
  ArePlanned IsMeant ws (u ∷ us) (v ∷ vs) n =
      (IsMeant u
        × IsPlan ws v.waves
        × (v ≡ record u { waves = v.waves })
        × (m : ℕ) × (n ≡ suc m)
        × ArePlanned IsMeant ws us vs m)
      ⊎ (¬ IsMeant u × (v ≡ u) × ArePlanned IsMeant ws us vs n)
  ArePlanned IsMeant ws _ _ n = ⊥

  fill_matching-ArePlanned :
      (matches : Update V c.Time → Bool) (IsMeant : Update V c.Time → Type 0)
      (meant : (u : Update V c.Time) → matches u ≡ true → IsMeant u)
      (not_meant : (u : Update V c.Time) → matches u ≡ false → ¬ IsMeant u) (ws : List UpdateWave)
      (us : List (Update V c.Time))
      → (fill_matching parse_offset start_at matches ws us).1 ≡ ok tt
      → ArePlanned IsMeant ws us
          (fill_matching parse_offset start_at matches ws us).0
          (length (filter_by matches us))
  unfolding fill_matching
  fill_matching-ArePlanned matches IsMeant meant not_meant ws [] h = refl
  fill_matching-ArePlanned matches IsMeant meant not_meant ws (u ∷ us) h =
      elim (Bool-cases (matches u)) [
        | inr other ↦ rw other (
            inr (
              not_meant u other,
              refl,
              fill_matching-ArePlanned matches IsMeant meant not_meant ws us (rw other at h),
            ))
        | inl hit ↦ elim (Outcome-cases (filled ws 0 []).1) [
          | inr (inl (e, bad)) ↦ absurd (ground (arith, hit, bad))
          | inr (inr bad) ↦ absurd (ground (arith, hit, bad))
          | inl (_, fine) ↦
              rw (hit, fine)
                (inl (
                  meant u hit,
                  record {
                    seeds =
                        fill_waves-keys ws 0 [] (omega arith)
                          (record { sorted = tt; bounded = tt });
                    dates = λ k. fill_waves-Written k ws 0 [] fine;
                  },
                  refl,
                  length (filter_by matches us),
                  refl,
                  fill_matching-ArePlanned matches IsMeant meant not_meant ws us
                      (rw (hit, fine) at h),
                ))
        ]
      ]

  -- The updates that are not meant stay as they are, whatever the result.
  fill_matching-others :
      (matches : Update V c.Time → Bool)
      → ((u : Update V c.Time) (w : Waves c.Time) → matches (record u { waves = w }) ≡ matches u)
      → (ws : List UpdateWave) (us : List (Update V c.Time))
      → filter_by (λ u. not (matches u)) (fill_matching parse_offset start_at matches ws us).0
        ≡ filter_by (λ u. not (matches u)) us
  unfolding fill_matching
  fill_matching-others matches same ws [] = refl
  fill_matching-others matches same ws (u ∷ us) =
      let later = fill_matching-others matches same ws us in
      elim (Bool-cases (matches u)) [
        | inr other ↦ rw (other, other) (ap (λ l. u ∷ l) later)
        | inl meant ↦ elim (Outcome-cases (filled ws 0 []).1) [
          | inl (_, fine) ↦ rw (meant, fine, same u (filled ws 0 []).0, meant) later
          | inr (inl (e, bad)) ↦ rw (meant, bad, same u (filled ws 0 []).0, meant)
          | inr (inr bad) ↦ rw (meant, bad, same u (filled ws 0 []).0, meant)
        ]
      ]

module _ {V : Type 0} ⦃o : Ord V⦄ ⦃c : Chrono⦄ (parse_offset : String → Option c.Span)
    (variant arch : String) (version : V) (start_at : c.Time) (ws : List UpdateWave)
    (updates : List (Update V c.Time)) where
  abbrev result : List (Update V c.Time) × Outcome (Error V) ℕ
  result = set_waves parse_offset variant arch version start_at ws updates

  -- The update that a release is about.
  abbrev pub IsReleased : Update V c.Time → Type 0
  IsReleased u = (u.arch ≡ arch) × (u.variant ≡ variant) × (u.version ≡ version)

  matches-IsReleased : (u : Update V c.Time) → is_match variant arch version u ≡ true → IsReleased u
  unfolding is_match
  matches-IsReleased u h =
      let (a, h₁) = &&-eq-true _ _ h in
      let (v, n) = &&-eq-true _ _ h₁ in
      (str_same u.arch arch a, str_same u.variant variant v, eqb→eq u.version version n)

  not-IsReleased : (u : Update V c.Time) → is_match variant arch version u ≡ false → ¬ IsReleased u
  unfolding is_match
  not-IsReleased u h (a, v, n) =
      false≢true (
        sym h
        ∙ rw (a, v, n) (rw (str_same_refl arch, str_same_refl variant, eqb_refl version) refl))

  -- Where `set_waves` succeeds, each update of the variant, architecture and version given has the
  -- waves of the file: at seed 0 and then, for each wave but the last, at its percentage of all seeds,
  -- the start of the release and the offset of the wave that starts there, the last such wave's; and
  -- nothing at other seeds. It is otherwise unchanged, and so is every other update; the dates of all
  -- updates rise with the seeds; and the number of the updates that it is about is returned.
  pub set_waves_ok :
      (n : ℕ)
      → result.1 ≡ ok n
      → ArePlanned V parse_offset start_at IsReleased ws updates result.0 n
        × All (λ u. Rising V parse_offset start_at u.waves) result.0
  unfolding set_waves
  set_waves_ok n h =
      let matches = is_match variant arch version in
      let us = (fill_matching parse_offset start_at matches ws updates).0 in
      elim (Outcome-cases (fill_matching parse_offset start_at matches ws updates).1) [
        | inr (inl (e, bad)) ↦ absurd (ground (arith, bad))
        | inr (inr bad) ↦ absurd (ground (arith, bad))
        | inl (_, fine) ↦ elim (Outcome-cases (validate_updates us)) [
          | inr (inl (e, bad)) ↦ absurd (ground (arith, fine, bad))
          | inr (inr bad) ↦ absurd (ground (arith, fine, bad))
          | inl (_, valid) ↦
              let number : length (filter_by matches updates) ≡ n = ground (arith, fine, valid) in
              (
                subst (ArePlanned V parse_offset start_at IsReleased ws updates us) number (
                    fill_matching-ArePlanned V parse_offset start_at matches IsReleased
                      matches-IsReleased not-IsReleased ws updates fine),
                validate_updates-Rising V parse_offset start_at us valid,
              )
        ]
      ]

  -- Whatever the result, the updates of other variants, architectures and versions stay.
  pub set_waves_others :
      filter_by (λ u. not (is_match variant arch version u)) result.0
      ≡ filter_by (λ u. not (is_match variant arch version u)) updates
  unfolding set_waves is_match
  set_waves_others =
      fill_matching-others V parse_offset start_at (is_match variant arch version) (λ u w. refl) ws
        updates
