-- ===== src/UpdateMetadata/Wave/Position.antt =====
-- Where in a wave a host's turn comes.
use bottlerocket_core_kit.Prelude.{
  ℕ, ◌+◌, ◌-◌, ◌*◌, ◌≤◌, ◌<◌, ◌≡◌, refl, subst, ◌∙◌, inl, inr, Bool, true, false, Option, none,
  some, [], ◌∷◌, ◌⊎◌, ◌==◌, if◌then◌else◌, In, All, arith, Bool-cases,
}
use native.Mathlib.Nat.{mul-le-mul_right}
use bottlerocket_core_kit.Prelude.Outcome.{Outcome, ok}
use bottlerocket_core_kit.UpdateMetadata.Chrono.{Chrono}
use bottlerocket_core_kit.UpdateMetadata.Wave.{
  max_seed, Wave, initial, general, last, Waves, update_wave, seeds_between, has_passed,
  has_started, position_passed, wave_ready, update_ready,
}
use bottlerocket_core_kit.UpdateMetadata.Wave.Lookup.{Sorted, Fits, update_wave-Fits}

-- A step of nearly a wave's length over its seeds, taken more often than the wave has seeds, is
-- past the wave.
overshoot : (q n d seed : ℕ) → (2 * n + 2) * n ≤ d → d < (q + 2) * n → n < seed → d ≤ q * seed
overshoot q n d seed long near past = elim (side q (2 * n)) [
  | inl small ↦ absurd (omega (arith, narrow small))
  | inr wide ↦ omega (arith, wider)
]
  where
    side : (a b : ℕ) → (a ≤ b) ⊎ (b < a)
    side a b = grind arith

    narrow : q ≤ 2 * n → (q + 2) * n ≤ (2 * n + 2) * n
    narrow h = mul-le-mul_right n (omega (arith, h))

    wider : q * (n + 1) ≤ q * seed
    wider = grind arith

factor_le : (q n : ℕ) → 0 < n → q ≤ q * n
factor_le q n h = grind arith

module _ ⦃c : Chrono⦄ (waves : Waves c.Time) (seed : ℕ) where
  over_all :
      (l : Waves c.Time) (t : c.Time) (e : ℕ × c.Time)
      → All (λ e. c.at e.1 ≤ c.at t) l
      → In e l
      → c.le e.1 t ≡ true
  over_all [] t e h m = absurd m
  over_all (x ∷ l) t e h (inl q) = rw q (ground (arith, c.le_at x.1 t, h.0))
  over_all (x ∷ l) t e h (inr m) = over_all l t e h.1 m

  passed_ready {ℓ} :
      {E : Type ℓ} (w : Option (Wave c.Time)) (t : c.Time)
      → Fits waves seed w
      → All (λ e. c.at e.1 ≤ c.at t) waves
      → wave_ready {E = E} w seed t ≡ ok true
  unfolding wave_ready has_passed
  passed_ready none t fits over = refl
  passed_ready (some (initial et e)) t fits over = rw (over_all waves t (e, et) over fits.0) refl
  passed_ready (some (general st et s e)) t (_, ending, _, _, _, _) over =
      rw (over_all waves t (e, et) over ending) refl
  passed_ready (some (last st s)) t fits over = rw (over_all waves t (s, st) over fits.0) refl

  module _ {E : Type 0} (st et t : c.Time) (s e : ℕ) where
    abbrev position : Outcome E Bool
    position = position_passed (general st et s e) seed t

    -- Between its ends a wave hands the update out by position; before the start no host has it, and
    -- from the end on every host has it.
    general_ready :
        wave_ready {E = E} (some (general st et s e)) seed t
        ≡ (if c.le et t then ok true else if c.le st t then position else ok false)
    unfolding wave_ready has_passed has_started
    general_ready = refl

    -- The target time of a host whose seed is larger than the number of seeds of its wave is past
    -- the wave's end, if the wave is long enough for the rounding not to matter.
    position_past_end :
        seed ≤ max_seed
        → s < e
        → e ≤ max_seed
        → seeds_between e s < seed
        → c.at st ≤ c.at et
        → (2 * seeds_between e s + 2) * seeds_between e s ≤ c.at et - c.at st
        → c.at st + (c.at et - c.at st) * seed ≤ c.latest
        → c.le et t ≡ false
        → position ≡ ok false
    unfolding position_passed
    position_past_end small below bound past le long within early =
        let n = seeds_between e s in
        let (forward, span) = c.minus_at et st le in
        let some_seeds : 0 < n = omega arith in
        let (forward', low, near) =
          c.div_nanos (c.minus et st) n some_seeds (omega arith) forward in
        let q = c.nanos (c.div (c.minus et st) n) in
        let short : q * seed ≤ (c.at et - c.at st) * seed =
          mul-le-mul_right seed (omega (arith, factor_le q n some_seeds, low, span)) in
        let in_range : q ≤ c.latest =
          omega (arith, factor_le q seed (omega arith), short, within) in
        let (forward'', product) =
          c.mul_nanos (c.div (c.minus et st) n) seed small forward' in_range in
        let (target, sum, target_at) =
          c.plus_within st (c.mul (c.div (c.minus et st) n) seed) forward''
            (omega (arith, short, product, within)) in
        let beyond = overshoot q n (c.at et - c.at st) seed long (omega arith) past in
        let waiting : c.le target t ≡ false =
          ground (arith, c.le_at et t, c.le_at target t, target_at, product, beyond) in
        let some_wave : (n == 0) ≡ false = ground arith in rw (some_wave, sum, waiting) refl

    late_only :
        seed ≤ max_seed
        → s < e
        → e ≤ max_seed
        → seeds_between e s < seed
        → c.at st ≤ c.at et
        → (2 * seeds_between e s + 2) * seeds_between e s ≤ c.at et - c.at st
        → c.at st + (c.at et - c.at st) * seed ≤ c.latest
        → wave_ready {E = E} (some (general st et s e)) seed t ≡ ok (c.le et t)
    late_only small below bound past le long within =
        general_ready ∙ (elim (Bool-cases (c.le et t)) [
          | inl passed ↦ rw passed refl
          | inr early ↦ elim (Bool-cases (c.le st t)) [
            | inr unstarted ↦ rw (early, unstarted) refl
            | inl started ↦
                rw (early, started) (position_past_end small below bound past le long within early)
          ]
        ])

  module _ {E : Type 0} where
    ready_of_wave :
        (w : Option (Wave c.Time)) (t : c.Time)
        → update_wave {E = E} waves seed ≡ ok w
        → update_ready {E = E} waves seed t ≡ wave_ready w seed t
    unfolding update_ready
    ready_of_wave w t h = rw h refl

    -- A host in a general wave that does not end before it starts has no update before the start.
    pub not_before_start :
        (st et t : c.Time) (s e : ℕ)
        → update_wave {E = E} waves seed ≡ ok (some (general st et s e))
        → c.at st ≤ c.at et
        → c.at t < c.at st
        → update_ready {E = E} waves seed t ≡ ok false
    not_before_start st et t s e h le early =
        let unpassed : c.le et t ≡ false = ground (arith, c.le_at et t) in
        let unstarted : c.le st t ≡ false = ground (arith, c.le_at st t) in
        ready_of_wave _ t h ∙ general_ready st et t s e ∙ rw (unpassed, unstarted) refl

    -- A host in a general wave that starts at a seed not below the number of the wave's seeds has the
    -- update from the wave's end on and not before: its target time is counted from seed 0, not from
    -- the wave's first seed. The wave lasts long enough, twice the square of that number and twice the
    -- number in nanoseconds, and as many lengths of the wave as the host's seed, from the wave's
    -- start, end in chrono's range.
    pub waits_for_whole_wave :
        (st et t : c.Time) (s e : ℕ)
        → Sorted waves
        → seed ≤ max_seed
        → update_wave {E = E} waves seed ≡ ok (some (general st et s e))
        → c.at st ≤ c.at et
        → e - s ≤ s
        → (2 * (e - s) + 2) * (e - s) ≤ c.at et - c.at st
        → c.at st + (c.at et - c.at st) * seed ≤ c.latest
        → update_ready {E = E} waves seed t ≡ ok (c.le et t)
    waits_for_whole_wave st et t s e sorted small h le late long within =
        let (w, found, fits) = update_wave-Fits {E = E} waves seed sorted small in
        let same : w ≡ some (general st et s e) = ground arith in
        let (_, _, past, upto, bound, _) = subst (Fits waves seed) same fits in
        let n_eq : seeds_between e s ≡ e - s = omega arith in
        ready_of_wave _ t h
        ∙ late_only st et t s e small (omega arith) bound (omega arith) le (rw n_eq long) within

    -- From the last of the waves' dates on, a host with a seed up to the largest has the update,
    -- whatever wave it falls in, and nothing panics.
    pub ready_at_last :
        (t : c.Time)
        → Sorted waves
        → seed ≤ max_seed
        → All (λ e. c.at e.1 ≤ c.at t) waves
        → update_ready {E = E} waves seed t ≡ ok true
    ready_at_last t sorted small over =
        let (w, found, fits) = update_wave-Fits {E = E} waves seed sorted small in
        ready_of_wave w t found ∙ passed_ready w t fits over

module _ ⦃c : Chrono⦄ (waves : Waves c.Time) (seed : ℕ) (t : c.Time) where
  first_wave_ready {ℓ} :
      {E : Type ℓ} (w : Option (Wave c.Time))
      → Fits waves seed w
      → ((d : ℕ × c.Time) → In d waves → seed ≤ d.0)
      → wave_ready {E = E} w seed t ≡ ok true
  unfolding wave_ready has_started position_passed
  first_wave_ready none fits h = refl
  first_wave_ready (some (initial et e)) fits h = ground arith
  first_wave_ready (some (general st et s e)) (listed, _, past, _, _, _) h =
      absurd (omega (arith, h (s, st) listed))
  first_wave_ready (some (last st s)) (listed, past, _) h = absurd (omega (arith, h (s, st) listed))

  -- A seed, up to the largest, that is not past any key of a sorted map of waves has the update at
  -- any time, before the first wave too.
  pub first_seeds_ready :
      {E : Type 0}
      → Sorted waves
      → seed ≤ max_seed
      → ((d : ℕ × c.Time) → In d waves → seed ≤ d.0)
      → update_ready {E = E} waves seed t ≡ ok true
  first_seeds_ready {E} sorted small h =
      let (w, found, fits) = update_wave-Fits {E = E} waves seed sorted small in
      ready_of_wave waves seed w t found ∙ first_wave_ready w fits h
