-- ===== src/UpdateMetadata/Wave/Lookup.antt =====
-- Which wave a seed falls in: the entries of the map on both sides of it.
use bottlerocket_core_kit.Prelude.{
  ℕ, ◌≤◌, ◌<◌, ◌≡◌, refl, ◌⊎◌, inl, inr, Option, none, some, [], ◌∷◌, leb, ◌&&◌, In, All, arith,
  Option-cases, Bool-cases,
}
use bottlerocket_core_kit.Prelude.Outcome.{ok}
use bottlerocket_core_kit.UpdateMetadata.Wave.{
  max_seed, Wave, initial, general, last, Waves, start_wave, end_wave, wave_between, update_wave,
}

side : (a b : ℕ) → (a < b) ⊎ (b ≤ a)
side a b = grind arith

module _ {Time : Type 0} where
  -- The keys rise, as in a `BTreeMap`.
  abbrev pub Sorted : Waves Time → Type 0
  Sorted [] = Unit
  Sorted ((k, v) ∷ rest) = All (λ e. k < e.0) rest × Sorted rest

  start_wave-lt :
      (waves : Waves Time) (seed : ℕ) (e : ℕ × Time)
      → start_wave waves seed ≡ some e
      → In e waves × (e.0 < seed)
  unfolding start_wave
  start_wave-lt [] seed e h = cc
  start_wave-lt ((k, v) ∷ rest) seed e h = elim (Option-cases (start_wave rest seed)) [
    | inl (f, found) ↦
        let (listed, below) = start_wave-lt rest seed f found in ground (arith, found)
    | inr nothing ↦ ground (arith, nothing)
  ]

  end_wave-le :
      (waves : Waves Time) (seed : ℕ) (e : ℕ × Time)
      → end_wave waves seed ≡ some e
      → In e waves × (seed ≤ e.0) × (e.0 ≤ max_seed)
  unfolding end_wave
  end_wave-le [] seed e h = cc
  end_wave-le ((k, v) ∷ rest) seed e h = elim (Bool-cases (leb seed k && leb k max_seed)) [
    | inl here ↦ ground arith
    | inr later ↦
        let found : end_wave rest seed ≡ some e = ground arith in
        let (listed, above, below) = end_wave-le rest seed e found in (inr listed, above, below)
  ]

  start_wave-none :
      (waves : Waves Time) (seed : ℕ) (d : ℕ × Time)
      → start_wave waves seed ≡ none
      → In d waves
      → seed ≤ d.0
  unfolding start_wave
  start_wave-none [] seed d h m = absurd m
  start_wave-none ((k, v) ∷ rest) seed d h m = elim (Option-cases (start_wave rest seed)) [
    | inl (f, found) ↦ absurd (ground (arith, found))
    | inr nothing ↦ elim m [
      | inl p ↦ ground (arith, nothing)
      | inr m' ↦ start_wave-none rest seed d nothing m'
    ]
  ]

  All-In : (n : ℕ) (xs : Waves Time) (e : ℕ × Time) → All (λ x. n < x.0) xs → In e xs → n < e.0
  All-In n [] e h m = absurd m
  All-In n (x ∷ xs) e h (inl q) = ground (arith, h.0)
  All-In n (x ∷ xs) e h (inr m) = All-In n xs e h.1 m

  start_wave-max :
      (waves : Waves Time) (seed : ℕ) (d e : ℕ × Time)
      → Sorted waves
      → start_wave waves seed ≡ some e
      → In d waves
      → d.0 < seed
      → d.0 ≤ e.0
  unfolding start_wave
  start_wave-max [] seed d e s h m lt = absurd m
  start_wave-max ((k, v) ∷ rest) seed d e s h m lt = elim (Option-cases (start_wave rest seed)) [
    | inl (f, found) ↦ elim m [
      | inl p ↦
          let (listed, _) = start_wave-lt rest seed f found in
          ground (arith, found, All-In k rest f s.0 listed)
      | inr m' ↦ ground (arith, found, start_wave-max rest seed d f s.1 found m' lt)
    ]
    | inr nothing ↦ elim m [
      | inl p ↦ ground (arith, nothing)
      | inr m' ↦ absurd (omega (arith, start_wave-none rest seed d nothing m'))
    ]
  ]

  end_wave-none :
      (waves : Waves Time) (seed : ℕ) (d : ℕ × Time)
      → end_wave waves seed ≡ none
      → In d waves
      → seed ≤ d.0
      → max_seed < d.0
  unfolding end_wave
  end_wave-none [] seed d h m le = absurd m
  end_wave-none ((k, v) ∷ rest) seed d h (inl p) le = ground arith
  end_wave-none ((k, v) ∷ rest) seed d h (inr m) le = end_wave-none rest seed d (ground arith) m le

  end_wave-min :
      (waves : Waves Time) (seed : ℕ) (d e : ℕ × Time)
      → Sorted waves
      → end_wave waves seed ≡ some e
      → In d waves
      → seed ≤ d.0
      → e.0 ≤ d.0
  unfolding end_wave
  end_wave-min [] seed d e s h m le = absurd m
  end_wave-min ((k, v) ∷ rest) seed d e s h m le =
      elim (Bool-cases (leb seed k && leb k max_seed)) [
        | inl here ↦ elim m [
          | inl p ↦ ground arith
          | inr m' ↦ ground (arith, All-In k rest d s.0 m')
        ]
        | inr later ↦
            let found : end_wave rest seed ≡ some e = ground arith in
            let (_, _, bound) = end_wave-le rest seed e found in
            elim m [
              | inl p ↦ ground (arith, bound)
              | inr m' ↦ end_wave-min rest seed d e s.1 found m' le
            ]
      ]

  -- What it means for a seed to fall in a wave: the wave's ends are entries of the map, the seed is
  -- past the first and not past the second, and no entry lies between them.
  abbrev pub Fits : Waves Time → ℕ → Option (Wave Time) → Type 0
  Fits waves seed none = (d : ℕ × Time) → In d waves → max_seed < d.0
  Fits waves seed (some (initial et e)) =
      In (e, et) waves × (seed ≤ e) × (e ≤ max_seed) × ((d : ℕ × Time) → In d waves → e ≤ d.0)
  Fits waves seed (some (general st et s e)) =
      In (s, st) waves
      × In (e, et) waves
      × (s < seed)
      × (seed ≤ e)
      × (e ≤ max_seed)
      × ((d : ℕ × Time) → In d waves → (d.0 ≤ s) ⊎ (e ≤ d.0))
  Fits waves seed (some (last st s)) =
      In (s, st) waves × (s < seed) × ((d : ℕ × Time) → In d waves → (d.0 ≤ s) ⊎ (max_seed < d.0))

  wave_between-Fits :
      (waves : Waves Time) (seed : ℕ)
      → Sorted waves
      → seed ≤ max_seed
      → (a b : Option (ℕ × Time)) → start_wave waves seed ≡ a
      → end_wave waves seed ≡ b
      → Fits waves seed (wave_between a b)
  unfolding wave_between
  wave_between-Fits waves seed s le none none p q =
      λ d m. end_wave-none waves seed d q m (start_wave-none waves seed d p m)
  wave_between-Fits waves seed s le none (some e) p q =
      let (listed, above, below) = end_wave-le waves seed e q in
      (
        listed,
        above,
        below,
        λ d m. end_wave-min waves seed d e s q m (start_wave-none waves seed d p m),
      )
  wave_between-Fits waves seed s le (some a) none p q =
      let (listed, past) = start_wave-lt waves seed a p in
      (
        listed,
        past,
        λ d m. elim (side d.0 seed) [
          | inl lt ↦ inl (start_wave-max waves seed d a s p m lt)
          | inr ge ↦ inr (end_wave-none waves seed d q m ge)
        ],
      )
  wave_between-Fits waves seed s le (some a) (some e) p q =
      let (listed, past) = start_wave-lt waves seed a p in
      let (listed', above, below) = end_wave-le waves seed e q in
      (
        listed,
        listed',
        past,
        above,
        below,
        λ d m. elim (side d.0 seed) [
          | inl lt ↦ inl (start_wave-max waves seed d a s p m lt)
          | inr ge ↦ inr (end_wave-min waves seed d e s q m ge)
        ],
      )

  -- For every seed up to the largest and every sorted map of waves, `update_wave` returns the wave
  -- that the seed falls in, and none only where every entry of the map is past the largest seed. A
  -- seed that is the key of an entry falls in the wave that ends there, not in the one that starts.
  pub update_wave-Fits {ℓ} :
      {E : Type ℓ} (waves : Waves Time) (seed : ℕ)
      → Sorted waves
      → seed ≤ max_seed
      → (w : Option (Wave Time)) × (update_wave {E = E} waves seed ≡ ok w) × Fits waves seed w
  unfolding update_wave
  update_wave-Fits waves seed s le = (
    wave_between (start_wave waves seed) (end_wave waves seed),
    ground arith,
    wave_between-Fits waves seed s le _ _ refl refl,
  )
