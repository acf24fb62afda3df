-- ===== src/Prelude/Sort.antt =====
-- Sorting by a key, the highest first, as `sort_unstable_by` with a reversed comparison.
use bottlerocket_core_kit.Prelude.Lists.{All, In, filter_by, first}
use bottlerocket_core_kit.Prelude.Tests.{Bool-cases, if◌then◌else◌}
use bottlerocket_core_kit.Prelude.Order.{Ord, at_most, at_most-total, at_most_trans, at_most_refl}
use mathlib.Core.Path.{◌≡◌, refl, sym, ap, subst, ◌∙◌}
use mathlib.Core.Logic.{inl, inr}
use mathlib.Core.Bool.{Bool, true, false≢true}
use mathlib.Core.Option.{some}
use mathlib.Core.List.{List, [], ◌∷◌}

module _ {A : Type 0} (P : A → Type 0) where
  pub All-filter_by :
      (test : A → Bool) (l : List A)
      → ((u : A) → In u l → test u ≡ true → P u)
      → All P (filter_by test l)
  All-filter_by test [] h = tt
  All-filter_by test (t ∷ l) h = elim (Bool-cases (test t)) [
    | inl keep ↦ rw keep (h t (inl refl) keep, All-filter_by test l (λ u m. h u (inr m)))
    | inr skip ↦ rw skip (All-filter_by test l (λ u m. h u (inr m)))
  ]

  pub filter_by-All :
      (test : A → Bool) (l : List A)
      → All P (filter_by test l)
      → (u : A) → In u l
      → test u ≡ true
      → P u
  filter_by-All test [] h u m e = absurd m
  filter_by-All test (t ∷ l) h u m e = elim (Bool-cases (test t)) [
    | inl keep ↦
        let h' : All P (t ∷ filter_by test l) = rw keep at h in
        elim m [
          | inl same ↦ subst P (sym same) h'.0
          | inr later ↦ filter_by-All test l h'.1 u later e
        ]
    | inr skip ↦
        let h' : All P (filter_by test l) = rw skip at h in
        elim m [
          | inl same ↦ absurd (false≢true (sym skip ∙ ap test (sym same) ∙ e))
          | inr later ↦ filter_by-All test l h' u later e
        ]
  ]

  pub first-All : (l : List A) (t : A) → first l ≡ some t → All P l → P t
  first-All [] t h a = cc
  first-All (u ∷ l) t h a = let e : u ≡ t = cc in subst P e a.0

  pub All-In : (l : List A) (u : A) → All P l → In u l → P u
  All-In [] u a m = absurd m
  All-In (t ∷ l) u a (inl e) = subst P (sym e) a.0
  All-In (t ∷ l) u a (inr m) = All-In l u a.1 m

module _ {A V : Type 0} ⦃o : Ord V⦄ (key : A → V) where
  unfoldable pub insert_descending : A → List A → List A
  insert_descending t [] = t ∷ []
  insert_descending t (u ∷ rest) =
      let later = insert_descending t rest in
      if at_most (key u) (key t) then t ∷ u ∷ rest else u ∷ later

  unfoldable pub sort_descending : List A → List A
  unfolding insert_descending
  sort_descending [] = []
  sort_descending (t ∷ rest) = insert_descending t (sort_descending rest)

  module _ (P : A → Type 0) where
    All-insert : (t : A) (l : List A) → P t → All P l → All P (insert_descending t l)
    unfolding insert_descending
    All-insert t [] p h = (p, tt)
    All-insert t (u ∷ l) p h = elim (Bool-cases (at_most (key u) (key t))) [
      | inl above ↦ rw above (p, h)
      | inr below ↦ rw below (h.0, All-insert t l p h.1)
    ]

    -- What holds of all elements holds of all when they are sorted, and the other way round.
    pub All-sort : (l : List A) → All P l → All P (sort_descending l)
    unfolding sort_descending
    All-sort [] h = tt
    All-sort (t ∷ l) h = All-insert t (sort_descending l) h.0 (All-sort l h.1)

    insert-All : (t : A) (l : List A) → All P (insert_descending t l) → P t × All P l
    unfolding insert_descending
    insert-All t [] h = (h.0, tt)
    insert-All t (u ∷ l) h = elim (Bool-cases (at_most (key u) (key t))) [
      | inl above ↦ let h' : All P (t ∷ u ∷ l) = rw above at h in h'
      | inr below ↦
          let h' : All P (u ∷ insert_descending t l) = rw below at h in
          let (p, rest) = insert-All t l h'.1 in (p, (h'.0, rest))
    ]

    pub sort-All : (l : List A) → All P (sort_descending l) → All P l
    unfolding sort_descending
    sort-All [] h = tt
    sort-All (t ∷ l) h = let (p, rest) = insert-All t (sort_descending l) h in (p, sort-All l rest)

  abbrev pub Descending : List A → Type 0
  Descending [] = Unit
  Descending (t ∷ rest) = All (λ u. at_most (key u) (key t) ≡ true) rest × Descending rest

  above-All :
      (t u : A) (l : List A)
      → at_most (key u) (key t) ≡ true
      → All (λ x. at_most (key x) (key u) ≡ true) l
      → All (λ x. at_most (key x) (key t) ≡ true) l
  above-All t u [] h a = tt
  above-All t u (x ∷ l) h a = (at_most_trans (key x) (key u) (key t) a.0 h, above-All t u l h a.1)

  Descending-insert : (t : A) (l : List A) → Descending l → Descending (insert_descending t l)
  unfolding insert_descending
  Descending-insert t [] d = (tt, tt)
  Descending-insert t (u ∷ l) d = elim (Bool-cases (at_most (key u) (key t))) [
    | inl above ↦ rw above ((above, above-All t u l above d.0), d)
    | inr below ↦
        rw below
          (All-insert _ t l (at_most-total (key u) (key t) below) d.0, Descending-insert t l d.1)
  ]

  pub Descending-sort : (l : List A) → Descending (sort_descending l)
  unfolding sort_descending
  Descending-sort [] = tt
  Descending-sort (t ∷ l) = Descending-insert t (sort_descending l) (Descending-sort l)

  -- The first of a sorted list has the highest key.
  pub first-highest :
      (l : List A) (t : A)
      → first l ≡ some t
      → Descending l
      → All (λ u. at_most (key u) (key t) ≡ true) l
  first-highest [] t h d = tt
  first-highest (u ∷ l) t h d =
      let e : u ≡ t = cc in
      subst (λ x. All (λ y. at_most (key y) (key x) ≡ true) (u ∷ l)) e (at_most_refl (key u), d.0)
