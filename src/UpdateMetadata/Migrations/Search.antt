-- ===== src/UpdateMetadata/Migrations/Search.antt =====
-- The first candidate is the one with the highest target.
use bottlerocket_core_kit.Prelude.{
  ◌≡◌, true, ◌&&◌, none, some, List, [], ◌∷◌, filter_by, first, In, All, &&-eq-true,
}
use bottlerocket_core_kit.Prelude.Order.{Ord, eqb, at_most, eqb→eq, eqb_refl}
use bottlerocket_core_kit.Prelude.Sort.{
  All-filter_by, filter_by-All, first-All, All-sort, sort-All, Descending-sort, first-highest,
}
use bottlerocket_core_kit.UpdateMetadata.Migrations.{Migrations, keys, target, candidates}

module _ {V : Type 0} ⦃o : Ord V⦄ where
  -- A transition that the loop may take from a version on the way to a target.
  pub record Fitting (version to : V) (t : V × V) : Type 0 where
    pub from_version : t.0 ≡ version
    pub not_past : at_most t.1 to ≡ true

  fits-Fitting :
      (version to : V) (t : V × V)
      → (eqb t.0 version && at_most t.1 to) ≡ true
      → Fitting version to t
  fits-Fitting version to t h =
      let (p, q) = &&-eq-true (eqb t.0 version) (at_most t.1 to) h in
      record { from_version = eqb→eq t.0 version p; not_past = q }

  Fitting-fits :
      (version to : V) (t : V × V)
      → Fitting version to t
      → (eqb t.0 version && at_most t.1 to) ≡ true
  Fitting-fits version to t f = rw (f.from_version, eqb_refl version) f.not_past

  module _ (version to : V) (migrations : Migrations V) where
    -- The first candidate is a fitting transition of the manifest, and the highest.
    pub record IsHighest (t : V × V) : Type 0 where
      pub listed : In t (keys migrations)
      pub fitting : Fitting version to t
      pub highest :
          (u : V × V) → In u (keys migrations) → Fitting version to u → at_most u.1 t.1 ≡ true

    abbrev matching : List (V × V)
    matching = filter_by (λ t. eqb t.0 version && at_most t.1 to) (keys migrations)

    pub first-candidates :
        (t : V × V) → first (candidates version to migrations) ≡ some t → IsHighest t
    unfolding candidates
    first-candidates t h =
        let kept =
          All-sort target (λ u. In u (keys migrations) × Fitting version to u) matching
            (All-filter_by (λ u. In u (keys migrations) × Fitting version to u) _ (keys migrations)
              (λ u m e. (m, fits-Fitting version to u e))) in
        let (m, f) = first-All (λ u. In u (keys migrations) × Fitting version to u) _ t h kept in
        record {
          listed = m;
          fitting = f;
          highest = λ u um uf.
              filter_by-All _ _ (keys migrations)
                (sort-All target _ matching
                  (first-highest target _ t h (Descending-sort target matching)))
                u um (Fitting-fits version to u uf);
        }

    pub no_candidates :
        first (candidates version to migrations) ≡ none
        → (u : V × V) → In u (keys migrations)
        → ¬ Fitting version to u
    unfolding candidates
    no_candidates h u m f =
        filter_by-All (λ _. ⊥) _ (keys migrations)
          (sort-All target (λ _. ⊥) matching (empty_of _ h)) u m (Fitting-fits version to u f)
      where
        empty_of : (l : List (V × V)) → first l ≡ none → All (λ _. ⊥) l
        empty_of [] e = tt
        empty_of (x ∷ l) e = cc
