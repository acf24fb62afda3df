-- ===== src/UpdateMetadata/Migrations/Path.antt =====
-- What the migrations found are: a path of transitions, each the highest that fits.
use bottlerocket_core_kit.Prelude.{
  ℕ, zero, suc, ◌≡◌, ◌≢◌, false≢true, refl, sym, subst, ◌∙◌, ap, inl, inr, true, false, none, some,
  List, [], ◌++◌, String, arith, first, In, Bool-cases, Option-cases,
}
use mathlib.Core.List.{append_assoc, append-nil}
use bottlerocket_core_kit.Prelude.Order.{Ord, eqb, eqb→eq, eqb_refl}
use bottlerocket_core_kit.Prelude.Outcome.{Outcome, ok, err, panic}
use bottlerocket_core_kit.UpdateMetadata.Error.{
  Error, waves_unordered, invalid_fleet_percentage, bad_offset, missing_migration,
}
use bottlerocket_core_kit.UpdateMetadata.Migrations.{
  Migrations, keys, lookup, names_of, candidates, forward_loop,
}
use bottlerocket_core_kit.UpdateMetadata.Migrations.Search.{
  Fitting, IsHighest, first-candidates, no_candidates,
}

module _ {V : Type 0} ⦃o : Ord V⦄ (to : V) (migrations : Migrations V) where
  -- From one version to another on the way to `to`, with the names of the migrations to run.
  pub data Leads : V → V → List String → Type 0 where
    here : (v : V) → Leads v v []
    via :
        (t : V × V) {v w : V} {names : List String}
        → IsHighest v to migrations t
        → Leads t.1 w names
        → t.0 ≡ v
        → Leads v w (names_of (lookup t migrations) ++ names)

  -- What a finished loop says: the names run along a path to the target, or the path ends at a
  -- version with no way on.
  abbrev pub Finishes : V → List String → Outcome (Error V) (List String) → Type 0
  Finishes from targets (ok all) =
      (names : List String) × (all ≡ targets ++ names) × Leads from to names
  Finishes from targets (err (missing_migration current target)) =
      (names : List String) × Leads from current names
      × (target ≡ to)
      × (current ≢ to)
      × ((u : V × V) → In u (keys migrations) → ¬ Fitting current to u)
  Finishes from targets _ = ⊥

  -- The three ways that a round goes.
  module _ (fuel : ℕ) (from : V) (targets : List String) where
    pub round_done :
        eqb from to ≡ true → forward_loop (suc fuel) from to migrations targets ≡ some (ok targets)
    unfolding forward_loop
    round_done h = ground arith

    pub round_stuck :
        eqb from to ≡ false
        → first (candidates from to migrations) ≡ none
        → forward_loop (suc fuel) from to migrations targets
          ≡ some (err (missing_migration from to))
    unfolding forward_loop
    round_stuck h k = ground arith

    pub round_on :
        (t : V × V)
        → eqb from to ≡ false
        → first (candidates from to migrations) ≡ some t
        → forward_loop (suc fuel) from to migrations targets
          ≡ forward_loop fuel t.1 to migrations (targets ++ names_of (lookup t migrations))
    unfolding forward_loop
    round_on t h k = ground arith

  extend :
      (from : V) (targets : List String) (t : V × V)
      → IsHighest from to migrations t
      → (r : Outcome (Error V) (List String))
      → Finishes t.1 (targets ++ names_of (lookup t migrations)) r
      → Finishes from targets r
  extend from targets t top (ok all) (names, e, path) = (
    names_of (lookup t migrations) ++ names,
    e ∙ append_assoc targets (names_of (lookup t migrations)) names,
    via t top path top.fitting.from_version,
  )
  extend from targets t top (err (missing_migration current target)) (names, path, e, ne, stuck) = (
    names_of (lookup t migrations) ++ names,
    via t top path top.fitting.from_version,
    e,
    ne,
    stuck,
  )
  extend from targets t top (err (waves_unordered)) h = h
  extend from targets t top (err (invalid_fleet_percentage _)) h = h
  extend from targets t top (err (bad_offset _)) h = h
  extend from targets t top panic h = h

  pub forward_loop-Finishes :
      (fuel : ℕ) (from : V) (targets : List String) (r : Outcome (Error V) (List String))
      → forward_loop fuel from to migrations targets ≡ some r
      → Finishes from targets r
  forward_loop-Finishes zero from targets r h = absurd (unfold forward_loop in ground arith)
  forward_loop-Finishes (suc fuel) from targets r h = elim (Bool-cases (eqb from to)) [
    | inl arrived ↦
        let e : ok targets ≡ r = cc (round_done fuel from targets arrived) in
        let done : Finishes from targets (ok targets) = (
          [],
          sym (append-nil targets),
          subst (λ v. Leads from v []) (eqb→eq from to arrived) (here from),
        ) in
        subst (Finishes from targets) e done
    | inr going ↦ elim (Option-cases (first (candidates from to migrations))) [
      | inr stuck ↦
          let e : err (missing_migration from to) ≡ r =
            cc (round_stuck fuel from targets going stuck) in
          let ended : Finishes from targets (err (missing_migration from to)) = (
            [],
            here from,
            refl,
            (λ same. false≢true (sym going ∙ ap (eqb from) (sym same) ∙ eqb_refl from)),
            no_candidates from to migrations stuck,
          ) in
          subst (Finishes from targets) e ended
      | inl (t, found) ↦ extend from targets t (first-candidates from to migrations t found) r (
          forward_loop-Finishes fuel t.1 (targets ++ names_of (lookup t migrations)) r
            (sym (round_on fuel from targets t going found) ∙ h))
    ]
  ]
