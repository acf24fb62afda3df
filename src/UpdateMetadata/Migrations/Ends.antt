-- ===== src/UpdateMetadata/Migrations/Ends.antt =====
-- When the search for migrations ends, and how the two directions relate.
use bottlerocket_core_kit.Prelude.{
  ℕ, zero, suc, ◌+◌, ◌≤◌, ◌<◌, ◌≡◌, refl, sym, subst, ◌∙◌, ap, inl, inr, ◌⊎◌, true, Option, none,
  some, List, [], ◌∷◌, ◌++◌, String, arith, first, In, All, Bool-cases, Option-cases, length,
  reverse, if◌then◌else◌,
}
use mathlib.Core.List.{reverse-reverse}
use bottlerocket_core_kit.Prelude.Order.{
  Ord, Ordering-cases, eqb, before, at_most, eqb_refl, before-at_most, before→at_most,
  at_most_trans, at_most_refl,
}
use bottlerocket_core_kit.Prelude.Outcome.{Outcome, ok, err, panic}
use bottlerocket_core_kit.UpdateMetadata.Error.{Error}
use bottlerocket_core_kit.UpdateMetadata.Migrations.{
  Migrations, keys, lookup, names_of, candidates, forward_loop, find_migrations_forward,
  find_migrations, map_ok,
}
use bottlerocket_core_kit.UpdateMetadata.Migrations.Path.{
  Finishes, forward_loop-Finishes, round_on, round_done, round_stuck,
}
use bottlerocket_core_kit.UpdateMetadata.Migrations.Search.{first-candidates}

map_ok-twice :
    {E : Type 0} (r : Option (Outcome E (List String))) → map_ok reverse (map_ok reverse r) ≡ r
map_ok-twice none = refl
map_ok-twice (some (ok names)) = rw reverse-reverse
map_ok-twice (some (err e)) = refl
map_ok-twice (some panic) = refl

module _ {V : Type 0} ⦃o : Ord V⦄ (migrations : Migrations V) where
  -- The transitions that start at a version or after it.
  ahead : V → List (V × V) → ℕ
  ahead v [] = 0
  ahead v (t ∷ rest) = (if at_most v t.0 then 1 else 0) + ahead v rest

  ahead-le : (v w : V) (l : List (V × V)) → at_most v w ≡ true → ahead w l ≤ ahead v l
  unfolding ahead
  ahead-le v w [] h = omega arith
  ahead-le v w (t ∷ l) h = elim (Bool-cases (at_most w t.0)) [
    | inl after ↦ rw (after, at_most_trans v w t.0 h after) (omega (arith, ahead-le v w l h))
    | inr no_more ↦ rw no_more (ground (arith, ahead-le v w l h))
  ]

  ahead-lt :
      (v w : V) (t : V × V) (l : List (V × V))
      → before v w ≡ true
      → In t l
      → t.0 ≡ v
      → ahead w l < ahead v l
  unfolding ahead
  ahead-lt v w t [] h m e = absurd m
  ahead-lt v w t (u ∷ l) h (inl same) e =
      let starts : u.0 ≡ v = sym (ap (λ (x : V × V). x.0) same) ∙ e in
      rw (starts, at_most_refl v, before-at_most v w h)
        (omega (arith, ahead-le v w l (before→at_most v w h)))
  ahead-lt v w t (u ∷ l) h (inr m) e = elim (Bool-cases (at_most w u.0)) [
    | inl after ↦
        rw (after, at_most_trans v w u.0 (before→at_most v w h) after)
          (omega (arith, ahead-lt v w t l h m e))
    | inr no_more ↦ rw no_more (ground (arith, ahead-lt v w t l h m e))
  ]

  ahead-le-length : (v : V) (l : List (V × V)) → ahead v l ≤ length l
  unfolding ahead
  ahead-le-length v [] = omega arith
  ahead-le-length v (t ∷ l) = ground (arith, ahead-le-length v l)

  length-keys : (ms : Migrations V) → length (keys ms) ≡ length ms
  unfolding keys
  length-keys [] = refl
  length-keys ((k, names) ∷ ms) = ap suc (length-keys ms)

  -- Every migration goes to a later version.
  abbrev pub AllForward : Type 0
  AllForward = All (λ t. before t.0 t.1 ≡ true) (keys migrations)

  forward_at :
      (l : List (V × V)) (t : V × V)
      → All (λ t. before t.0 t.1 ≡ true) l
      → In t l
      → before t.0 t.1 ≡ true
  forward_at [] t a m = absurd m
  forward_at (u ∷ l) t a (inl e) = subst (λ (x : V × V). before x.0 x.1 ≡ true) (sym e) a.0
  forward_at (u ∷ l) t a (inr m) = forward_at l t a.1 m

  module _ (to : V) (forward : AllForward) where
    loop_ends :
        (fuel : ℕ) (from : V) (targets : List String)
        → ahead from (keys migrations) < fuel
        → (r : Outcome (Error V) (List String)) × (forward_loop fuel from to migrations targets
            ≡ some r)
    loop_ends zero from targets h = absurd (omega arith)
    loop_ends (suc fuel) from targets h = elim (Bool-cases (eqb from to)) [
      | inl arrived ↦ (ok targets, round_done to migrations fuel from targets arrived)
      | inr going ↦ elim (Option-cases (first (candidates from to migrations))) [
        | inr stuck ↦ (_, round_stuck to migrations fuel from targets going stuck)
        | inl (t, found) ↦
            let top = first-candidates from to migrations t found in
            let starts = top.fitting.from_version in
            let rises : before from t.1 ≡ true =
              subst (λ x. before x t.1 ≡ true) starts
                (forward_at (keys migrations) t forward top.listed) in
            let less = ahead-lt from t.1 t (keys migrations) rises top.listed starts in
            let (r, ended) =
              loop_ends fuel t.1 (targets ++ names_of (lookup t migrations))
                (omega (arith, less)) in
            (r, round_on to migrations fuel from targets t going found ∙ ended)
      ]
    ]

  forward_ends :
      AllForward
      → (fuel : ℕ) → length migrations < fuel
      → (from to : V)
      → (r : Outcome (Error V) (List String)) × (find_migrations_forward fuel from to migrations
          ≡ some r)
  unfolding find_migrations_forward
  forward_ends forward fuel enough from to =
      loop_ends to forward fuel from []
        (omega (arith, ahead-le-length from (keys migrations), length-keys migrations))

  mapped :
      (r : Option (Outcome (Error V) (List String))) (x : Outcome (Error V) (List String))
      → r ≡ some x
      → (y : Outcome (Error V) (List String)) × (map_ok reverse r ≡ some y)
  mapped none x h = cc
  mapped (some (ok names)) x h = (_, refl)
  mapped (some (err e)) x h = (_, refl)
  mapped (some panic) x h = (_, refl)

  module _ (fuel : ℕ) (from to : V) where
    upgrading :
        before from to ≡ true
        → find_migrations fuel from to migrations ≡ find_migrations_forward fuel from to migrations
    unfolding find_migrations
    upgrading h = ground arith

    downgrading :
        before to from ≡ true
        → find_migrations fuel from to migrations
          ≡ map_ok reverse (find_migrations_forward fuel to from migrations)
    unfolding find_migrations
    downgrading h = ground (arith, o.cmp_opposite from to)

    staying : from ≡ to → find_migrations fuel from to migrations ≡ some (ok [])
    unfolding find_migrations
    staying h = ground (arith, eqb_refl from)

    direction : (before from to ≡ true) ⊎ (before to from ≡ true) ⊎ (from ≡ to)
    direction = elim (Ordering-cases (o.cmp from to)) [
      | inl lt ↦ inl (ground arith)
      | inr (inl eq) ↦ inr (inr ((o.cmp_eq from to).0 eq))
      | inr (inr gt) ↦ inr (inl (ground (arith, o.cmp_opposite from to)))
    ]

    -- If every migration of the manifest goes to a later version, the search ends, in either
    -- direction: one round more than there are migrations is enough.
    pub find_migrations_ends :
        AllForward
        → length migrations < fuel
        → (r : Outcome (Error V) (List String)) × (find_migrations fuel from to migrations ≡ some r)
    find_migrations_ends forward enough = elim direction [
      | inl up ↦ let (r, e) = forward_ends forward fuel enough from to in (r, upgrading up ∙ e)
      | inr (inl down) ↦
          let (r, e) = forward_ends forward fuel enough to from in
          let (r', e') = mapped _ r e in (r', downgrading down ∙ e')
      | inr (inr same) ↦ (ok [], staying same)
    ]

    -- Towards a later version, the migrations found lead along a path of the manifest's transitions
    -- from the one version to the other, each the highest that does not go past it; where none is
    -- found, the error names a version on such a path from which no transition leads on.
    pub find_migrations-Finishes :
        (r : Outcome (Error V) (List String))
        → before from to ≡ true
        → find_migrations fuel from to migrations ≡ some r
        → Finishes to migrations from [] r
    find_migrations-Finishes r up h =
        forward_loop-Finishes to migrations fuel from [] r
          (unfold find_migrations_forward in sym (upgrading up) ∙ h)

  -- The way back between two versions is the way there, in the reverse order; an error is the same
  -- in both directions.
  pub find_migrations_back :
      (fuel : ℕ) (from to : V)
      → find_migrations fuel to from migrations
        ≡ map_ok reverse (find_migrations fuel from to migrations)
  find_migrations_back fuel from to = elim (direction fuel from to) [
    | inl up ↦ downgrading fuel to from up ∙ ap (map_ok reverse) (sym (upgrading fuel from to up))
    | inr (inl down) ↦
        upgrading fuel to from down
        ∙ sym (map_ok-twice _)
        ∙ ap (map_ok reverse) (sym (downgrading fuel from to down))
    | inr (inr same) ↦
        staying fuel to from (sym same) ∙ ap (map_ok reverse) (sym (staying fuel from to same))
  ]

  -- Where the highest fitting transition leads back to the version that it starts at, the search
  -- towards a later version never ends, whatever the fuel.
  pub self_loop_never_ends :
      (fuel : ℕ) (from to : V) (t : V × V)
      → before from to ≡ true
      → first (candidates from to migrations) ≡ some t
      → t.1 ≡ from
      → find_migrations fuel from to migrations ≡ none
  self_loop_never_ends fuel from to t up found back =
      upgrading fuel from to up ∙ (unfold find_migrations_forward in spin fuel [])
    where
      spin : (f : ℕ) (targets : List String) → forward_loop f from to migrations targets ≡ none
      spin zero targets = unfold forward_loop in refl
      spin (suc f) targets =
          round_on to migrations f from targets t (ground arith) found
          ∙ subst
              (λ v.
                forward_loop f v to migrations (targets ++ names_of (lookup t migrations)) ≡ none)
              (sym back) (spin f (targets ++ names_of (lookup t migrations)))
