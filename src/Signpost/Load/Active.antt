-- ===== src/Signpost/Load/Active.antt =====
-- Which of two loaded sets is active.
use bottlerocket_core_kit.Prelude.{
  ℕ, ◌≡◌, subst, inl, inr, true, Option, none, some, List, [], ◌∷◌, String, arith, Bool-cases,
}
use bottlerocket_core_kit.Prelude.Outcome.{Outcome, ok, >>=-eq-ok}
use bottlerocket_core_kit.Signpost.Error.{Error}
use bottlerocket_core_kit.Signpost.Load.{load_set, select_active, load_sets, push_found}
use bottlerocket_core_kit.Signpost.Set.{PartitionSet, set_a, set_b, contains}
use bottlerocket_core_kit.Signpost.State.{DualPartitionSet, dual, nth_set}

select_active-contains :
    (x y : PartitionSet) (partition : String) (d : DualPartitionSet)
    → select_active x y partition ≡ ok (dual d)
    → contains (nth_set d d.active) partition ≡ true
unfolding select_active
select_active-contains x y partition d h = elim (Bool-cases (contains x partition)) [
  | inl first ↦
      let e : record { first_set = x; second_set = y; active = set_a } ≡ d =
        ground (arith, first) in
      subst (λ (z : DualPartitionSet). contains (nth_set z z.active) partition ≡ true) e first
  | inr absent ↦ elim (Bool-cases (contains y partition)) [
    | inl second ↦
        let e : record { first_set = x; second_set = y; active = set_b } ≡ d =
          ground (arith, absent, second) in
        subst (λ (z : DualPartitionSet). contains (nth_set z z.active) partition ≡ true) e second
    | inr neither ↦ absurd (ground (arith, absent, neither))
  ]
]

-- The set that is active contains the partition that the system runs from.
pub load_sets-contains :
    (device : ℕ → Outcome Error String) (entries : List (ℕ × List ℕ)) (active : String) (a : ℕ)
    (more : Option ℕ) (d : DualPartitionSet)
    → load_sets device entries active (push_found (a ∷ []) more) ≡ ok (dual d)
    → contains (nth_set d d.active) active ≡ true
unfolding load_sets
load_sets-contains device entries active a none d h = absurd (ground arith)
load_sets-contains device entries active a (some b) d h =
    let (x, _, h₁) = >>=-eq-ok (load_set device entries a 0) _ h in
    let (y, _, h₂) = >>=-eq-ok (load_set device entries b 1) _ h₁ in
    select_active-contains x y active d h₂
