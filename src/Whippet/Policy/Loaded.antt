-- ===== src/Whippet/Policy/Loaded.antt =====
-- The policy that the files of `Policy::new` of policy.rs add up to.
use bottlerocket_core_kit.Prelude.{
  ℕ, ◌+◌, ◌≤◌, ◌≡◌, refl, ◌∙◌, ap, subst, some, List, [], ◌∷◌, arith,
}
use bottlerocket_core_kit.Prelude.Text.{Text}
use bottlerocket_core_kit.Prelude.HashMap.{text_key}
use bottlerocket_core_kit.Prelude.Outcome.{ok, >>=-eq-ok, context}
use bottlerocket_core_kit.Whippet.Rule.{priority_base, Context, Policy, read_path, policy_parse}
use bottlerocket_core_kit.Whippet.Policy.{
  set_rule_priorities, merge_policy, Files, load_one_policy, load_policies, first_priority,
  empty_policy,
}
use bottlerocket_core_kit.Whippet.Policy.Priorities.{rule_count, user_rule_count}
use bottlerocket_core_kit.Whippet.Policy.Merges.{
  Counted, merge_policy-Counted, count-merge_policy, count-set_rule_priorities,
}

abbrev pub HasDefault : Policy → Type 0
HasDefault p = (c : Context) × (p.default ≡ some c)

module _ (files : Files) where
  -- What reading one file does to the policy.
  load_one-inv :
      (path : Text) (p : Policy) (c : ℕ) {next : Policy × ℕ}
      → load_one_policy files path p c ≡ ok next
      → (q : Policy) × (next
          ≡ (merge_policy p (set_rule_priorities q c).0, (set_rule_priorities q c).1))
  unfolding load_one_policy
  load_one-inv path p c h =
      let (content, _, h1) = >>=-eq-ok (context (read_path path) (files.read_to_string path)) _ h in
      let (q, _, h2) = >>=-eq-ok (context policy_parse (files.from_str content)) _ h1 in (q, cc)

  -- The first of the files adds its rules, and the others go on from there.
  load_first-inv :
      (path : Text) (paths : List Text) (p : Policy) (c : ℕ) {result : Policy × ℕ}
      → load_policies files (path ∷ paths) p c ≡ ok result
      → (q : Policy) × (load_policies files paths
            (merge_policy p (set_rule_priorities q c).0)
            (set_rule_priorities q c).1
          ≡ ok result)
  unfolding load_policies
  load_first-inv path paths p c {result} h =
      let (next, one, rest) = >>=-eq-ok (load_one_policy files path p c) _ h in
      let (q, e) = load_one-inv path p c one in
      (q, subst (λ x. load_policies files paths x.0 x.1 ≡ ok result) e rest)

  count_added :
      (p q : Policy) (c : ℕ)
      → rule_count (merge_policy p (set_rule_priorities q c).0) ≡ rule_count p + rule_count q
  count_added p q c =
      count-merge_policy p (set_rule_priorities q c).0
      ∙ ap (λ k. rule_count p + k) (count-set_rule_priorities q c)

  load_nothing-inv :
      (p final : Policy) (c last : ℕ)
      → load_policies files [] p c ≡ ok (final, last)
      → (p ≡ final) × (c ≡ last)
  unfolding load_policies
  load_nothing-inv p final c last h = (cc, cc)

  count_grows :
      (paths : List Text) (p : Policy) (c : ℕ) (final : Policy) (last : ℕ)
      → load_policies files paths p c ≡ ok (final, last)
      → rule_count p ≤ rule_count final
  count_grows [] p c final last h =
      let same = ap rule_count (load_nothing-inv p final c last h).0 in omega arith
  count_grows (path ∷ paths) p c final last h =
      let (q, rest) = load_first-inv path paths p c h in
      let numbered = set_rule_priorities q c in
      let more = count_grows paths (merge_policy p numbered.0) numbered.1 final last rest in
      omega (arith, more, count_added p q c)

  -- While the files hold fewer rules than the base of the priorities, the loaded policy is counted.
  pub load_policies-Counted :
      (paths : List Text) (p : Policy) (c : ℕ) (final : Policy) (last : ℕ)
      → Counted p c
      → load_policies files paths p c ≡ ok (final, last)
      → first_priority + rule_count final ≤ priority_base
      → Counted final last
  load_policies-Counted [] p c final last h e room =
      let (same, counter) = load_nothing-inv p final c last e in
      subst (λ x. Counted x last) same (subst (λ k. Counted p k) counter h)
  load_policies-Counted (path ∷ paths) p c final last h e room =
      let (q, rest) = load_first-inv path paths p c e in
      let numbered = set_rule_priorities q c in
      let merged = merge_policy p numbered.0 in
      let more = count_grows paths merged numbered.1 final last rest in
      let fits : c + rule_count q ≤ priority_base = omega (arith, count_added p q c, h.0) in
      load_policies-Counted paths merged numbered.1 final last (merge_policy-Counted p q c h fits)
        rest room

  merge-HasDefault : (p q : Policy) → HasDefault (merge_policy p q)
  unfolding merge_policy
  merge-HasDefault p q = (_, refl)

  load_policies-HasDefault :
      (paths : List Text) (p : Policy) (c : ℕ) (final : Policy) (last : ℕ)
      → HasDefault p
      → load_policies files paths p c ≡ ok (final, last)
      → HasDefault final
  load_policies-HasDefault [] p c final last h e =
      subst HasDefault (load_nothing-inv p final c last e).0 h
  load_policies-HasDefault (path ∷ paths) p c final last h e =
      let (q, rest) = load_first-inv path paths p c e in
      let numbered = set_rule_priorities q c in
      load_policies-HasDefault paths (merge_policy p numbered.0) numbered.1 final last
        (merge-HasDefault p numbered.0) rest

  pub load-HasDefault :
      (path : Text) (paths : List Text) (p : Policy) (c : ℕ) (final : Policy) (last : ℕ)
      → load_policies files (path ∷ paths) p c ≡ ok (final, last)
      → HasDefault final
  load-HasDefault path paths p c final last e =
      let (q, rest) = load_first-inv path paths p c e in
      let numbered = set_rule_priorities q c in
      load_policies-HasDefault paths (merge_policy p numbered.0) numbered.1 final last
        (merge-HasDefault p numbered.0) rest

pub empty-Counted : Counted empty_policy first_priority
unfolding rule_count user_rule_count
empty-Counted = (refl, omega arith)
