-- ===== src/Whippet/Policy/Merges.antt =====
-- `load_one_policy` of policy.rs: what the files add up to, in the order in which they are read.
use bottlerocket_core_kit.Prelude.{
  ℕ, suc, ◌+◌, ◌≤◌, ◌<◌, ◌≡◌, refl, ◌∙◌, ap, Bool-cases, inl, inr, Option, none, some, List, [],
  ◌∷◌, ◌++◌, arith, length, length-append,
}
use bottlerocket_core_kit.Prelude.Text.{Text, text_eq}
use bottlerocket_core_kit.Prelude.HashMap.{HashMap, text_key, or_new, update_entry}
use bottlerocket_core_kit.Whippet.Rule.{
  add_u64, default_policy_context_multiplier, default_policy_context_user, priority_base, Rule,
  connect_user, own, send, receive, Context, Policy, no_rules, set_priority,
}
use bottlerocket_core_kit.Whippet.Policy.{
  number_rules, number_contexts, number_users, number_default, set_rule_priorities, extend,
  merge_users, merge_policy, first_priority,
}
use bottlerocket_core_kit.Whippet.Policy.Priorities.{
  user_rule_count, rule_count, counter_next, priority_at_default, set_rule_priorities-bands,
  number_users-counter,
}
use bottlerocket_core_kit.Whippet.Connect.Winner.{Rising}

count-update_entry :
    (more : List Rule) (u : Text) (m : HashMap Text Context)
    → user_rule_count (update_entry (extend more) no_rules u m) ≡ user_rule_count m + length more
unfolding user_rule_count update_entry
count-update_entry more u [] = omega arith
count-update_entry more u ((j, c) ∷ m) = elim (Bool-cases (text_eq j u)) [
  | inl hit ↦ rw hit (omega (arith, length-append c.rules more))
  | inr miss ↦ rw miss (omega (arith, count-update_entry more u m))
]

count-merge_users :
    (base more : HashMap Text Context)
    → user_rule_count (merge_users base more) ≡ user_rule_count base + user_rule_count more
unfolding user_rule_count merge_users
count-merge_users base [] = omega arith
count-merge_users base ((u, c) ∷ more) =
    let entry = update_entry (extend c.rules) no_rules u base in
    omega (arith, count-merge_users entry more, count-update_entry c.rules u base)

pub count-merge_policy :
    (base p : Policy) → rule_count (merge_policy base p) ≡ rule_count base + rule_count p
unfolding rule_count merge_policy
count-merge_policy base p =
    let users = count-merge_users (or_new [] base.user) (or_new [] p.user) in
    let rules =
      length-append (or_new no_rules base.default).rules (or_new no_rules p.default).rules in
    omega (arith, users, rules)

length-number_rules :
    (multiplier c : ℕ) (rules : List Rule)
    → length (number_rules multiplier c rules).0 ≡ length rules
unfolding number_rules
length-number_rules multiplier c [] = refl
length-number_rules multiplier c (r ∷ rules) =
    ap suc (length-number_rules multiplier (add_u64 c 1) rules)

count-number_contexts :
    (c : ℕ) (m : HashMap Text Context) → user_rule_count (number_contexts c m).0 ≡ user_rule_count m
unfolding number_contexts user_rule_count
count-number_contexts c [] = refl
count-number_contexts c ((u, policy) ∷ m) =
    let (rules, next) = number_rules default_policy_context_user c policy.rules in
    omega (
      arith,
      length-number_rules default_policy_context_user c policy.rules,
      count-number_contexts (number_rules default_policy_context_user c policy.rules).1 m,
    )

count-number_users :
    (c : ℕ) (user : Option (HashMap Text Context))
    → user_rule_count (or_new [] (number_users c user).0) ≡ user_rule_count (or_new [] user)
unfolding number_users
count-number_users c none = refl
count-number_users c (some m) = count-number_contexts c m

count-number_default :
    (c : ℕ) (default : Option Context)
    → length (or_new no_rules (number_default c default).0).rules
      ≡ length (or_new no_rules default).rules
unfolding number_default
count-number_default c none = refl
count-number_default c (some policy) =
    length-number_rules default_policy_context_multiplier c policy.rules

pub count-set_rule_priorities :
    (p : Policy) (c : ℕ) → rule_count (set_rule_priorities p c).0 ≡ rule_count p
unfolding set_rule_priorities rule_count
count-set_rule_priorities p c =
    omega
      (arith, count-number_users c p.user, count-number_default (number_users c p.user).1 p.default)

-- The connect rules have rising priorities above `low`, and all below `high`.
abbrev pub RisingTo : ℕ → ℕ → List Rule → Type 0
RisingTo low high [] = low < high
RisingTo low high (connect_user _ _ p ∷ rules) = (low < p) × RisingTo p high rules
RisingTo low high (_ ∷ rules) = RisingTo low high rules

pub RisingTo→Rising :
    (low high : ℕ) (rules : List Rule) → RisingTo low high rules → Rising low rules
RisingTo→Rising low high [] h = tt
RisingTo→Rising low high (connect_user _ _ p ∷ rules) (above, h) =
    (above, RisingTo→Rising p high rules h)
RisingTo→Rising low high (own _ _ _ ∷ rules) h = RisingTo→Rising low high rules h
RisingTo→Rising low high (send _ _ _ _ _ _ _ _ ∷ rules) h = RisingTo→Rising low high rules h
RisingTo→Rising low high (receive _ _ _ _ _ _ _ _ ∷ rules) h = RisingTo→Rising low high rules h

RisingTo-append :
    (low middle high : ℕ) (xs ys : List Rule)
    → RisingTo low middle xs
    → ((start : ℕ) → start < middle → RisingTo start high ys)
    → RisingTo low high (xs ++ ys)
RisingTo-append low middle high [] ys h k = k low h
RisingTo-append low middle high (connect_user _ _ p ∷ xs) ys (above, h) k =
    (above, RisingTo-append p middle high xs ys h k)
RisingTo-append low middle high (own _ _ _ ∷ xs) ys h k = RisingTo-append low middle high xs ys h k
RisingTo-append low middle high (send _ _ _ _ _ _ _ _ ∷ xs) ys h k =
    RisingTo-append low middle high xs ys h k
RisingTo-append low middle high (receive _ _ _ _ _ _ _ _ ∷ xs) ys h k =
    RisingTo-append low middle high xs ys h k

next_rule :
    (low c : ℕ) (rules : List Rule)
    → c ≤ priority_base
    → RisingTo low
        (priority_base + (c + 1 + length rules))
        (number_rules default_policy_context_multiplier (c + 1) rules).0
    → RisingTo low
        (priority_base + (c + suc (length rules)))
        (number_rules default_policy_context_multiplier (add_u64 c 1) rules).0
next_rule low c rules room h =
    let sum : c + suc (length rules) ≡ c + 1 + length rules = omega arith in
    rw (counter_next c room, sum) h

number_rules-RisingTo :
    (low c : ℕ) (rules : List Rule)
    → low < priority_base + c
    → c + length rules ≤ priority_base
    → RisingTo low
        (priority_base + (c + length rules))
        (number_rules default_policy_context_multiplier c rules).0
unfolding number_rules set_priority
number_rules-RisingTo low c [] above h = omega arith
number_rules-RisingTo low c (connect_user a u p ∷ rules) above h =
    let given = priority_at_default c (omega arith) in
    (
      rw given above,
      rw given (
          next_rule (priority_base + c) c rules (omega arith)
            (number_rules-RisingTo (priority_base + c) (c + 1) rules (omega arith) (omega arith))),
    )
number_rules-RisingTo low c (own n a p ∷ rules) above h =
    next_rule low c rules (omega arith)
      (number_rules-RisingTo low (c + 1) rules (omega arith) (omega arith))
number_rules-RisingTo low c (send d i m t p b a q ∷ rules) above h =
    next_rule low c rules (omega arith)
      (number_rules-RisingTo low (c + 1) rules (omega arith) (omega arith))
number_rules-RisingTo low c (receive s p i m t b a q ∷ rules) above h =
    next_rule low c rules (omega arith)
      (number_rules-RisingTo low (c + 1) rules (omega arith) (omega arith))

-- The default rules of a policy, the one that is loaded and those that were loaded before.
abbrev pub default_rules : Policy → List Rule
default_rules p = (or_new no_rules p.default).rules

number_default-RisingTo :
    (low c : ℕ) (default : Option Context)
    → low < priority_base + c
    → c + length (or_new no_rules default).rules ≤ priority_base
    → RisingTo low
        (priority_base + (c + length (or_new no_rules default).rules))
        (or_new no_rules (number_default c default).0).rules
unfolding number_default
number_default-RisingTo low c none above h = omega arith
number_default-RisingTo low c (some policy) above h =
    number_rules-RisingTo low c policy.rules above h

set_rule_priorities-RisingTo :
    (p : Policy) (low c : ℕ)
    → low < priority_base + c
    → c + rule_count p ≤ priority_base
    → RisingTo low (priority_base + (c + rule_count p)) (default_rules (set_rule_priorities p c).0)
unfolding set_rule_priorities rule_count
set_rule_priorities-RisingTo p low c above h =
    let counter = number_users-counter c p.user (omega arith) in
    let sum : c + (user_rule_count (or_new [] p.user) + length (default_rules p))
        ≡ c + user_rule_count (or_new [] p.user) + length (default_rules p) =
      omega arith in
    rw (counter, sum)
      (number_default-RisingTo low (c + user_rule_count (or_new [] p.user)) p.default (omega arith)
        (omega arith))

-- What `load_policies` keeps: the counter tells how many rules there are, and the connect rules
-- of the default context have rising priorities.
abbrev pub Counted : Policy → ℕ → Type 0
Counted p c = (c ≡ first_priority + rule_count p) × RisingTo 0 (priority_base + c) (default_rules p)

pub merge_policy-Counted :
    (base p : Policy) (c : ℕ)
    → Counted base c
    → c + rule_count p ≤ priority_base
    → Counted (merge_policy base (set_rule_priorities p c).0) (set_rule_priorities p c).1
unfolding merge_policy
merge_policy-Counted base p c (counted, rising) h =
    let numbered = (set_rule_priorities p c).0 in
    let last = (set_rule_priorities-bands p c h).2 in
    (
      last ∙ omega (arith, count-merge_policy base numbered, count-set_rule_priorities p c),
      rw last (
          RisingTo-append 0 (priority_base + c) (priority_base + (c + rule_count p))
            (default_rules base) (default_rules numbered) rising
            (λ start above. set_rule_priorities-RisingTo p start c above h)),
    )
