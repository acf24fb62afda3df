-- ===== src/Whippet/Policy/Priorities.antt =====
-- The priorities that `set_rule_priorities` of policy.rs gives: those of the users' rules lie above
-- those of the default rules, and no sum leaves 64 bits.
use bottlerocket_core_kit.Prelude.{
  ℕ, ◌+◌, ◌*◌, ◌^◌, ◌≤◌, ◌<◌, ◌≡◌, refl, ◌∙◌, Option, none, some, List, [], ◌∷◌, arith, length, All,
}
use bottlerocket_core_kit.Prelude.Text.{Text}
use bottlerocket_core_kit.Prelude.HashMap.{HashMap, or_new}
use bottlerocket_core_kit.Whippet.Rule.{
  add_u64, default_policy_context_multiplier, default_policy_context_user, priority_base, Rule,
  connect_user, own, send, receive, Context, Policy, no_rules, set_priority, get_priority,
}
use bottlerocket_core_kit.Whippet.Policy.{
  priority_at, number_rules, number_contexts, number_users, number_default, set_rule_priorities,
}

-- The rules of all contexts.
unfoldable pub user_rule_count : HashMap Text Context → ℕ
user_rule_count [] = 0
user_rule_count ((_, c) ∷ rest) = length c.rules + user_rule_count rest

unfoldable pub rule_count : Policy → ℕ
unfolding user_rule_count
rule_count p = user_rule_count (or_new [] p.user) + length (or_new no_rules p.default).rules

-- The priorities lie between two bounds, both included.
abbrev pub Within : ℕ → ℕ → List Rule → Type 0
Within low high rules = All (λ r. (low ≤ get_priority r) × (get_priority r ≤ high)) rules

abbrev pub UsersWithin : ℕ → ℕ → HashMap Text Context → Type 0
UsersWithin low high users = All (λ entry. Within low high entry.1.rules) users

pub priority_at_default :
    (c : ℕ)
    → c ≤ priority_base
    → priority_at default_policy_context_multiplier c ≡ priority_base + c
unfolding priority_base
priority_at_default c h = omega arith

priority_at_user :
    (c : ℕ) → c ≤ priority_base → priority_at default_policy_context_user c ≡ priority_base * 3 + c
unfolding priority_base
priority_at_user c h = omega arith

get_priority-set_priority : (n : ℕ) (r : Rule) → get_priority (set_priority n r) ≡ n
unfolding get_priority set_priority
get_priority-set_priority n (connect_user _ _ _) = refl
get_priority-set_priority n (own _ _ _) = refl
get_priority-set_priority n (send _ _ _ _ _ _ _ _) = refl
get_priority-set_priority n (receive _ _ _ _ _ _ _ _) = refl

pub counter_next : (c : ℕ) → c ≤ priority_base → add_u64 c 1 ≡ c + 1
unfolding priority_base
counter_next c h = omega arith

-- The counter after the rules of a context.
pub number_rules-counter :
    (multiplier c : ℕ) (rules : List Rule)
    → c + length rules ≤ priority_base
    → (number_rules multiplier c rules).1 ≡ c + length rules
unfolding number_rules
number_rules-counter multiplier c [] h = omega arith
number_rules-counter multiplier c (r ∷ rules) h =
    let next = counter_next c (omega arith) in
    rw next (number_rules-counter multiplier (c + 1) rules (omega arith) ∙ omega arith)

-- `sum` says that no sum overflows.
module _ (multiplier base : ℕ)
    (sum : (c : ℕ) → c ≤ priority_base → priority_at multiplier c ≡ base + c) where
  -- The rules of a context lie in the band of its kind.
  pub number_rules-Within :
      (high c : ℕ) (rules : List Rule)
      → base + priority_base ≡ high
      → c + length rules ≤ priority_base
      → Within base high (number_rules multiplier c rules).0
  unfolding number_rules
  number_rules-Within high c [] e h = tt
  number_rules-Within high c (r ∷ rules) e h =
      let next : add_u64 c 1 ≡ c + 1 = counter_next c (omega arith) in
      let given = get_priority-set_priority (priority_at multiplier c) r ∙ sum c (omega arith) in
      (
        rw given (omega arith, omega arith),
        rw next (number_rules-Within high (c + 1) rules e (omega arith)),
      )

pub number_contexts-Within :
    (c : ℕ) (users : HashMap Text Context)
    → c + user_rule_count users ≤ priority_base
    → UsersWithin (priority_base * 3) (priority_base * 4) (number_contexts c users).0
      × ((number_contexts c users).1 ≡ c + user_rule_count users)
unfolding number_contexts user_rule_count
number_contexts-Within c [] h = (tt, omega arith)
number_contexts-Within c ((u, policy) ∷ users) h =
    let counter = number_rules-counter default_policy_context_user c policy.rules (omega arith) in
    let here =
      number_rules-Within default_policy_context_user (priority_base * 3) priority_at_user
        (priority_base * 4) c policy.rules (omega arith) (omega arith) in
    let (within, last) = number_contexts-Within (c + length policy.rules) users (omega arith) in
    ((here, rw counter within), rw counter (last ∙ omega arith))

number_users-Within :
    (c : ℕ) (user : Option (HashMap Text Context))
    → c + user_rule_count (or_new [] user) ≤ priority_base
    → UsersWithin (priority_base * 3) (priority_base * 4) (or_new [] (number_users c user).0)
      × ((number_users c user).1 ≡ c + user_rule_count (or_new [] user))
unfolding number_users user_rule_count
number_users-Within c none h = (tt, omega arith)
number_users-Within c (some users) h = number_contexts-Within c users h

pub number_users-counter :
    (c : ℕ) (user : Option (HashMap Text Context))
    → c + user_rule_count (or_new [] user) ≤ priority_base
    → (number_users c user).1 ≡ c + user_rule_count (or_new [] user)
number_users-counter c user h = (number_users-Within c user h).1

number_default-Within :
    (c : ℕ) (default : Option Context)
    → c + length (or_new no_rules default).rules ≤ priority_base
    → Within priority_base (priority_base * 2) (or_new no_rules (number_default c default).0).rules
      × ((number_default c default).1 ≡ c + length (or_new no_rules default).rules)
unfolding number_default
number_default-Within c none h = (tt, omega arith)
number_default-Within c (some policy) h = (
  number_rules-Within default_policy_context_multiplier priority_base priority_at_default
      (priority_base * 2) c policy.rules (omega arith) h,
  number_rules-counter default_policy_context_multiplier c policy.rules h,
)

four_bases : priority_base * 4 < 2 ^ 64
unfolding priority_base
four_bases = omega arith

-- Loading a policy while the counter has room for its rules, no sum overflows: the counter goes
-- up by the number of rules, the priorities of the users' rules lie in the band from 3 to 4 times
-- the base and those of the default rules in the band from 1 to 2 times the base, so each rule of a
-- user outranks each default one.
pub set_rule_priorities-bands :
    (p : Policy) (c : ℕ)
    → c + rule_count p ≤ priority_base
    → UsersWithin
        (priority_base * 3)
        (priority_base * 4)
        (or_new [] (set_rule_priorities p c).0.user)
      × Within priority_base
          (priority_base * 2)
          (or_new no_rules (set_rule_priorities p c).0.default).rules
      × ((set_rule_priorities p c).1 ≡ c + rule_count p)
      × (priority_base * 4 < 2 ^ 64)
unfolding set_rule_priorities rule_count
set_rule_priorities-bands p c h =
    let users = number_users-Within c p.user (omega arith) in
    let room : c + user_rule_count (or_new [] p.user) + length (or_new no_rules p.default).rules
        ≤ priority_base =
      omega arith in
    let default = number_default-Within (c + user_rule_count (or_new [] p.user)) p.default room in
    (users.0, rw users.1 default.0, rw users.1 (default.1 ∙ omega arith), four_bases)
