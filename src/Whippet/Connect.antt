-- ===== src/Whippet/Connect.antt =====
-- `prepare` and `optimize` of sources/whippet/src/policy.rs, which move the connect rules to the
-- contexts of their users and leave at most one to each context.
pub mod Threshold
pub mod Winner
pub mod Moved
pub mod Users
use bottlerocket_core_kit.Prelude.{
  ℕ, Bool, true, false, not, ◌&&◌, ◌||◌, Option, none, some, List, [], ◌∷◌, ◌++◌, map,
  if◌then◌else◌, filter_by, first, ltb, ◌==◌,
}
use bottlerocket_core_kit.Prelude.Text.{Text, text_eq, is_empty}
use bottlerocket_core_kit.Prelude.HashMap.{HashMap, text_key, or_new, update_entry}
use bottlerocket_core_kit.Prelude.Order.{nat_ord}
use bottlerocket_core_kit.Prelude.Sort.{sort_descending}
use bottlerocket_core_kit.Prelude.Decimal.{to_decimal}
use bottlerocket_core_kit.Whippet.Rule.{
  default_user_id, Rule, connect_user, Context, Policy, no_rules, get_priority, is_connect,
}
use bottlerocket_core_kit.Whippet.Policy.{extend}

-- Connect rules that are not for the default user leave the default context.
unfoldable pub is_extracted : Rule → Bool
unfolding to_decimal
is_extracted (connect_user _ user _) = not (text_eq user (to_decimal default_user_id))
is_extracted _ = false

-- The loop that pops the extracted rules, the last first, and pushes each to its user's context.
unfoldable pub push_popped : List Rule → HashMap Text Context → HashMap Text Context
unfolding update_entry
push_popped [] user_policy = user_policy
push_popped (connect_user allow user priority ∷ rules) user_policy =
    update_entry (extend (connect_user allow user priority ∷ [])) no_rules user
      (push_popped rules user_policy)
push_popped (_ ∷ rules) user_policy = push_popped rules user_policy

abbrev pub rules_of : Option Context → List Rule
rules_of none = []
rules_of (some c) = c.rules

abbrev pub keep_rules : (List Rule → List Rule) → Option Context → Option Context
keep_rules change none = none
keep_rules change (some c) = some (record { rules = change c.rules })

unfoldable pub prepare : Policy → Policy
unfolding is_extracted push_popped
prepare p =
    let connect_rules = filter_by is_extracted (rules_of p.default) in
    let kept = keep_rules (filter_by (λ rule. not (is_extracted rule))) p.default in
    if is_empty connect_rules
    then record { default = kept; user = p.user }
    else record { default = kept; user = some (push_popped connect_rules (or_new [] p.user)) }

abbrev pub priority_or_zero : Option Rule → ℕ
priority_or_zero none = 0
priority_or_zero (some rule) = get_priority rule

unfoldable pub find_priority_threshold : List Rule → ℕ
unfolding is_connect get_priority sort_descending
find_priority_threshold rules =
    priority_or_zero (first (sort_descending get_priority (filter_by is_connect rules)))

unfoldable pub clean_connect_rules : ℕ → List Rule → List Rule
unfolding is_connect get_priority
clean_connect_rules priority_threshold rules =
    filter_by (λ r. not (is_connect r) || get_priority r == priority_threshold) rules

abbrev pub threshold_of : Option Context → ℕ
threshold_of none = 0
threshold_of (some c) = find_priority_threshold c.rules

-- What `optimize` does to the rules of one user.
unfoldable pub clean_user : ℕ → List Rule → List Rule
unfolding find_priority_threshold clean_connect_rules
clean_user priority_threshold rules =
    let own = find_priority_threshold rules in
    clean_connect_rules (if ltb own priority_threshold then priority_threshold else own) rules

-- The contexts that are left without rules are removed.
unfoldable pub clean_users : ℕ → HashMap Text Context → HashMap Text Context
unfolding clean_user
clean_users priority_threshold [] = []
clean_users priority_threshold ((user, policy) ∷ rest) =
    let later = clean_users priority_threshold rest in
    let rules = clean_user priority_threshold policy.rules in
    if is_empty rules then later else (user, record { rules = rules }) ∷ later

abbrev pub map_users :
    (HashMap Text Context → HashMap Text Context)
    → Option (HashMap Text Context)
    → Option (HashMap Text Context)
map_users change none = none
map_users change (some users) = some (change users)

unfoldable pub optimize : Policy → Policy
unfolding find_priority_threshold clean_connect_rules clean_users
optimize p =
    let priority_threshold = threshold_of p.default in
    record {
      default = keep_rules (clean_connect_rules priority_threshold) p.default;
      user = map_users (clean_users priority_threshold) p.user;
    }
