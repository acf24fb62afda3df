-- ===== src/Whippet/Examples.antt =====
-- A policy with a rule for all users and one for user 1, and the theorems about it.
use bottlerocket_core_kit.Prelude.{
  ℕ, ◌+◌, ◌*◌, ◌^◌, ◌≤◌, ◌<◌, ◌≡◌, refl, ◌∙◌, sym, subst, true, false, none, some, List, [], ◌∷◌,
  ◌++◌, arith, if◌then◌else◌,
}
use bottlerocket_core_kit.Prelude.Text.{Text, text_eq}
use bottlerocket_core_kit.Prelude.HashMap.{HashMap, text_key, get, put, or_new, update_entry}
use bottlerocket_core_kit.Prelude.Outcome.{Outcome, ok}
use bottlerocket_core_kit.Prelude.Decimal.{max_u32, to_decimal, digits, parse_u32, parse_digits}
use bottlerocket_core_kit.Whippet.Rule.{
  priority_base, invalid, Rule, connect_user, own, send, Context, Policy, Error, no_rules, wildcard,
  is_connect,
}
use bottlerocket_core_kit.Whippet.Policy.{
  Files, set_rule_priorities, policy_paths, load_policies, empty_policy, first_priority, new_policy,
  replace_uids,
}
use bottlerocket_core_kit.Whippet.Policy.Priorities.{
  rule_count, user_rule_count, UsersWithin, Within, set_rule_priorities-bands,
}
use bottlerocket_core_kit.Whippet.Policy.Resolved.{new_policy-IsLoaded}
use bottlerocket_core_kit.Whippet.Connect.{prepare, optimize, rules_of}
use bottlerocket_core_kit.Whippet.Connect.Moved.{winner}
use bottlerocket_core_kit.Whippet.DbusPolicy.{DbusPolicy, try_from}
use bottlerocket_core_kit.Whippet.DbusPolicy.Left.{IsLoaded}
use bottlerocket_core_kit.Whippet.DbusPolicy.Effective.{connection_of, try_from-winner}
use bottlerocket_core_kit.Whippet.DbusPolicy.Delivered.{
  rules_for, followed_by, all_gathered, try_from-rules,
}
use bottlerocket_core_kit.Whippet.Users.{
  Lookup, found, passwd_resolver, resolve_name, user_id, with_cache, IsCached, IsSmall,
  passwd-IsBounded, resolve_name-user_id,
}
use bottlerocket_core_kit.Whippet.Users.Replaced.{last_context, replace_uids-last}

abbrev everyone : Text
everyone = to_decimal max_u32

abbrev user_one : Text
user_one = to_decimal 1

-- All users are refused, then user 1 is let in; anyone may own any name.
abbrev default_rules : List Rule
default_rules =
    connect_user false everyone 3 ∷ connect_user true user_one 4 ∷ own wildcard true 5 ∷ []

abbrev sender : Rule
sender = send [] (97 ∷ []) [] invalid [] 0 true 6

abbrev one_user : HashMap Text Context
one_user = (user_one, record { rules = sender ∷ [] }) ∷ []

loaded : IsLoaded default_rules one_user
unfolding get is_connect
loaded = record {
  rising = (omega arith, (omega arith, tt));
  named = ((max_u32, omega arith, refl), ((1, omega arith, refl), tt));
  distinct = (refl, tt);
  uids = ((1, omega arith, refl), tt);
  quiet = (refl, tt);
}

abbrev loaded_policy : Policy
loaded_policy = record { default = some (record { rules = default_rules }); user = some one_user }

try_from-winner_example :
    (d : DbusPolicy) × (try_from (optimize (prepare loaded_policy)) ≡ ok d)
    × (connection_of 1 d ≡ or_new (false, 0) (winner user_one default_rules))
try_from-winner_example = try_from-winner default_rules (some one_user) 1 loaded (omega arith)

try_from-rules_example :
    (d : DbusPolicy) × (try_from (optimize (prepare loaded_policy)) ≡ ok d)
    × (rules_for 1 d
        ≡ followed_by
            (all_gathered (rules_of (get user_one one_user)))
            (all_gathered default_rules))
try_from-rules_example = try_from-rules default_rules (some one_user) 1 loaded (omega arith)

few : first_priority + rule_count loaded_policy ≤ priority_base
unfolding rule_count user_rule_count priority_base
few = omega arith

set_rule_priorities-bands_example :
    UsersWithin
      (priority_base * 3)
      (priority_base * 4)
      (or_new [] (set_rule_priorities loaded_policy 3).0.user)
    × Within priority_base
        (priority_base * 2)
        (or_new no_rules (set_rule_priorities loaded_policy 3).0.default).rules
    × ((set_rule_priorities loaded_policy 3).1 ≡ 3 + rule_count loaded_policy)
    × (priority_base * 4 < 2 ^ 64)
set_rule_priorities-bands_example = set_rule_priorities-bands loaded_policy 3 few

-- User 1 is called by its name too.
abbrev from_name : Text → Lookup
from_name n = found 1

abbrev name_one : Text
name_one = 111 ∷ 110 ∷ 101 ∷ []

nothing-IsCached : IsCached from_name []
unfolding get
nothing-IsCached name uid h = cc

resolve_name-user_id_example :
    (cache : HashMap Text ℕ) × IsCached from_name cache
    × (resolve_name from_name [] name_one ≡ with_cache cache (user_id from_name name_one))
resolve_name-user_id_example = resolve_name-user_id from_name [] name_one nothing-IsCached

abbrev first_context : Context
first_context = record { rules = sender ∷ [] }

abbrev second_context : Context
second_context = record { rules = own wildcard true 7 ∷ [] }

-- The one user by name and by number.
abbrev twice_named : Policy
twice_named = record {
  default = some (record { rules = connect_user true wildcard 3 ∷ [] });
  user = some ((name_one, first_context) ∷ (user_one, second_context) ∷ []);
}

abbrev once_named : Policy
once_named = record {
  default = some (record { rules = connect_user true everyone 3 ∷ [] });
  user = some ((user_one, second_context) ∷ []);
}

once_resolved :
    replace_uids (passwd_resolver from_name) [] twice_named ≡ ok (once_named, (name_one, 1) ∷ [])
unfolding replace_uids resolve_name parse_u32 parse_digits get put to_decimal digits
once_resolved = refl

ids_small : (name : Text) (uid : ℕ) → from_name name ≡ found uid → uid < 2 ^ 32
ids_small name uid h = let same : 1 ≡ uid = cc in omega arith

replace_uids-last_example :
    get (to_decimal 1) (or_new [] once_named.user)
    ≡ last_context from_name 1 (or_new [] twice_named.user)
replace_uids-last_example =
    replace_uids-last from_name ids_small 1 (omega arith) [] ((name_one, 1) ∷ []) twice_named
      once_named nothing-IsCached once_resolved

abbrev main_policy : Policy
main_policy = record {
  default = some (record { rules = connect_user true wildcard 0 ∷ own wildcard true 0 ∷ [] });
  user = some ((name_one, record { rules = sender ∷ [] }) ∷ []);
}

abbrev dropin_policy : Policy
dropin_policy = record {
  default = some (record { rules = connect_user false name_one 0 ∷ [] });
  user = none;
}

abbrev main_file : Text
main_file = 109 ∷ []

-- One drop-in with the ending toml, and a file that is passed over.
abbrev files : Files
files = record {
  read_to_string = λ path. some path;
  from_str = λ content. if text_eq content main_file then some main_policy else some dropin_policy;
  read_dir = λ dir. some (some (97 ∷ 46 ∷ 116 ∷ 111 ∷ 109 ∷ 108 ∷ []) ∷ some (98 ∷ []) ∷ []);
}

abbrev join_path : Text → Text → Text
join_path dir name = dir ++ (47 ∷ name)

abbrev all_paths : List Text
all_paths = main_file ∷ (47 ∷ 97 ∷ 46 ∷ 116 ∷ 111 ∷ 109 ∷ 108 ∷ []) ∷ []

paths_found : policy_paths files join_path main_file [] ≡ ok all_paths
unfolding policy_paths
paths_found = refl

-- What the two files add up to.
abbrev sum_policy : Policy
sum_policy = record {
  default = some (record {
    rules =
        connect_user true wildcard (priority_base + 4)
        ∷ own wildcard true (priority_base + 5)
        ∷ connect_user false name_one (priority_base + 6)
        ∷ [];
  });
  user = some (
      (
        name_one,
        record { rules = send [] (97 ∷ []) [] invalid [] 0 true (priority_base * 3 + 3) ∷ [] },
      )
      ∷ []);
}

summed : load_policies files all_paths empty_policy first_priority ≡ ok (sum_policy, 7)
unfolding load_policies update_entry priority_base
summed = refl

small_sum : first_priority + rule_count sum_policy ≤ priority_base
unfolding rule_count user_rule_count priority_base
small_sum = omega arith

same_policy :
    (p q : Policy) (m n : ℕ) → ◌≡◌ {A = Outcome Error (Policy × ℕ)} (ok (p, m)) (ok (q, n)) → p ≡ q
same_policy p q m n h = cc

few_rules :
    (paths : List Text) (whole : Policy) (last : ℕ)
    → policy_paths files join_path main_file [] ≡ ok paths
    → load_policies files paths empty_policy first_priority ≡ ok (whole, last)
    → first_priority + rule_count whole ≤ priority_base
few_rules paths whole last paths_are read =
    let both : ok all_paths ≡ ok paths = sym paths_found ∙ paths_are in
    let same : all_paths ≡ paths = cc in
    let read' =
      subst (λ x. load_policies files x empty_policy first_priority ≡ ok (whole, last)) (sym same)
        read in
    let whole_is = same_policy sum_policy whole 7 last (sym summed ∙ read') in
    subst (λ p. first_priority + rule_count p ≤ priority_base) whole_is small_sum

abbrev resolved_rules : List Rule
resolved_rules =
    connect_user true everyone (priority_base + 4)
    ∷ own wildcard true (priority_base + 5)
    ∷ connect_user false user_one (priority_base + 6)
    ∷ []

abbrev resolved_policy : Policy
resolved_policy = record {
  default = some (record { rules = resolved_rules });
  user = some (
      (
        user_one,
        record { rules = send [] (97 ∷ []) [] invalid [] 0 true (priority_base * 3 + 3) ∷ [] },
      )
      ∷ []);
}

made_new :
    new_policy files (passwd_resolver from_name) join_path main_file [] []
    ≡ ok (resolved_policy, (name_one, 1) ∷ [])
unfolding new_policy resolve_name parse_u32 update_entry priority_base get put to_decimal digits
    is_connect parse_digits
made_new = refl

nothing-IsSmall : IsSmall []
unfolding get
nothing-IsSmall name uid h = cc

new_policy-IsLoaded_example :
    (rules : List Rule) × (users : HashMap Text Context) × (resolved_policy
      ≡ record { default = some (record { rules = rules }); user = some users })
    × IsLoaded rules users
new_policy-IsLoaded_example =
    new_policy-IsLoaded files (passwd_resolver from_name) IsSmall
      (passwd-IsBounded from_name ids_small) join_path main_file [] [] ((name_one, 1) ∷ [])
      resolved_policy few_rules nothing-IsSmall made_new
