-- ===== src/Whippet/Policy.antt =====
-- `Policy::new` of sources/whippet/src/policy.rs: the files in their order, the priorities of the
-- rules, the check of the users' contexts, and the user IDs.
pub mod Loaded
pub mod Resolved
pub mod Priorities
pub mod Merges
use bottlerocket_core_kit.Prelude.{
  ℕ, ◌*◌, ◌^◌, ◌%◌, ◌≡◌, Bool, true, false, Option, none, some, List, [], ◌∷◌, ◌++◌, map,
  if◌then◌else◌, filter_by, ltb, ◌==◌,
}
use bottlerocket_core_kit.Prelude.Text.{Text, text_eq}
use bottlerocket_core_kit.Prelude.HashMap.{HashMap, text_key, or_new, update_entry, put}
use bottlerocket_core_kit.Prelude.Outcome.{Outcome, ok, err, ◌>>=◌, ◌>>◌, context, ensure}
use bottlerocket_core_kit.Prelude.Decimal.{to_decimal}
use bottlerocket_core_kit.Whippet.Rule.{
  add_u64, default_policy_context_multiplier, default_policy_context_user, priority_base, Rule,
  connect_user, Context, Policy, no_rules, Error, read_path, collect_paths, policy_parse,
  user_context_with_connect_rule, set_priority, is_connect,
}

-- The priority of a rule that is read when the counter stands at `current_priority`.
abbrev pub priority_at : ℕ → ℕ → ℕ
priority_at multiplier current_priority =
    add_u64 (priority_base * multiplier % 2 ^ 64) current_priority

-- The loop over the rules of one context, with the counter after it.
unfoldable pub number_rules : ℕ → ℕ → List Rule → List Rule × ℕ
unfolding set_priority
number_rules multiplier current_priority [] = ([], current_priority)
number_rules multiplier current_priority (rule ∷ rules) =
    let (rest, last) = number_rules multiplier (add_u64 current_priority 1) rules in
    (set_priority (priority_at multiplier current_priority) rule ∷ rest, last)

unfoldable pub number_contexts : ℕ → HashMap Text Context → HashMap Text Context × ℕ
unfolding number_rules
number_contexts current_priority [] = ([], current_priority)
number_contexts current_priority ((user, policy) ∷ contexts) =
    let (rules, next) = number_rules default_policy_context_user current_priority policy.rules in
    let (rest, last) = number_contexts next contexts in
    ((user, record { rules = rules }) ∷ rest, last)

unfoldable pub number_users : ℕ → Option (HashMap Text Context) → Option (HashMap Text Context) × ℕ
unfolding number_contexts
number_users current_priority none = (none, current_priority)
number_users current_priority (some contexts) =
    let (numbered, last) = number_contexts current_priority contexts in (some numbered, last)

unfoldable pub number_default : ℕ → Option Context → Option Context × ℕ
unfolding number_rules
number_default current_priority none = (none, current_priority)
number_default current_priority (some policy) =
    let (rules, last) =
      number_rules default_policy_context_multiplier current_priority policy.rules in
    (some (record { rules = rules }), last)

-- The users' rules come first.
unfoldable pub set_rule_priorities : Policy → ℕ → Policy × ℕ
unfolding number_users number_default
set_rule_priorities p current_priority =
    let (user, next) = number_users current_priority p.user in
    let (default, last) = number_default next p.default in
    (record { default = default; user = user }, last)

-- `rules.extend`
abbrev pub extend : List Rule → Context → Context
extend more c = record { rules = c.rules ++ more }

unfoldable pub merge_users : HashMap Text Context → HashMap Text Context → HashMap Text Context
unfolding update_entry
merge_users base [] = base
merge_users base ((user, policy) ∷ rest) =
    merge_users (update_entry (extend policy.rules) no_rules user base) rest

-- The part of `load_one_policy` after its rules have been numbered.
unfoldable pub merge_policy : Policy → Policy → Policy
unfolding merge_users
merge_policy base policy = record {
  default = some (extend (or_new no_rules policy.default).rules (or_new no_rules base.default));
  user = some (merge_users (or_new [] base.user) (or_new [] policy.user));
}

-- What reading files and parsing TOML give; an entry of the directory may be unreadable. A path and
-- a name of a file are the list of their bytes, UTF-8 or not.
pub record Files : Type 0 where
  pub read_to_string : Text → Option Text
  pub from_str : Text → Option Policy
  pub read_dir : Text → Option (List (Option Text))

module _ (files : Files) where
  unfoldable pub load_one_policy : Text → Policy → ℕ → Outcome Error (Policy × ℕ)
  unfolding set_rule_priorities merge_policy
  load_one_policy policy_file base_policy current_priority = do
    policy_content ← context (read_path policy_file) (files.read_to_string policy_file)
    policy ← context policy_parse (files.from_str policy_content)
    let (numbered, next) = set_rule_priorities policy current_priority
    ok (merge_policy base_policy numbered, next)

  unfoldable pub load_policies : List Text → Policy → ℕ → Outcome Error (Policy × ℕ)
  unfolding load_one_policy
  load_policies [] policy current_priority = ok (policy, current_priority)
  load_policies (policy_file ∷ rest) policy current_priority = do
    (policy, current_priority) ← load_one_policy policy_file policy current_priority
    load_policies rest policy current_priority

-- `Path::extension` of a file's name, in bytes, as `to_str` takes an ending that is `toml`.
unfoldable pub split_last_dot : Text → Option (Text × Text)
split_last_dot [] = none
split_last_dot (c ∷ s) = elim (split_last_dot s) [
  | some (before, after) ↦ some (c ∷ before, after)
  | none ↦ if c == 46 then some ([], s) else none
]

abbrev pub after_dot : Option (Text × Text) → Option Text
after_dot none = none
after_dot (some ([], _)) = none
after_dot (some (_ ∷ _, after)) = some after

unfoldable pub extension : Text → Option Text
unfolding split_last_dot
extension name = if text_eq name (46 ∷ 46 ∷ []) then none else after_dot (split_last_dot name)

abbrev pub is_toml : Option Text → Bool
is_toml none = false
is_toml (some ending) = text_eq ending (116 ∷ 111 ∷ 109 ∷ 108 ∷ [])

-- `collect` of the directory's entries stops at one that cannot be read.
unfoldable pub collect : Text → List (Option Text) → Outcome Error (List Text)
collect dir [] = ok []
collect dir (entry ∷ entries) = do
  name ← context (collect_paths dir) entry
  rest ← collect dir entries
  ok (name ∷ rest)

-- Paths of one directory are ordered as their names, by bytes.
abbrev pub name_before : Text → Text → Bool
name_before [] [] = false
name_before [] (_ ∷ _) = true
name_before (_ ∷ _) [] = false
name_before (a ∷ s) (b ∷ t) =
    let rest = name_before s t in if ltb a b then true else if a == b then rest else false

unfoldable pub insert_name : Text → List Text → List Text
insert_name n [] = n ∷ []
insert_name n (m ∷ rest) =
    let later = insert_name n rest in if name_before m n then m ∷ later else n ∷ m ∷ rest

unfoldable pub sort_names : List Text → List Text
unfolding insert_name
sort_names [] = []
sort_names (n ∷ rest) = insert_name n (sort_names rest)

abbrev pub any_connect : List Rule → Bool
any_connect [] = false
any_connect (rule ∷ rules) = if is_connect rule then true else any_connect rules

unfoldable pub validate_users : HashMap Text Context → Outcome Error (Unit {0})
validate_users [] = ok tt
validate_users ((username, policy) ∷ rest) = elim (any_connect policy.rules) [
  | true ↦ err (user_context_with_connect_rule username)
  | false ↦ validate_users rest
]

unfoldable pub validate : Policy → Outcome Error (Unit {0})
unfolding validate_users
validate p = validate_users (or_new [] p.user)

-- `UsernameResolver`: a resolver of type `S` is changed by a call.
pub record UsernameResolver (S : Type 0) : Type 0 where
  pub resolve : S → Text → Outcome Error (ℕ × S)

module _ {S : Type 0} (resolver : UsernameResolver S) where
  unfoldable pub replace_connect : S → List Rule → Outcome Error (List Rule × S)
  unfolding to_decimal
  replace_connect s [] = ok ([], s)
  replace_connect s (connect_user allow user priority ∷ rules) = do
    (uid, s) ← resolver.resolve s user
    (rest, s) ← replace_connect s rules
    ok (connect_user allow (to_decimal uid) priority ∷ rest, s)
  replace_connect s (rule ∷ rules) = do (rest, s) ← replace_connect s rules; ok (rule ∷ rest, s)

  unfoldable pub replace_default : S → Option Context → Outcome Error (Option Context × S)
  unfolding replace_connect
  replace_default s none = ok (none, s)
  replace_default s (some c) = do
    (rules, s) ← replace_connect s c.rules
    ok (some (record { rules = rules }), s)

  unfoldable pub replace_users :
      S → HashMap Text Context → HashMap Text Context → Outcome Error (HashMap Text Context × S)
  unfolding to_decimal put
  replace_users s final [] = ok (final, s)
  replace_users s final ((user, policy) ∷ rest) = do
    (uid, s) ← resolver.resolve s user
    replace_users s (put (to_decimal uid) policy final) rest

  unfoldable pub replace_uids : S → Policy → Outcome Error (Policy × S)
  unfolding replace_default replace_users
  replace_uids s p = do
    (default, s) ← replace_default s p.default
    (users, s) ← replace_users s [] (or_new [] p.user)
    ok (record { default = default; user = some users }, s)

abbrev pub empty_policy : Policy
empty_policy = record { default = none; user = none }

abbrev pub first_priority : ℕ
first_priority = 3

-- The policy's file, then those of the directory in their order; `join` gives the path of a name
-- in the directory.
unfoldable pub policy_paths : Files → (Text → Text → Text) → Text → Text → Outcome Error (List Text)
unfolding collect sort_names extension
policy_paths files join policy_file policies_dir = do
  entries ← context (read_path policies_dir) (files.read_dir policies_dir)
  names ← collect policies_dir entries
  let toml_files = sort_names (filter_by (λ name. is_toml (extension name)) names)
  ok (policy_file ∷ map (join policies_dir) toml_files)

module _ (files : Files) {S : Type 0} (resolver : UsernameResolver S) where
  unfoldable pub new_policy : (Text → Text → Text) → Text → Text → S → Outcome Error (Policy × S)
  unfolding policy_paths load_policies validate replace_uids
  new_policy join policy_file policies_dir s = do
    all_policies ← policy_paths files join policy_file policies_dir
    (policy, _) ← load_policies files all_policies empty_policy first_priority
    validate policy
    replace_uids resolver s policy
