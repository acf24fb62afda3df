-- ===== src/Whippet/Rule.antt =====
-- Rules, contexts and policies of sources/whippet/src/policy.rs, and the accessors of a rule.
use bottlerocket_core_kit.Prelude.{
  ℕ, ◌+◌, ◌/◌, ◌-◌, ◌^◌, ◌%◌, Bool, true, false, Option, List, [], ◌∷◌, String, if◌then◌else◌,
}
use bottlerocket_core_kit.Prelude.Text.{Text, text_eq}
use bottlerocket_core_kit.Prelude.HashMap.{HashMap}
use bottlerocket_core_kit.Prelude.Outcome.{Outcome, ok, err}
use bottlerocket_core_kit.Prelude.Decimal.{max_u32}

-- `u64` arithmetic wraps in a release build.
abbrev pub max_u64 : ℕ
max_u64 = 2 ^ 64 - 1

abbrev pub add_u64 : ℕ → ℕ → ℕ
add_u64 a b = (a + b) % 2 ^ 64

abbrev pub default_policy_context_multiplier : ℕ
default_policy_context_multiplier = 1

abbrev pub default_policy_context_user : ℕ
default_policy_context_user = 3

unfoldable pub priority_base : ℕ
priority_base = max_u64 / 7

abbrev pub default_user_id : ℕ
default_user_id = max_u32

pub data MessageType : Type 0 where
  invalid method_call signal : MessageType

pub data Rule : Type 0 where
  connect_user : (allow : Bool) (user : Text) (priority : ℕ) → Rule
  own : (name : Text) (allow : Bool) (priority : ℕ) → Rule
  send :
      (send_destination send_interface send_member : Text) (send_type : MessageType)
      (send_path : Text) (send_broadcast : ℕ) (allow : Bool) (priority : ℕ)
      → Rule
  receive :
      (receive_sender receive_path receive_interface receive_member : Text)
      (receive_type : MessageType) (receive_broadcast : ℕ) (allow : Bool) (priority : ℕ)
      → Rule

pub record Context : Type 0 where
  pub rules : List Rule

-- `IndexMap`: a map that keeps the order of insertion
pub record Policy : Type 0 where
  pub default : Option Context
  pub user : Option (HashMap Text Context)

abbrev pub no_rules : Context
no_rules = record { rules = [] }

-- The variants of whippet's `Error` that a policy leads to.
pub data Error : Type 0 where
  read_path collect_paths : (what : Text) → Error
  policy_parse : Error
  user_context_with_connect_rule : (username : Text) → Error
  user_not_found : (username : Text) → Error
  user_lookup_failed : (username : Text) → Error
  invalid_property_for_rule : (property : String) (rule : Rule) → Error
  rule_to_record : (rule : Rule) (record_type : String) → Error
  parse_uid : (uid : Text) → Error

unfoldable pub set_priority : ℕ → Rule → Rule
set_priority new_priority (connect_user allow user _) = connect_user allow user new_priority
set_priority new_priority (own name allow _) = own name allow new_priority
set_priority new_priority (send d i m t p b allow _) = send d i m t p b allow new_priority
set_priority new_priority (receive s p i m t b allow _) = receive s p i m t b allow new_priority

unfoldable pub get_priority : Rule → ℕ
get_priority (connect_user _ _ priority) = priority
get_priority (own _ _ priority) = priority
get_priority (send _ _ _ _ _ _ _ priority) = priority
get_priority (receive _ _ _ _ _ _ _ priority) = priority

unfoldable pub is_connect : Rule → Bool
is_connect (connect_user _ _ _) = true
is_connect _ = false

abbrev pub wildcard : Text
wildcard = 42 ∷ []

-- `impl_wildcard_getter!`: a wildcard is given as the empty string.
unfoldable pub wildcard_getter : Text → Outcome Error Text
wildcard_getter field = if text_eq field wildcard then ok [] else ok field

unfoldable pub interface : Rule → Outcome Error Text
unfolding wildcard_getter
interface (send _ i _ _ _ _ _ _) = wildcard_getter i
interface (receive _ _ i _ _ _ _ _) = wildcard_getter i
interface r = err (invalid_property_for_rule "interface" r)

unfoldable pub name : Rule → Outcome Error Text
unfolding wildcard_getter
name (send d _ _ _ _ _ _ _) = wildcard_getter d
name (receive s _ _ _ _ _ _ _) = wildcard_getter s
name r = err (invalid_property_for_rule "name" r)

unfoldable pub member : Rule → Outcome Error Text
unfolding wildcard_getter
member (send _ _ m _ _ _ _ _) = wildcard_getter m
member (receive _ _ _ m _ _ _ _) = wildcard_getter m
member r = err (invalid_property_for_rule "member" r)

unfoldable pub path : Rule → Outcome Error Text
unfolding wildcard_getter
path (send _ _ _ _ p _ _ _) = wildcard_getter p
path (receive _ p _ _ _ _ _ _) = wildcard_getter p
path r = err (invalid_property_for_rule "path" r)
