-- ===== src/Whippet/DbusPolicy.antt =====
-- sources/whippet/src/dbus_policy.rs: the policy in the form that the broker takes.
pub mod Verdict
pub mod Uids
pub mod Left
pub mod Effective
pub mod Records
pub mod Kept
pub mod Delivered
use bottlerocket_core_kit.Prelude.{
  ℕ, Bool, true, false, Option, none, some, List, [], ◌∷◌, ◌++◌, String, if◌then◌else◌,
}
use bottlerocket_core_kit.Prelude.Text.{Text, text_eq}
use bottlerocket_core_kit.Prelude.HashMap.{HashMap, or_new}
use bottlerocket_core_kit.Prelude.Outcome.{Outcome, ok, err, ◌>>=◌, context}
use bottlerocket_core_kit.Prelude.Decimal.{max_u32, parse_u32}
use bottlerocket_core_kit.Whippet.Policy.{any_connect}
use bottlerocket_core_kit.Whippet.Rule.{
  max_u64, MessageType, Rule, connect_user, own, send, receive, Context, Policy, Error,
  rule_to_record, parse_uid, is_connect, wildcard, name, path, interface, member,
}

abbrev pub default_max_fds : ℕ
default_max_fds = max_u64

pub record OwnRecord : Type 0 where
  pub verdict : Bool
  pub priority : ℕ
  pub prefix : Bool
  pub name : Text

-- `impl_record!` declares it twice, as `SendRecord` and as `ReceiveRecord`.
pub record MessageRecord : Type 0 where
  pub verdict : Bool
  pub priority : ℕ
  pub name : Text
  pub path : Text
  pub interface : Text
  pub member : Text
  pub record_type : MessageType
  pub broadcast : ℕ
  pub min_fds : ℕ
  pub max_fds : ℕ

pub record PolicyBatch : Type 0 where
  pub connect_verdict : Bool
  pub connect_priority : ℕ
  pub own_rules : List OwnRecord
  pub send_rules : List MessageRecord
  pub recv_rules : List MessageRecord

-- The consoles, the SELinux contexts and AppArmor are not used: they stay empty and false.
pub record DbusPolicy : Type 0 where
  pub uid_entries : List (ℕ × PolicyBatch)
  pub bus_type : String

-- The fields that the two kinds of record have in common.
unfoldable pub message_record : Rule → Bool → ℕ → MessageType → ℕ → Outcome Error MessageRecord
unfolding name interface member path
message_record rule allow priority record_type broadcast = do
  n ← name rule
  i ← interface rule
  m ← member rule
  p ← path rule
  ok (record {
    verdict = allow;
    priority = priority;
    name = n;
    path = p;
    interface = i;
    member = m;
    record_type = record_type;
    broadcast = broadcast;
    min_fds = 0;
    max_fds = default_max_fds;
  })

unfoldable pub send_record : Rule → Outcome Error MessageRecord
unfolding message_record
send_record (send d i m t p b allow priority) =
    message_record (send d i m t p b allow priority) allow priority t b
send_record rule = err (rule_to_record rule "SendRecord")

unfoldable pub receive_record : Rule → Outcome Error MessageRecord
unfolding message_record
receive_record (receive s p i m t b allow priority) =
    message_record (receive s p i m t b allow priority) allow priority t b
receive_record rule = err (rule_to_record rule "ReceiveRecord")

unfoldable pub own_record : Rule → Outcome Error OwnRecord
own_record (own owned allow priority) =
    let any = text_eq owned wildcard in
    ok (record {
      verdict = allow;
      priority = priority;
      prefix = any;
      name = if any then [] else owned;
    })
own_record rule = err (rule_to_record rule "OwnRecord")

abbrev pub default_batch : PolicyBatch
default_batch = record {
  connect_verdict = false;
  connect_priority = 0;
  own_rules = [];
  send_rules = [];
  recv_rules = [];
}

-- What one rule adds to the batch.
unfoldable pub add_rule : PolicyBatch → Rule → Outcome Error PolicyBatch
unfolding own_record send_record receive_record
add_rule batch (connect_user allow _ priority) =
    ok (record batch { connect_verdict = allow; connect_priority = priority })
add_rule batch (own n a p) = do
  r ← own_record (own n a p)
  ok (record batch { own_rules = batch.own_rules ++ (r ∷ []) })
add_rule batch (send d i m t p b a priority) = do
  r ← send_record (send d i m t p b a priority)
  ok (record batch { send_rules = batch.send_rules ++ (r ∷ []) })
add_rule batch (receive s p i m t b a priority) = do
  r ← receive_record (receive s p i m t b a priority)
  ok (record batch { recv_rules = batch.recv_rules ++ (r ∷ []) })

unfoldable pub add_rules : PolicyBatch → List Rule → Outcome Error PolicyBatch
unfolding add_rule
add_rules batch [] = ok batch
add_rules batch (rule ∷ rules) = do batch ← add_rule batch rule; add_rules batch rules

-- `TryFrom<&Context> for PolicyBatch`
unfoldable pub batch_from : Context → Outcome Error PolicyBatch
unfolding add_rules
batch_from value = add_rules default_batch value.rules

unfoldable pub has_connect_rule : Context → Bool
has_connect_rule c = any_connect c.rules

unfoldable pub copy_rules_from : PolicyBatch → PolicyBatch → PolicyBatch
copy_rules_from batch source = record batch {
  own_rules = batch.own_rules ++ source.own_rules;
  send_rules = batch.send_rules ++ source.send_rules;
  recv_rules = batch.recv_rules ++ source.recv_rules;
}

-- The batch of the default context; without one, the launcher's own.
unfoldable pub default_batch_from : Option Context → Outcome Error PolicyBatch
unfolding batch_from
default_batch_from none = ok (record default_batch { connect_priority = 1 })
default_batch_from (some c) = batch_from c

-- A user without a connect rule has the verdict of the default batch.
unfoldable pub user_batch : PolicyBatch → Context → Outcome Error PolicyBatch
unfolding batch_from copy_rules_from
user_batch default_entry user_policy = do
  batch ← batch_from user_policy
  let connected = if has_connect_rule user_policy then batch else record batch {
    connect_verdict = default_entry.connect_verdict;
    connect_priority = default_entry.connect_priority;
  }
  ok (copy_rules_from connected default_entry)

unfoldable pub user_entries :
    PolicyBatch → HashMap Text Context → Outcome Error (List (ℕ × PolicyBatch))
unfolding user_batch parse_u32
user_entries default_entry [] = ok []
user_entries default_entry ((uid, user_policy) ∷ rest) = do
  batch ← user_batch default_entry user_policy
  n ← context (parse_uid uid) (parse_u32 uid)
  entries ← user_entries default_entry rest
  ok ((n, batch) ∷ entries)

-- `TryFrom<Policy> for DbusPolicy`
unfoldable pub try_from : Policy → Outcome Error DbusPolicy
unfolding default_batch_from user_entries
try_from policy = do
  default_entry ← default_batch_from policy.default
  entries ← user_entries default_entry (or_new [] policy.user)
  ok (record { uid_entries = (max_u32, default_entry) ∷ entries; bus_type = "system" })
