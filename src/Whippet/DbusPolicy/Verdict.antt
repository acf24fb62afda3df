-- ===== src/Whippet/DbusPolicy/Verdict.antt =====
-- Which verdict on connecting the broker finds for a user in the policy of dbus_policy.rs.
use bottlerocket_core_kit.Prelude.{
  ℕ, ◌<◌, ◌^◌, ◌≡◌, refl, ◌∙◌, sym, ap, Bool, true, false, Option, none, some, List, [], ◌∷◌, ◌++◌,
  inl, inr, arith, if◌then◌else◌, Bool-cases, Option-cases, ◌==◌,
}
use bottlerocket_core_kit.Prelude.Text.{Text, text_eq, text_eq→eq, text_eq_refl}
use bottlerocket_core_kit.Prelude.HashMap.{HashMap, text_key, get, or_new}
use bottlerocket_core_kit.Prelude.Outcome.{ok}
use bottlerocket_core_kit.Prelude.Decimal.{
  to_decimal, parse_u32, parse_u32-to_decimal, to_decimal-injective,
}
use bottlerocket_core_kit.Whippet.Rule.{
  MessageType, Rule, connect_user, own, send, receive, Context, wildcard, wildcard_getter, name,
  member, path, interface, is_connect,
}
use bottlerocket_core_kit.Whippet.Policy.{any_connect}
use bottlerocket_core_kit.Whippet.Connect.{rules_of}
use bottlerocket_core_kit.Whippet.Connect.Winner.{last_connect, verdict_of, or_else}
use bottlerocket_core_kit.Whippet.DbusPolicy.{
  MessageRecord, message_record, default_max_fds, PolicyBatch, default_batch, add_rule, add_rules,
  batch_from, send_record, receive_record, own_record, user_batch, user_entries, has_connect_rule,
  copy_rules_from,
}

abbrev pub connection : PolicyBatch → Bool × ℕ
connection b = (b.connect_verdict, b.connect_priority)

abbrev pub plain : Text → Text
plain t = if text_eq t wildcard then [] else t

-- The record of a rule whose fields are given, the wildcards as empty strings.
abbrev pub message : Text → Text → Text → Text → MessageType → ℕ → Bool → ℕ → MessageRecord
message name path interface member record_type broadcast verdict priority = record {
  verdict = verdict;
  priority = priority;
  name = plain name;
  path = plain path;
  interface = plain interface;
  member = plain member;
  record_type = record_type;
  broadcast = broadcast;
  min_fds = 0;
  max_fds = default_max_fds;
}

or_new-or_else :
    {A : Type 0} (a : A) (first second : Option A)
    → or_new (or_new a first) second ≡ or_new a (or_else second first)
or_new-or_else a first none = refl
or_new-or_else a first (some b) = refl

pub wildcard_getter_ok : (t : Text) → wildcard_getter t ≡ ok (plain t)
unfolding wildcard_getter
wildcard_getter_ok t = ground arith

-- A rule always fits into the batch, and only a connect rule changes its verdict.
add_rule-Connects :
    (batch : PolicyBatch) (rule : Rule)
    → (b : PolicyBatch) × (add_rule batch rule ≡ ok b)
      × (connection b ≡ or_new (connection batch) (verdict_of rule))
unfolding add_rule own_record send_record receive_record verdict_of name member path interface
    message_record
add_rule-Connects batch (connect_user a u p) = (_, refl, refl)
add_rule-Connects batch (own n a p) = (_, refl, refl)
add_rule-Connects batch (send d i m t p b a q) = (
  record batch { send_rules = batch.send_rules ++ (message d p i m t b a q ∷ []) },
  rw (wildcard_getter_ok d, wildcard_getter_ok i, wildcard_getter_ok m, wildcard_getter_ok p) refl,
  refl,
)
add_rule-Connects batch (receive s p i m t b a q) = (
  record batch { recv_rules = batch.recv_rules ++ (message s p i m t b a q ∷ []) },
  rw (wildcard_getter_ok s, wildcard_getter_ok i, wildcard_getter_ok m, wildcard_getter_ok p) refl,
  refl,
)

pub add_rules-Connects :
    (rules : List Rule) (batch : PolicyBatch)
    → (b : PolicyBatch) × (add_rules batch rules ≡ ok b)
      × (connection b ≡ or_new (connection batch) (last_connect rules))
unfolding add_rules last_connect
add_rules-Connects [] batch = (batch, refl, refl)
add_rules-Connects (rule ∷ rules) batch =
    let (next, added, given) = add_rule-Connects batch rule in
    let (b, all_added, found) = add_rules-Connects rules next in
    (
      b,
      rw added all_added,
      found
          ∙ ap (λ c. or_new c (last_connect rules)) given
          ∙ or_new-or_else (connection batch) (verdict_of rule) (last_connect rules),
    )

-- The batch of a context is made, with the verdict of the context's last connect rule.
pub batch_from-Connects :
    (c : Context)
    → (b : PolicyBatch) × (batch_from c ≡ ok b)
      × (connection b ≡ or_new (false, 0) (last_connect c.rules))
unfolding batch_from
batch_from-Connects c = add_rules-Connects c.rules default_batch

any_connect-last :
    (rules : List Rule)
    → any_connect rules ≡ (elim (last_connect rules) [ none ↦ false | some _ ↦ true ])
unfolding last_connect verdict_of is_connect
any_connect-last [] = refl
any_connect-last (connect_user a u p ∷ rules) = ground (arith, Option-cases (last_connect rules))
any_connect-last (own n a p ∷ rules) =
    any_connect-last rules ∙ ground (arith, Option-cases (last_connect rules))
any_connect-last (send d i m t p b a q ∷ rules) =
    any_connect-last rules ∙ ground (arith, Option-cases (last_connect rules))
any_connect-last (receive s p i m t b a q ∷ rules) =
    any_connect-last rules ∙ ground (arith, Option-cases (last_connect rules))

-- A batch that has no connect rule of its own takes the verdict of the default batch.
abbrev pub completed : Bool → PolicyBatch → PolicyBatch → PolicyBatch
completed connected b default_entry =
    copy_rules_from
      (if connected then b else record b {
        connect_verdict = default_entry.connect_verdict;
        connect_priority = default_entry.connect_priority;
      })
      default_entry

connection-completed :
    (connected : Bool) (b default_entry : PolicyBatch)
    → connection (completed connected b default_entry)
      ≡ (if connected then connection b else connection default_entry)
unfolding copy_rules_from
connection-completed true b d = refl
connection-completed false b d = refl

last_or :
    (a b : Bool × ℕ) (last : Option (Bool × ℕ))
    → (if elim last [ none ↦ false | some _ ↦ true ] then or_new a last else b) ≡ or_new b last
last_or a b none = refl
last_or a b (some v) = refl

-- A user's batch has the verdict of the user's last connect rule, or of the default batch.
user_batch-Connects :
    (default_entry : PolicyBatch) (c : Context)
    → (b : PolicyBatch) × (user_batch default_entry c ≡ ok b)
      × (connection b ≡ or_new (connection default_entry) (last_connect c.rules))
unfolding user_batch has_connect_rule
user_batch-Connects default_entry c =
    let (b, made, found) = batch_from-Connects c in
    (
      completed (any_connect c.rules) b default_entry,
      rw made refl,
      connection-completed (any_connect c.rules) b default_entry
          ∙ rw (any_connect-last c.rules, found)
              (last_or (false, 0) (connection default_entry) (last_connect c.rules)),
    )

-- A key of the users' contexts after their names were replaced.
abbrev pub IsUid : Text → Type 0
IsUid key = (n : ℕ) × (n < 2 ^ 32) × (key ≡ to_decimal n)

abbrev pub AreUids : HashMap Text Context → Type 0
AreUids [] = Unit
AreUids ((key, _) ∷ rest) = IsUid key × AreUids rest

-- The first entry for a user ID.
unfoldable pub find_entry : ℕ → List (ℕ × PolicyBatch) → Option PolicyBatch
find_entry uid [] = none
find_entry uid ((n, batch) ∷ rest) =
    let later = find_entry uid rest in if n == uid then some batch else later

abbrev pub connection_or : Bool × ℕ → Option PolicyBatch → Bool × ℕ
connection_or default none = default
connection_or default (some b) = connection b

pub same_uid :
    (n uid : ℕ) → n < 2 ^ 32 → uid < 2 ^ 32 → (n == uid) ≡ text_eq (to_decimal n) (to_decimal uid)
same_uid n uid hn hu = elim (Bool-cases (n == uid)) [
  | inl same ↦
      let e : n ≡ uid = ground arith in
      same
      ∙ sym (ap (λ k. text_eq (to_decimal n) (to_decimal k)) (sym e) ∙ text_eq_refl (to_decimal n))
  | inr other ↦ elim (Bool-cases (text_eq (to_decimal n) (to_decimal uid))) [
    | inl hit ↦
        let e = to_decimal-injective n uid hn hu (text_eq→eq _ _ hit) in absurd (ground arith)
    | inr miss ↦ other ∙ sym miss
  ]
]

-- The entries are made, and hold for each user the verdict of the user's context.
pub user_entries-Connects :
    (default_entry : PolicyBatch) (uid : ℕ) (m : HashMap Text Context)
    → uid < 2 ^ 32
    → AreUids m
    → (entries : List (ℕ × PolicyBatch)) × (user_entries default_entry m ≡ ok entries)
      × (connection_or (connection default_entry) (find_entry uid entries)
          ≡ or_new (connection default_entry) (last_connect (rules_of (get (to_decimal uid) m))))
unfolding user_entries find_entry get last_connect
user_entries-Connects default_entry uid [] below h = ([], refl, refl)
user_entries-Connects default_entry uid ((key, c) ∷ m) below ((n, bound, e), h) =
    let (batch, made, verdict) = user_batch-Connects default_entry c in
    let (entries, rest_made, found) = user_entries-Connects default_entry uid m below h in
    let parsed : parse_u32 key ≡ some n = ap parse_u32 e ∙ parse_u32-to_decimal n bound in
    let same : text_eq key (to_decimal uid) ≡ (n == uid) =
      ap (λ k. text_eq k (to_decimal uid)) e ∙ sym (same_uid n uid bound below) in
    (
      (n, batch) ∷ entries,
      rw (made, parsed, rest_made) refl,
      elim (Bool-cases (n == uid)) [
        | inl hit ↦ rw (same, hit) verdict
        | inr miss ↦ rw (same, miss) found
      ],
    )
