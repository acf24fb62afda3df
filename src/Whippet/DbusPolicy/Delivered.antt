-- ===== src/Whippet/DbusPolicy/Delivered.antt =====
-- The own, send and receive rules of the policy that the broker is given, from the rules as they
-- were loaded.
use bottlerocket_core_kit.Prelude.{
  ℕ, ◌<◌, ◌^◌, ◌≡◌, refl, ◌∙◌, sym, ap, Bool, true, false, Option, none, some, List, [], ◌∷◌, ◌++◌,
  inl, inr, arith, Bool-cases, ◌==◌, filter_by,
}
use bottlerocket_core_kit.Prelude.Text.{Text, text_eq}
use bottlerocket_core_kit.Prelude.HashMap.{HashMap, text_key, get, or_new}
use bottlerocket_core_kit.Prelude.Outcome.{ok}
use bottlerocket_core_kit.Prelude.Decimal.{max_u32, to_decimal, parse_u32, parse_u32-to_decimal}
use bottlerocket_core_kit.Whippet.Rule.{Rule, Context, Policy}
use bottlerocket_core_kit.Whippet.Policy.{any_connect}
use bottlerocket_core_kit.Whippet.Connect.{
  is_extracted, push_popped, rules_of, clean_connect_rules, clean_users, prepare, optimize,
}
use bottlerocket_core_kit.Whippet.Connect.Moved.{kept}
use bottlerocket_core_kit.Whippet.Connect.Threshold.{highest}
use bottlerocket_core_kit.Whippet.DbusPolicy.{
  OwnRecord, MessageRecord, PolicyBatch, DbusPolicy, default_batch, batch_from, user_batch,
  user_entries, has_connect_rule, copy_rules_from, try_from, default_batch_from,
}
use bottlerocket_core_kit.Whippet.DbusPolicy.Verdict.{completed, AreUids, find_entry, same_uid}
use bottlerocket_core_kit.Whippet.DbusPolicy.Left.{IsLoaded}
use bottlerocket_core_kit.Whippet.DbusPolicy.Uids.{
  NameUids-filter_by, AreUids-push_popped, AreUids-clean_users,
}
use bottlerocket_core_kit.Whippet.DbusPolicy.Effective.{
  prepare-users, prepare-default, optimize-parts,
}
use bottlerocket_core_kit.Whippet.DbusPolicy.Records.{
  gathered, own_of, send_of, receive_of, add_rules-Adds,
}
use bottlerocket_core_kit.Whippet.DbusPolicy.Kept.{
  no_own, no_send, no_receive, gathered_left, gathered-clean, gathered-kept,
}

-- The records of a batch, by kind.
pub record Rules : Type 0 where
  pub owns : List OwnRecord
  pub sends : List MessageRecord
  pub receives : List MessageRecord

abbrev pub rules_in : PolicyBatch → Rules
rules_in b = record { owns = b.own_rules; sends = b.send_rules; receives = b.recv_rules }

abbrev pub all_gathered : List Rule → Rules
all_gathered rules = record {
  owns = gathered own_of rules;
  sends = gathered send_of rules;
  receives = gathered receive_of rules;
}

abbrev pub followed_by : Rules → Rules → Rules
followed_by a b = record {
  owns = a.owns ++ b.owns;
  sends = a.sends ++ b.sends;
  receives = a.receives ++ b.receives;
}

abbrev pub rules_or : Rules → Option PolicyBatch → Rules
rules_or default none = default
rules_or default (some b) = rules_in b

rules_of_completed :
    (connected : Bool) (b default_entry : PolicyBatch)
    → rules_in (completed connected b default_entry)
      ≡ followed_by (rules_in b) (rules_in default_entry)
unfolding copy_rules_from
rules_of_completed true b d = refl
rules_of_completed false b d = refl

batch_from-Gathers :
    (c : Context) → (b : PolicyBatch) × (batch_from c ≡ ok b) × (rules_in b ≡ all_gathered c.rules)
unfolding batch_from
batch_from-Gathers c =
    let (b, made, (o, s, r)) = add_rules-Adds c.rules default_batch in (b, made, rw (o, s, r) refl)

user_batch-Gathers :
    (default_entry : PolicyBatch) (c : Context)
    → (b : PolicyBatch) × (user_batch default_entry c ≡ ok b)
      × (rules_in b ≡ followed_by (all_gathered c.rules) (rules_in default_entry))
unfolding user_batch has_connect_rule
user_batch-Gathers default_entry c =
    let (b, made, found) = batch_from-Gathers c in
    (
      completed (any_connect c.rules) b default_entry,
      rw made refl,
      rules_of_completed (any_connect c.rules) b default_entry
          ∙ ap (λ x. followed_by x (rules_in default_entry)) found,
    )

user_entries-Gathers :
    (default_entry : PolicyBatch) (uid : ℕ) (m : HashMap Text Context)
    → uid < 2 ^ 32
    → AreUids m
    → (entries : List (ℕ × PolicyBatch)) × (user_entries default_entry m ≡ ok entries)
      × (rules_or (rules_in default_entry) (find_entry uid entries)
          ≡ followed_by (all_gathered (rules_of (get (to_decimal uid) m))) (rules_in default_entry))
unfolding user_entries find_entry get gathered
user_entries-Gathers default_entry uid [] below h = ([], refl, refl)
user_entries-Gathers default_entry uid ((key, c) ∷ m) below ((n, bound, e), h) =
    let (batch, made, gathers) = user_batch-Gathers default_entry c in
    let (entries, rest_made, found) = user_entries-Gathers default_entry uid m below h in
    let parsed : parse_u32 key ≡ some n = ap parse_u32 e ∙ parse_u32-to_decimal n bound in
    let same : text_eq key (to_decimal uid) ≡ (n == uid) =
      ap (λ k. text_eq k (to_decimal uid)) e ∙ sym (same_uid n uid bound below) in
    (
      (n, batch) ∷ entries,
      rw (made, parsed, rest_made) refl,
      elim (Bool-cases (n == uid)) [
        | inl hit ↦ rw (same, hit) gathers
        | inr miss ↦ rw (same, miss) found
      ],
    )

-- The rules of the entry that the broker uses for a user.
abbrev pub rules_for : ℕ → DbusPolicy → Rules
rules_for uid d =
    rules_or
      (rules_or (record { owns = []; sends = []; receives = [] })
        (find_entry max_u32 d.uid_entries))
      (find_entry uid d.uid_entries)

try_from-Gathers :
    (p : Policy) (rules : List Rule) (users : HashMap Text Context) (uid : ℕ)
    → p.default ≡ some (record { rules = rules })
    → or_new [] p.user ≡ users
    → AreUids users
    → uid < max_u32
    → (d : DbusPolicy) × (try_from p ≡ ok d)
      × (rules_for uid d
          ≡ followed_by (all_gathered (rules_of (get (to_decimal uid) users))) (all_gathered rules))
unfolding try_from default_batch_from find_entry
try_from-Gathers p rules users uid default_rules of_users h below =
    let (default_entry, made, gathers) = batch_from-Gathers (record { rules = rules }) in
    let (entries, all_made, found) = user_entries-Gathers default_entry uid users (omega arith) h in
    let first : (max_u32 == uid) ≡ false = ground arith in
    (
      record { uid_entries = (max_u32, default_entry) ∷ entries; bus_type = "system" },
      rw (default_rules, made, of_users, all_made) refl,
      rw first (
          found
          ∙ ap (λ x. followed_by (all_gathered (rules_of (get (to_decimal uid) users))) x) gathers),
    )

-- For every user but the default one, the entry that the broker uses holds the own, send and receive
-- rules of the user's context as it was loaded, in their order, and after them those of the
-- default context; wildcards have become empty strings. So `prepare` and `optimize` lose none of
-- them, also where a context is removed. The policy has been loaded.
pub try_from-rules :
    (rules : List Rule) (user : Option (HashMap Text Context)) (uid : ℕ)
    → IsLoaded rules (or_new [] user)
    → uid < max_u32
    → (d : DbusPolicy) × (try_from
          (optimize (prepare (record { default = some (record { rules = rules }); user = user })))
        ≡ ok d)
      × (rules_for uid d
          ≡ followed_by
              (all_gathered (rules_of (get (to_decimal uid) (or_new [] user))))
              (all_gathered rules))
try_from-rules rules user uid l below =
    let loaded : Policy = record { default = some (record { rules = rules }); user = user } in
    let taken = filter_by is_extracted rules in
    let users = or_new [] user in
    let pushed = push_popped taken users in
    let top = highest (kept rules) in
    let (of_default, of_users) =
      optimize-parts (prepare loaded) (kept rules) (prepare-default rules user) in
    let uids =
      AreUids-clean_users top pushed
        (AreUids-push_popped taken users (NameUids-filter_by is_extracted rules l.named) l.uids) in
    let (d, made, found) =
      try_from-Gathers (optimize (prepare loaded)) (clean_connect_rules top (kept rules))
        (clean_users top pushed) uid of_default
        (of_users ∙ ap (clean_users top) (prepare-users rules user)) uids below in
    let u = to_decimal uid in
    (
      d,
      made,
      found
          ∙ rw
              (
                gathered_left own_of no_own u top rules users l,
                gathered_left send_of no_send u top rules users l,
                gathered_left receive_of no_receive u top rules users l,
                gathered-clean own_of no_own top (kept rules) ∙ gathered-kept own_of no_own rules,
                gathered-clean send_of no_send top (kept rules)
                    ∙ gathered-kept send_of no_send rules,
                gathered-clean receive_of no_receive top (kept rules)
                    ∙ gathered-kept receive_of no_receive rules,
              )
              refl,
    )
