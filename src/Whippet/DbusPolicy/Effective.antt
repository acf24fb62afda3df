-- ===== src/Whippet/DbusPolicy/Effective.antt =====
-- The verdict on connecting that the broker finds for a user, from the rules as they were loaded:
-- `prepare`, `optimize` and the conversion of sources/whippet together.
use bottlerocket_core_kit.Prelude.{
  ℕ, ◌<◌, ◌≡◌, refl, ◌∙◌, sym, ap, Bool, false, not, Option, none, some, List, [], ◌∷◌, inl, inr,
  arith, if◌then◌else◌, Bool-cases, ◌==◌, ltb, filter_by,
}
use bottlerocket_core_kit.Prelude.Text.{Text, text_eq, text_eq→eq, is_empty}
use bottlerocket_core_kit.Prelude.HashMap.{HashMap, text_key, get, or_new}
use bottlerocket_core_kit.Prelude.Outcome.{ok}
use bottlerocket_core_kit.Prelude.Decimal.{max_u32, to_decimal, to_decimal-injective}
use bottlerocket_core_kit.Whippet.Rule.{Rule, Context, Policy}
use bottlerocket_core_kit.Whippet.Connect.{
  is_extracted, push_popped, map_users, prepare, optimize, rules_of, clean_connect_rules,
  clean_users,
}
use bottlerocket_core_kit.Whippet.Connect.Threshold.{highest, find_priority_threshold-highest}
use bottlerocket_core_kit.Whippet.Connect.Winner.{last_connect, clean-highest}
use bottlerocket_core_kit.Whippet.Connect.Moved.{
  any_user, winner, kept, moved, merged, winner-merged, Rising-filter_by,
}
use bottlerocket_core_kit.Whippet.Connect.Users.{
  no_elements, Distinct-push_popped, rules_of-clean_users,
}
use bottlerocket_core_kit.Whippet.DbusPolicy.{DbusPolicy, default_batch_from, try_from}
use bottlerocket_core_kit.Whippet.DbusPolicy.Verdict.{
  AreUids, find_entry, connection_or, user_entries-Connects, batch_from-Connects,
}
use bottlerocket_core_kit.Whippet.DbusPolicy.Uids.{
  NameUids-filter_by, AreUids-push_popped, AreUids-clean_users,
}
use bottlerocket_core_kit.Whippet.DbusPolicy.Left.{IsLoaded, user_left}

-- The entry that the broker uses: the user's own, or that of the default user.
abbrev pub connection_of : ℕ → DbusPolicy → Bool × ℕ
connection_of uid d =
    connection_or (connection_or (false, 0) (find_entry max_u32 d.uid_entries))
      (find_entry uid d.uid_entries)

not_max : (uid : ℕ) → uid < max_u32 → text_eq (to_decimal uid) any_user ≡ false
not_max uid h = elim (Bool-cases (text_eq (to_decimal uid) any_user)) [
  | inl hit ↦
      let e = to_decimal-injective uid max_u32 (omega arith) (omega arith) (text_eq→eq _ _ hit) in
      absurd (omega arith)
  | inr miss ↦ miss
]

try_from-Connects :
    (p : Policy) (rules : List Rule) (users : HashMap Text Context) (uid : ℕ)
    → p.default ≡ some (record { rules = rules })
    → or_new [] p.user ≡ users
    → AreUids users
    → uid < max_u32
    → (d : DbusPolicy) × (try_from p ≡ ok d)
      × (connection_of uid d
          ≡ or_new
              (or_new (false, 0) (last_connect rules))
              (last_connect (rules_of (get (to_decimal uid) users))))
unfolding try_from default_batch_from find_entry
try_from-Connects p rules users uid default_rules of_users h below =
    let (default_entry, made, verdict) = batch_from-Connects (record { rules = rules }) in
    let (entries, all_made, found) =
      user_entries-Connects default_entry uid users (omega arith) h in
    let first : (max_u32 == uid) ≡ false = ground arith in
    (
      record { uid_entries = (max_u32, default_entry) ∷ entries; bus_type = "system" },
      rw (default_rules, made, of_users, all_made) refl,
      rw first (
          found
          ∙ ap (λ v. or_new v (last_connect (rules_of (get (to_decimal uid) users)))) verdict),
    )

-- The shape of the policy after `prepare` and `optimize`.
pub prepare-users :
    (rules : List Rule) (user : Option (HashMap Text Context))
    → or_new [] (prepare (record { default = some (record { rules = rules }); user = user })).user
      ≡ push_popped (filter_by is_extracted rules) (or_new [] user)
unfolding prepare push_popped
prepare-users rules user =
    let taken = filter_by is_extracted rules in
    elim (Bool-cases (is_empty taken)) [
      | inl e ↦ rw e (sym (ap (λ l. push_popped l (or_new [] user)) (no_elements taken e)))
      | inr e ↦ rw e refl
    ]

pub prepare-default :
    (rules : List Rule) (user : Option (HashMap Text Context))
    → (prepare (record { default = some (record { rules = rules }); user = user })).default
      ≡ some (record { rules = kept rules })
unfolding prepare
prepare-default rules user = elim (Bool-cases (is_empty (filter_by is_extracted rules))) [
  | inl e ↦ rw e refl
  | inr e ↦ rw e refl
]

pub optimize-parts :
    (p : Policy) (rules : List Rule)
    → p.default ≡ some (record { rules = rules })
    → ((optimize p).default ≡ some (record { rules = clean_connect_rules (highest rules) rules }))
      × (or_new [] (optimize p).user ≡ clean_users (highest rules) (or_new [] p.user))
unfolding optimize clean_users
optimize-parts p rules e =
    let top = find_priority_threshold-highest rules in
    (rw (e, top) refl, rw (e, top) (cleaned (highest rules) p.user))
  where
    cleaned :
        (t : ℕ) (user : Option (HashMap Text Context))
        → or_new [] (map_users (clean_users t) user) ≡ clean_users t (or_new [] user)
    cleaned t none = refl
    cleaned t (some m) = refl

from_merged :
    (own_top default_top : ℕ) (own_last default_last : Option (Bool × ℕ))
    → or_new (or_new (false, 0) default_last) (if ltb own_top default_top then none else own_last)
      ≡ or_new (false, 0) (merged own_top default_top own_last default_last)
from_merged own_top default_top none default_last = ground arith
from_merged own_top default_top (some v) default_last = ground arith

-- For every user but the default one, the policy that the broker is given holds the verdict and
-- the priority of the last connect rule, in the order in which the rules were loaded, that names
-- the user or all users; where there is none, it is a refusal of priority 0. The policy has been
-- loaded (its default context has connect rules of rising priorities, the users' contexts have
-- none, users are named by their IDs and have one context each), and the conversion succeeds.
pub try_from-winner :
    (rules : List Rule) (user : Option (HashMap Text Context)) (uid : ℕ)
    → IsLoaded rules (or_new [] user)
    → uid < max_u32
    → (d : DbusPolicy) × (try_from
          (optimize (prepare (record { default = some (record { rules = rules }); user = user })))
        ≡ ok d)
      × (connection_of uid d ≡ or_new (false, 0) (winner (to_decimal uid) rules))
try_from-winner rules user uid l below =
    let u = to_decimal uid in
    let loaded : Policy = record { default = some (record { rules = rules }); user = user } in
    let taken = filter_by is_extracted rules in
    let pushed = push_popped taken (or_new [] user) in
    let top = highest (kept rules) in
    let (default_rules, users) =
      optimize-parts (prepare loaded) (kept rules) (prepare-default rules user) in
    let all_users = users ∙ ap (clean_users top) (prepare-users rules user) in
    let uids = AreUids-clean_users top pushed (
      AreUids-push_popped taken (or_new [] user) (NameUids-filter_by is_extracted rules l.named)
        l.uids) in
    let (d, made, found) =
      try_from-Connects (optimize (prepare loaded)) (clean_connect_rules top (kept rules))
        (clean_users top pushed) uid default_rules all_users uids below in
    let rising = Rising-filter_by (λ r. not (is_extracted r)) 0 rules l.rising in
    let left =
      ap last_connect
        (rules_of-clean_users top u pushed (Distinct-push_popped taken (or_new [] user) l.distinct))
      ∙ user_left u rules (or_new [] user) l in
    (
      d,
      made,
      found
          ∙ ap
              (λ v.
                or_new (or_new (false, 0) (last_connect (clean_connect_rules top (kept rules)))) v)
              left
          ∙ ap
              (λ v.
                or_new (or_new (false, 0) v) (
                  if ltb (highest (moved u rules)) top then none else last_connect (moved u rules)))
              (clean-highest 0 (kept rules) rising)
          ∙ from_merged (highest (moved u rules)) top (last_connect (moved u rules))
              (last_connect (kept rules))
          ∙ sym (ap (or_new (false, 0)) (winner-merged u (not_max uid below) 0 rules l.rising)),
    )
