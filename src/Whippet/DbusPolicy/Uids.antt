-- ===== src/Whippet/DbusPolicy/Uids.antt =====
-- The users' names stay user IDs under `prepare` and `optimize` of policy.rs.
use bottlerocket_core_kit.Prelude.{ℕ, Bool, List, [], ◌∷◌, inl, inr, Bool-cases, filter_by}
use bottlerocket_core_kit.Prelude.Text.{Text, text_eq, is_empty}
use bottlerocket_core_kit.Prelude.HashMap.{HashMap, text_key, update_entry}
use bottlerocket_core_kit.Whippet.Rule.{Rule, connect_user, own, send, receive, Context, no_rules}
use bottlerocket_core_kit.Whippet.Policy.{extend}
use bottlerocket_core_kit.Whippet.Connect.{push_popped, clean_user, clean_users}
use bottlerocket_core_kit.Whippet.DbusPolicy.Verdict.{IsUid, AreUids}

-- The connect rules name user IDs.
abbrev pub NameUids : List Rule → Type 0
NameUids [] = Unit
NameUids (connect_user _ user _ ∷ rules) = IsUid user × NameUids rules
NameUids (_ ∷ rules) = NameUids rules

NameUids-rest : (r : Rule) (rules : List Rule) → NameUids (r ∷ rules) → NameUids rules
NameUids-rest (connect_user _ _ _) rules h = h.1
NameUids-rest (own _ _ _) rules h = h
NameUids-rest (send _ _ _ _ _ _ _ _) rules h = h
NameUids-rest (receive _ _ _ _ _ _ _ _) rules h = h

NameUids-cons :
    (r : Rule) (rules others : List Rule)
    → NameUids (r ∷ rules)
    → NameUids others
    → NameUids (r ∷ others)
NameUids-cons (connect_user _ _ _) rules others h later = (h.0, later)
NameUids-cons (own _ _ _) rules others h later = later
NameUids-cons (send _ _ _ _ _ _ _ _) rules others h later = later
NameUids-cons (receive _ _ _ _ _ _ _ _) rules others h later = later

NameUids-kept :
    (test : Rule → Bool) (r : Rule) (rules : List Rule)
    → NameUids (r ∷ rules)
    → NameUids (filter_by test rules)
    → NameUids (filter_by test (r ∷ rules))
NameUids-kept test r rules h later = elim (Bool-cases (test r)) [
  | inl keep ↦ rw keep (NameUids-cons r rules (filter_by test rules) h later)
  | inr skip ↦ rw skip later
]

pub NameUids-filter_by :
    (test : Rule → Bool) (rules : List Rule) → NameUids rules → NameUids (filter_by test rules)
NameUids-filter_by test [] h = tt
NameUids-filter_by test (r ∷ rules) h =
    NameUids-kept test r rules h (NameUids-filter_by test rules (NameUids-rest r rules h))

AreUids-update_entry :
    (f : Context → Context) (k : Text) (m : HashMap Text Context)
    → IsUid k
    → AreUids m
    → AreUids (update_entry f no_rules k m)
unfolding update_entry
AreUids-update_entry f k [] uid h = (uid, tt)
AreUids-update_entry f k ((j, c) ∷ m) uid (here, h) = elim (Bool-cases (text_eq j k)) [
  | inl hit ↦ rw hit (here, h)
  | inr miss ↦ rw miss (here, AreUids-update_entry f k m uid h)
]

pub AreUids-push_popped :
    (rules : List Rule) (m : HashMap Text Context)
    → NameUids rules
    → AreUids m
    → AreUids (push_popped rules m)
unfolding push_popped
AreUids-push_popped [] m n h = h
AreUids-push_popped (connect_user a u p ∷ rules) m (uid, n) h =
    AreUids-update_entry (extend (connect_user a u p ∷ [])) u (push_popped rules m) uid
      (AreUids-push_popped rules m n h)
AreUids-push_popped (own _ _ _ ∷ rules) m n h = AreUids-push_popped rules m n h
AreUids-push_popped (send _ _ _ _ _ _ _ _ ∷ rules) m n h = AreUids-push_popped rules m n h
AreUids-push_popped (receive _ _ _ _ _ _ _ _ ∷ rules) m n h = AreUids-push_popped rules m n h

pub AreUids-clean_users : (t : ℕ) (m : HashMap Text Context) → AreUids m → AreUids (clean_users t m)
unfolding clean_users
AreUids-clean_users t [] h = tt
AreUids-clean_users t ((j, c) ∷ m) (here, h) =
    let later = AreUids-clean_users t m h in
    elim (Bool-cases (is_empty (clean_user t c.rules))) [
      | inl gone ↦ rw gone later
      | inr stays ↦ rw stays (here, later)
    ]
