-- ===== src/Whippet/Connect/Users.antt =====
-- The rules of one user after `prepare` and `optimize` of policy.rs.
use bottlerocket_core_kit.Prelude.{
  ℕ, ◌≡◌, refl, ◌∙◌, sym, ap, Bool, true, Option, none, some, List, [], ◌∷◌, ◌++◌, inl, inr, arith,
  filter_by, if◌then◌else◌, Bool-cases, ◌==◌,
}
use bottlerocket_core_kit.Prelude.Text.{Text, text_eq, text_eq→eq, is_empty}
use bottlerocket_core_kit.Prelude.HashMap.{
  HashMap, text_key, get, or_new, get-update_entry, Distinct, Distinct-update_entry,
}
use bottlerocket_core_kit.Whippet.Rule.{
  Rule, connect_user, own, send, receive, Context, no_rules, is_connect, get_priority,
}
use bottlerocket_core_kit.Whippet.Policy.{extend}
use bottlerocket_core_kit.Whippet.Connect.{
  push_popped, rules_of, clean_connect_rules, clean_user, clean_users,
}
use bottlerocket_core_kit.Whippet.Connect.Threshold.{max_nat, highest, highest-append}
use bottlerocket_core_kit.Whippet.Connect.Winner.{
  last_connect, verdict_of, or_else, first_at, clean-snoc,
}
use bottlerocket_core_kit.Whippet.Connect.Moved.{is_for}

pub rules_of-extend :
    (more : List Rule) (o : Option Context)
    → (extend more (or_new no_rules o)).rules ≡ rules_of o ++ more
rules_of-extend more none = refl
rules_of-extend more (some c) = refl

pub rules_of-push :
    (u : Text) (a : Bool) (user : Text) (p : ℕ) (rules : List Rule) (m : HashMap Text Context)
    → rules_of (get u (push_popped (connect_user a user p ∷ rules) m)) ≡ (
        if text_eq user u
        then rules_of (get u (push_popped rules m)) ++ (connect_user a user p ∷ [])
        else rules_of (get u (push_popped rules m)))
unfolding push_popped
rules_of-push u a user p rules m =
    ap rules_of
      (get-update_entry (extend (connect_user a user p ∷ [])) no_rules user u (push_popped rules m))
    ∙ elim (Bool-cases (text_eq user u)) [
      | inl hit ↦
          rw hit (rules_of-extend (connect_user a user p ∷ []) (get u (push_popped rules m)))
      | inr miss ↦ rw miss refl
    ]

last-added :
    (t : ℕ) (a : Bool) (user : Text) (p : ℕ) (before rules : List Rule) (base : Option (Bool × ℕ))
    → last_connect (clean_connect_rules t before) ≡ or_else (first_at t rules) base
    → or_else
        (last_connect (clean_connect_rules t (connect_user a user p ∷ [])))
        (last_connect (clean_connect_rules t before))
      ≡ or_else (first_at t (connect_user a user p ∷ rules)) base
unfolding first_at is_connect get_priority verdict_of last_connect clean_connect_rules
last-added t a user p before rules base h = elim (Bool-cases (p == t)) [
  | inl same ↦ rw same refl
  | inr other ↦ rw other h
]

module _ (u : Text) (m : HashMap Text Context) where
  pub highest-push :
      (rules : List Rule)
      → highest (rules_of (get u (push_popped rules m)))
        ≡ max_nat (highest (rules_of (get u m))) (highest (filter_by (is_for u) rules))
  unfolding push_popped is_for highest is_connect get_priority
  highest-push [] = ground arith
  highest-push (connect_user a user p ∷ rules) =
      let before = rules_of (get u (push_popped rules m)) in
      let added = highest-append before (connect_user a user p ∷ []) in
      ap highest (rules_of-push u a user p rules m) ∙ elim (Bool-cases (text_eq user u)) [
        | inl hit ↦
            rw hit (added ∙ ap (λ k. max_nat k (max_nat p 0)) (highest-push rules) ∙ ground arith)
        | inr miss ↦ rw miss (highest-push rules)
      ]
  highest-push (own _ _ _ ∷ rules) = highest-push rules
  highest-push (send _ _ _ _ _ _ _ _ ∷ rules) = highest-push rules
  highest-push (receive _ _ _ _ _ _ _ _ ∷ rules) = highest-push rules

  pub last-push :
      (t : ℕ) (rules : List Rule)
      → last_connect (clean_connect_rules t (rules_of (get u (push_popped rules m))))
        ≡ or_else
            (first_at t (filter_by (is_for u) rules))
            (last_connect (clean_connect_rules t (rules_of (get u m))))
  unfolding push_popped is_for first_at is_connect get_priority verdict_of
  last-push t [] = refl
  last-push t (connect_user a user p ∷ rules) =
      let before = rules_of (get u (push_popped rules m)) in
      ap (λ l. last_connect (clean_connect_rules t l)) (rules_of-push u a user p rules m)
      ∙ elim (Bool-cases (text_eq user u)) [
        | inl hit ↦ rw hit (
            clean-snoc t before (connect_user a user p)
            ∙ last-added t a user p before (filter_by (is_for u) rules) _ (last-push t rules))
        | inr miss ↦ rw miss (last-push t rules)
      ]
  last-push t (own _ _ _ ∷ rules) = last-push t rules
  last-push t (send _ _ _ _ _ _ _ _ ∷ rules) = last-push t rules
  last-push t (receive _ _ _ _ _ _ _ _ ∷ rules) = last-push t rules

pub Distinct-push_popped :
    (rules : List Rule) (m : HashMap Text Context) → Distinct m → Distinct (push_popped rules m)
unfolding push_popped
Distinct-push_popped [] m d = d
Distinct-push_popped (connect_user a user p ∷ rules) m d =
    Distinct-update_entry (extend (connect_user a user p ∷ [])) no_rules user (push_popped rules m)
      (Distinct-push_popped rules m d)
Distinct-push_popped (own _ _ _ ∷ rules) m d = Distinct-push_popped rules m d
Distinct-push_popped (send _ _ _ _ _ _ _ _ ∷ rules) m d = Distinct-push_popped rules m d
Distinct-push_popped (receive _ _ _ _ _ _ _ _ ∷ rules) m d = Distinct-push_popped rules m d

clean_user_nothing : (t : ℕ) → clean_user t [] ≡ []
unfolding clean_user clean_connect_rules
clean_user_nothing t = refl

pub no_elements : {A : Type 0} (l : List A) → is_empty l ≡ true → l ≡ []
no_elements [] h = refl
no_elements (_ ∷ _) h = cc

pub rules_of-clean_users :
    (t : ℕ) (u : Text) (m : HashMap Text Context)
    → Distinct m
    → rules_of (get u (clean_users t m)) ≡ clean_user t (rules_of (get u m))
unfolding clean_users get
rules_of-clean_users t u [] d = sym (clean_user_nothing t)
rules_of-clean_users t u ((j, c) ∷ rest) (fresh, d) =
    let later = rules_of-clean_users t u rest d in
    elim (Bool-cases (text_eq j u)) [
      | inl here ↦
          let gone : get u rest ≡ none = ap (λ k. get k rest) (sym (text_eq→eq j u here)) ∙ fresh in
          elim (Bool-cases (is_empty (clean_user t c.rules))) [
            | inl none_left ↦
                rw (none_left, here)
                  (later
                    ∙ ap (λ o. clean_user t (rules_of o)) gone
                    ∙ clean_user_nothing t
                    ∙ sym (no_elements (clean_user t c.rules) none_left))
            | inr some_left ↦ rw (some_left, here) refl
          ]
      | inr other ↦ elim (Bool-cases (is_empty (clean_user t c.rules))) [
        | inl none_left ↦ rw (none_left, other) later
        | inr some_left ↦ rw (some_left, other) later
      ]
    ]
