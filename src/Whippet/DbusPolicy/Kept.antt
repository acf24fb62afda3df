-- ===== src/Whippet/DbusPolicy/Kept.antt =====
-- `prepare`, `optimize` and the conversion of sources/whippet keep the own, send and receive rules.
use bottlerocket_core_kit.Prelude.{
  ℕ, ◌≡◌, refl, ◌∙◌, ap, Bool, true, false, not, List, [], ◌∷◌, ◌++◌, inl, inr, arith, Bool-cases,
  filter_by,
}
use bottlerocket_core_kit.Prelude.Text.{Text, text_eq}
use bottlerocket_core_kit.Prelude.HashMap.{HashMap, text_key, get}
use bottlerocket_core_kit.Whippet.Rule.{Rule, connect_user, own, send, receive, Context, is_connect}
use bottlerocket_core_kit.Whippet.Connect.{
  is_extracted, push_popped, rules_of, clean_connect_rules, clean_user, clean_users,
}
use bottlerocket_core_kit.Whippet.Connect.Users.{
  rules_of-push, rules_of-clean_users, Distinct-push_popped,
}
use bottlerocket_core_kit.Whippet.Connect.Moved.{kept}
use bottlerocket_core_kit.Whippet.DbusPolicy.Left.{IsLoaded}
use bottlerocket_core_kit.Whippet.DbusPolicy.Records.{
  gathered, own_of, send_of, receive_of, append_nothing, gathered-filter_by, gathered-append,
}

extracted_connects : (r : Rule) → not (is_extracted r) ≡ false → is_connect r ≡ true
unfolding is_extracted is_connect
extracted_connects (connect_user _ _ _) h = refl
extracted_connects (own _ _ _) h = cc
extracted_connects (send _ _ _ _ _ _ _ _) h = cc
extracted_connects (receive _ _ _ _ _ _ _ _) h = cc

connect_nothing :
    {A : Type 0} (pick : Rule → List A)
    → ((r : Rule) → is_connect r ≡ true → pick r ≡ [])
    → (a : Bool) (user : Text) (p : ℕ) → gathered pick (connect_user a user p ∷ []) ≡ []
unfolding gathered is_connect
connect_nothing pick no_connect a user p = rw (no_connect (connect_user a user p) refl) refl

pub no_own : (r : Rule) → is_connect r ≡ true → own_of r ≡ []
unfolding own_of is_connect
no_own (connect_user _ _ _) h = refl
no_own (own _ _ _) h = cc
no_own (send _ _ _ _ _ _ _ _) h = cc
no_own (receive _ _ _ _ _ _ _ _) h = cc

pub no_send : (r : Rule) → is_connect r ≡ true → send_of r ≡ []
unfolding send_of is_connect
no_send (connect_user _ _ _) h = refl
no_send (own _ _ _) h = cc
no_send (send _ _ _ _ _ _ _ _) h = cc
no_send (receive _ _ _ _ _ _ _ _) h = cc

pub no_receive : (r : Rule) → is_connect r ≡ true → receive_of r ≡ []
unfolding receive_of is_connect
no_receive (connect_user _ _ _) h = refl
no_receive (own _ _ _) h = cc
no_receive (send _ _ _ _ _ _ _ _) h = cc
no_receive (receive _ _ _ _ _ _ _ _) h = cc

module _ {A : Type 0} (pick : Rule → List A)
    (no_connect : (r : Rule) → is_connect r ≡ true → pick r ≡ []) where
  pub gathered-clean :
      (t : ℕ) (rules : List Rule)
      → gathered pick (clean_connect_rules t rules) ≡ gathered pick rules
  unfolding clean_connect_rules
  gathered-clean t rules =
      gathered-filter_by pick no_connect _ (λ r h. ground (arith, Bool-cases (is_connect r))) rules

  pub gathered-kept : (rules : List Rule) → gathered pick (kept rules) ≡ gathered pick rules
  gathered-kept rules = gathered-filter_by pick no_connect _ extracted_connects rules

  gathered-push :
      (u : Text) (rules : List Rule) (m : HashMap Text Context)
      → gathered pick (rules_of (get u (push_popped rules m))) ≡ gathered pick (rules_of (get u m))
  unfolding push_popped
  gathered-push u [] m = refl
  gathered-push u (connect_user a user p ∷ rules) m =
      let before = rules_of (get u (push_popped rules m)) in
      ap (gathered pick) (rules_of-push u a user p rules m) ∙ elim (Bool-cases (text_eq user u)) [
        | inl hit ↦ rw hit (
            gathered-append pick no_connect before (connect_user a user p ∷ [])
            ∙ ap (λ l. gathered pick before ++ l) (connect_nothing pick no_connect a user p)
            ∙ append_nothing (gathered pick before)
            ∙ gathered-push u rules m)
        | inr miss ↦ rw miss (gathered-push u rules m)
      ]
  gathered-push u (own _ _ _ ∷ rules) m = gathered-push u rules m
  gathered-push u (send _ _ _ _ _ _ _ _ ∷ rules) m = gathered-push u rules m
  gathered-push u (receive _ _ _ _ _ _ _ _ ∷ rules) m = gathered-push u rules m

  -- What is gathered from a user's context is the same before and after.
  pub gathered_left :
      (u : Text) (t : ℕ) (rules : List Rule) (users : HashMap Text Context)
      → IsLoaded rules users
      → gathered pick
          (rules_of (get u (clean_users t (push_popped (filter_by is_extracted rules) users))))
        ≡ gathered pick (rules_of (get u users))
  unfolding clean_user
  gathered_left u t rules users l =
      let taken = filter_by is_extracted rules in
      let pushed = push_popped taken users in
      ap (gathered pick)
        (rules_of-clean_users t u pushed (Distinct-push_popped taken users l.distinct))
      ∙ gathered-clean _ (rules_of (get u pushed))
      ∙ gathered-push u taken users
