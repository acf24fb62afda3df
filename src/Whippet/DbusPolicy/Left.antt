-- ===== src/Whippet/DbusPolicy/Left.antt =====
-- The connect rules that `prepare` and `optimize` of policy.rs leave to one user.
use bottlerocket_core_kit.Prelude.{
  ℕ, ◌≡◌, refl, ◌∙◌, ap, false, none, List, [], ◌∷◌, inl, inr, arith, if◌then◌else◌, Bool-cases,
  Option-cases, ltb, filter_by,
}
use bottlerocket_core_kit.Prelude.Text.{Text, text_eq}
use bottlerocket_core_kit.Prelude.HashMap.{HashMap, text_key, get, Distinct}
use bottlerocket_core_kit.Whippet.Rule.{Rule, connect_user, own, send, receive, Context, is_connect}
use bottlerocket_core_kit.Whippet.Policy.{any_connect}
use bottlerocket_core_kit.Whippet.Connect.{
  is_extracted, push_popped, rules_of, find_priority_threshold, clean_connect_rules, clean_user,
}
use bottlerocket_core_kit.Whippet.Connect.Threshold.{
  max_nat, highest, find_priority_threshold-highest,
}
use bottlerocket_core_kit.Whippet.Connect.Winner.{
  Rising, last_connect, verdict_of, first_at, first_at-above, first_at-highest,
}
use bottlerocket_core_kit.Whippet.Connect.Moved.{is_for, kept, moved, Rising-filter_by}
use bottlerocket_core_kit.Whippet.Connect.Users.{highest-push, last-push}
use bottlerocket_core_kit.Whippet.DbusPolicy.Verdict.{AreUids}
use bottlerocket_core_kit.Whippet.DbusPolicy.Uids.{NameUids}

-- No context has a connect rule.
abbrev pub AreQuiet : HashMap Text Context → Type 0
AreQuiet [] = Unit
AreQuiet ((_, c) ∷ rest) = (any_connect c.rules ≡ false) × AreQuiet rest

-- What `Policy::new` makes: the connect rules of the default context have rising priorities, the
-- users' contexts have none, no user has two contexts, and users are named by their IDs.
pub record IsLoaded (rules : List Rule) (users : HashMap Text Context) : Type 0 where
  pub rising : Rising 0 rules
  pub named : NameUids rules
  pub distinct : Distinct users
  pub uids : AreUids users
  pub quiet : AreQuiet users

quiet_rules :
    (t : ℕ) (rules : List Rule)
    → any_connect rules ≡ false
    → (last_connect (clean_connect_rules t rules) ≡ none) × (highest rules ≡ 0)
unfolding last_connect highest clean_connect_rules is_connect verdict_of
quiet_rules t [] h = (refl, refl)
quiet_rules t (connect_user _ _ _ ∷ rules) h = cc
quiet_rules t (own n a p ∷ rules) h =
    let (gone, zeroed) = quiet_rules t rules h in (rw gone refl, zeroed)
quiet_rules t (send d i m k p b a q ∷ rules) h =
    let (gone, zeroed) = quiet_rules t rules h in (rw gone refl, zeroed)
quiet_rules t (receive s p i m k b a q ∷ rules) h =
    let (gone, zeroed) = quiet_rules t rules h in (rw gone refl, zeroed)

quiet_user :
    (t : ℕ) (u : Text) (m : HashMap Text Context)
    → AreQuiet m
    → (last_connect (clean_connect_rules t (rules_of (get u m))) ≡ none)
      × (highest (rules_of (get u m)) ≡ 0)
unfolding get
quiet_user t u [] h = quiet_rules t [] refl
quiet_user t u ((j, c) ∷ m) (here, rest) = elim (Bool-cases (text_eq j u)) [
  | inl hit ↦ rw hit (quiet_rules t c.rules here)
  | inr miss ↦ rw miss (quiet_user t u m rest)
]

left_at :
    (u : Text) (users : HashMap Text Context)
    → AreQuiet users
    → (t : ℕ) (taken : List Rule)
    → last_connect (clean_connect_rules t (rules_of (get u (push_popped taken users))))
      ≡ first_at t (filter_by (is_for u) taken)
left_at u users quiet t taken =
    last-push u users t taken
    ∙ rw (quiet_user t u users quiet).0
        (ground (arith, Option-cases (first_at t (filter_by (is_for u) taken))))

-- What is left to a user after `prepare` and `optimize`: the last of the rules that moved, unless
-- one that stayed in the default context came after it.
pub user_left :
    (u : Text) (rules : List Rule) (users : HashMap Text Context)
    → IsLoaded rules users
    → last_connect (
        clean_user
          (highest (kept rules))
          (rules_of (get u (push_popped (filter_by is_extracted rules) users))))
      ≡ (if ltb (highest (moved u rules)) (highest (kept rules))
          then none
          else last_connect (moved u rules))
unfolding clean_user
user_left u rules users l =
    let taken = filter_by is_extracted rules in
    let all = rules_of (get u (push_popped taken users)) in
    let threshold = highest (kept rules) in
    let top = highest (moved u rules) in
    let own_top : find_priority_threshold all ≡ top =
      find_priority_threshold-highest all
      ∙ highest-push u users taken
      ∙ ap (λ k. max_nat k top) (quiet_user 0 u users l.quiet).1
      ∙ ground arith in
    let rising =
      Rising-filter_by (is_for u) 0 taken (Rising-filter_by is_extracted 0 rules l.rising) in
    ap
      (λ own. last_connect (clean_connect_rules (if ltb own threshold then threshold else own) all))
      own_top
    ∙ elim (Bool-cases (ltb top threshold)) [
      | inl later ↦ rw later (
          left_at u users l.quiet threshold taken
          ∙ first_at-above threshold (moved u rules) (ground arith))
      | inr first ↦
          rw first (left_at u users l.quiet top taken ∙ first_at-highest 0 (moved u rules) rising)
    ]
