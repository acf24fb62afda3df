-- ===== src/Whippet/Connect/Moved.antt =====
-- The connect rules that apply to a user, and where `prepare` of policy.rs moves them.
use bottlerocket_core_kit.Prelude.{
  ℕ, ◌<◌, ◌≤◌, ◌≡◌, refl, ◌∙◌, sym, ap, Bool, true, false, not, ◌||◌, Option, none, some, List, [],
  ◌∷◌, inl, inr, arith, ltb, filter_by, if◌then◌else◌, Bool-cases, Option-cases, false≢true,
}
use bottlerocket_core_kit.Prelude.Text.{Text, text_eq, text_eq→eq}
use bottlerocket_core_kit.Prelude.Decimal.{to_decimal}
use bottlerocket_core_kit.Whippet.Rule.{
  Rule, connect_user, own, send, receive, default_user_id, is_connect, get_priority,
}
use bottlerocket_core_kit.Whippet.Connect.{is_extracted}
use bottlerocket_core_kit.Whippet.Connect.Threshold.{max_nat, highest}
use bottlerocket_core_kit.Whippet.Connect.Winner.{
  Rising, Top, Rising-Top, last_connect, verdict_of, or_else,
}

abbrev pub any_user : Text
any_user = to_decimal default_user_id

unfoldable pub is_for : Text → Rule → Bool
is_for u (connect_user _ user _) = text_eq user u
is_for u _ = false

abbrev pub applies_to : Text → Rule → Bool
applies_to u r = is_for u r || is_for any_user r

-- The last rule that names the user or all users, in the order in which the rules are read.
unfoldable pub winner : Text → List Rule → Option (Bool × ℕ)
winner u rules = last_connect (filter_by (applies_to u) rules)

abbrev pub kept : List Rule → List Rule
kept rules = filter_by (λ r. not (is_extracted r)) rules

abbrev pub moved : Text → List Rule → List Rule
moved u rules = filter_by (is_for u) (filter_by is_extracted rules)

pub Rising-lower :
    (low bound : ℕ) (rules : List Rule) → low ≤ bound → Rising bound rules → Rising low rules
Rising-lower low bound [] l h = tt
Rising-lower low bound (connect_user _ _ p ∷ rules) l (above, rest) = (omega arith, rest)
Rising-lower low bound (own _ _ _ ∷ rules) l h = Rising-lower low bound rules l h
Rising-lower low bound (send _ _ _ _ _ _ _ _ ∷ rules) l h = Rising-lower low bound rules l h
Rising-lower low bound (receive _ _ _ _ _ _ _ _ ∷ rules) l h = Rising-lower low bound rules l h

pub Rising-filter_by :
    (test : Rule → Bool) (bound : ℕ) (rules : List Rule)
    → Rising bound rules
    → Rising bound (filter_by test rules)
Rising-filter_by test bound [] h = tt
Rising-filter_by test bound (connect_user a u p ∷ rules) (above, rest) =
    let later = Rising-filter_by test p rules rest in
    elim (Bool-cases (test (connect_user a u p))) [
      | inl keep ↦ rw keep (above, later)
      | inr skip ↦ rw skip (Rising-lower bound p (filter_by test rules) (omega arith) later)
    ]
Rising-filter_by test bound (own n a p ∷ rules) h =
    let later = Rising-filter_by test bound rules h in
    elim (Bool-cases (test (own n a p))) [ inl keep ↦ rw keep later | inr skip ↦ rw skip later ]
Rising-filter_by test bound (send d i m t p b a q ∷ rules) h =
    let later = Rising-filter_by test bound rules h in
    elim (Bool-cases (test (send d i m t p b a q))) [
      | inl keep ↦ rw keep later
      | inr skip ↦ rw skip later
    ]
Rising-filter_by test bound (receive s p i m t b a q ∷ rules) h =
    let later = Rising-filter_by test bound rules h in
    elim (Bool-cases (test (receive s p i m t b a q))) [
      | inl keep ↦ rw keep later
      | inr skip ↦ rw skip later
    ]

-- The higher of two lists wins; of two empty ones neither.
abbrev pub merged : ℕ → ℕ → Option (Bool × ℕ) → Option (Bool × ℕ) → Option (Bool × ℕ)
merged own_top default_top own_last default_last =
    if ltb own_top default_top then default_last else or_else own_last default_last

module _ (p : ℕ) (allow : Bool) (positive : 0 < p) where
  merged-default :
      (b k : ℕ) (of_b of_k : Option (Bool × ℕ))
      → Top p b of_b
      → Top p k of_k
      → or_else (merged b k of_b of_k) (some (allow, p))
        ≡ merged b (max_nat p k) of_b (or_else of_k (some (allow, p)))
  merged-default b k of_b of_k (inl (bz, bn)) (inl (kz, kn)) = rw (bn, kn) (ground arith)
  merged-default b k of_b of_k (inl (bz, bn)) (inr (kp, (w, e))) = rw (bn, e) (ground arith)
  merged-default b k of_b of_k (inr (bp, (v, f))) (inl (kz, kn)) = rw (f, kn) (ground arith)
  merged-default b k of_b of_k (inr (bp, (v, f))) (inr (kp, (w, e))) = rw (f, e) (ground arith)

  merged-own :
      (b k : ℕ) (of_b of_k : Option (Bool × ℕ))
      → Top p b of_b
      → Top p k of_k
      → or_else (merged b k of_b of_k) (some (allow, p))
        ≡ merged (max_nat p b) k (or_else of_b (some (allow, p))) of_k
  merged-own b k of_b of_k (inl (bz, bn)) (inl (kz, kn)) = rw (bn, kn) (ground arith)
  merged-own b k of_b of_k (inl (bz, bn)) (inr (kp, (w, e))) = rw (bn, e) (ground arith)
  merged-own b k of_b of_k (inr (bp, (v, f))) (inl (kz, kn)) = rw (f, kn) (ground arith)
  merged-own b k of_b of_k (inr (bp, (v, f))) (inr (kp, (w, e))) = rw (f, e) (ground arith)

-- What is left of the rules that were moved and of those that stayed.
abbrev pub merged_lists : List Rule → List Rule → Option (Bool × ℕ)
merged_lists own_rules default_rules =
    merged (highest own_rules) (highest default_rules) (last_connect own_rules)
      (last_connect default_rules)

kept-connect :
    (a : Bool) (user : Text) (p : ℕ) (rules : List Rule)
    → kept (connect_user a user p ∷ rules)
      ≡ (if text_eq user any_user then connect_user a user p ∷ kept rules else kept rules)
unfolding is_extracted
kept-connect a user p rules = elim (Bool-cases (text_eq user any_user)) [
  | inl same ↦ rw same refl
  | inr other ↦ rw other refl
]

moved-connect :
    (u : Text) (a : Bool) (user : Text) (p : ℕ) (rules : List Rule)
    → moved u (connect_user a user p ∷ rules) ≡ (
        if text_eq user any_user
        then moved u rules
        else if text_eq user u
        then connect_user a user p ∷ moved u rules
        else moved u rules)
unfolding is_extracted is_for
moved-connect u a user p rules = elim (Bool-cases (text_eq user any_user)) [
  | inl same ↦ rw same refl
  | inr other ↦ elim (Bool-cases (text_eq user u)) [
    | inl hit ↦ rw (other, hit) refl
    | inr miss ↦ rw (other, miss) refl
  ]
]

winner-connect :
    (u : Text) (a : Bool) (user : Text) (p : ℕ) (rules : List Rule)
    → winner u (connect_user a user p ∷ rules) ≡ (
        if text_eq user u || text_eq user any_user
        then or_else (winner u rules) (some (a, p))
        else winner u rules)
unfolding winner is_for last_connect verdict_of
winner-connect u a user p rules = elim (Bool-cases (text_eq user u || text_eq user any_user)) [
  | inl hit ↦ rw hit refl
  | inr miss ↦ rw miss refl
]

winner_other :
    (u : Text) (r : Rule) (rules : List Rule)
    → verdict_of r ≡ none
    → winner u rules ≡ merged_lists (moved u rules) (kept rules)
    → winner u (r ∷ rules) ≡ merged_lists (moved u (r ∷ rules)) (kept (r ∷ rules))
unfolding winner is_for is_extracted verdict_of highest last_connect is_connect
winner_other u (connect_user _ _ _) rules h e = cc
winner_other u (own n a p) rules h e = e ∙ ground (arith, Option-cases (last_connect (kept rules)))
winner_other u (send d i m t p b a q) rules h e =
    e ∙ ground (arith, Option-cases (last_connect (kept rules)))
winner_other u (receive s p i m t b a q) rules h e =
    e ∙ ground (arith, Option-cases (last_connect (kept rules)))

module _ (u : Text) (named : text_eq u any_user ≡ false) where
  not_any : (user : Text) → text_eq user any_user ≡ true → text_eq user u ≡ false
  not_any user same = elim (Bool-cases (text_eq user u)) [
    | inl hit ↦
        absurd (
          false≢true
            (sym named ∙ ap (λ t. text_eq t any_user) (sym (text_eq→eq user u hit)) ∙ same))
    | inr miss ↦ miss
  ]

  tops :
      (bound : ℕ) (rules : List Rule)
      → Rising bound rules
      → Top bound (highest (moved u rules)) (last_connect (moved u rules))
        × Top bound (highest (kept rules)) (last_connect (kept rules))
  tops bound rules h = (
    Rising-Top bound (moved u rules) (
        Rising-filter_by (is_for u) bound (filter_by is_extracted rules)
          (Rising-filter_by is_extracted bound rules h)),
    Rising-Top bound (kept rules) (Rising-filter_by (λ r. not (is_extracted r)) bound rules h),
  )

  -- The winner comes from the rules that are moved to the user or from those that stay.
  pub winner-merged :
      (bound : ℕ) (rules : List Rule)
      → Rising bound rules
      → winner u rules ≡ merged_lists (moved u rules) (kept rules)
  unfolding winner highest last_connect is_connect get_priority verdict_of
  winner-merged bound [] h = refl
  winner-merged bound (connect_user a user p ∷ rules) (above, rest) =
      let before = winner-merged p rules rest in
      let (of_moved, of_kept) = tops p rules rest in
      let step =
        merged-default p a (omega arith) (highest (moved u rules)) (highest (kept rules))
          (last_connect (moved u rules)) (last_connect (kept rules)) of_moved of_kept in
      let step' =
        merged-own p a (omega arith) (highest (moved u rules)) (highest (kept rules))
          (last_connect (moved u rules)) (last_connect (kept rules)) of_moved of_kept in
      winner-connect u a user p rules ∙ elim (Bool-cases (text_eq user any_user)) [
        | inl same ↦
            rw
              (
                moved-connect u a user p rules,
                kept-connect a user p rules,
                not_any user same,
                same,
                before,
              )
              step
        | inr other ↦ elim (Bool-cases (text_eq user u)) [
          | inl hit ↦
              rw (moved-connect u a user p rules, kept-connect a user p rules, other, hit, before)
                step'
          | inr miss ↦
              rw (moved-connect u a user p rules, kept-connect a user p rules, other, miss, before)
                refl
        ]
      ]
  winner-merged bound (own n a p ∷ rules) h =
      winner_other u (own n a p) rules refl (winner-merged bound rules h)
  winner-merged bound (send d i m t p b a q ∷ rules) h =
      winner_other u (send d i m t p b a q) rules refl (winner-merged bound rules h)
  winner-merged bound (receive s p i m t b a q ∷ rules) h =
      winner_other u (receive s p i m t b a q) rules refl (winner-merged bound rules h)
