-- ===== src/Whippet/Connect/Winner.antt =====
-- Which connect rule is left when only those of the highest priority stay, as `optimize` of
-- policy.rs leaves them.
use bottlerocket_core_kit.Prelude.{
  ℕ, ◌<◌, ◌≡◌, refl, ◌∙◌, ap, Bool, true, false, Option, none, some, List, [], ◌∷◌, ◌++◌, inl, inr,
  filter_by-append, ◌⊎◌, arith, if◌then◌else◌, Bool-cases, Option-cases, ◌==◌,
}
use bottlerocket_core_kit.Prelude.Text.{Text}
use bottlerocket_core_kit.Whippet.Rule.{
  Rule, connect_user, own, send, receive, get_priority, is_connect,
}
use bottlerocket_core_kit.Whippet.Connect.{clean_connect_rules}
use bottlerocket_core_kit.Whippet.Connect.Threshold.{max_nat, highest}

-- The verdict and the priority that a connect rule gives.
unfoldable pub verdict_of : Rule → Option (Bool × ℕ)
verdict_of (connect_user allow _ priority) = some (allow, priority)
verdict_of _ = none

abbrev pub or_else {ℓ} : {A : Type ℓ} → Option A → Option A → Option A
or_else (some a) _ = some a
or_else none b = b

-- What the last connect rule of a list gives.
unfoldable pub last_connect : List Rule → Option (Bool × ℕ)
unfolding verdict_of
last_connect [] = none
last_connect (r ∷ rules) = or_else (last_connect rules) (verdict_of r)

pub last_connect-append :
    (xs ys : List Rule) → last_connect (xs ++ ys) ≡ or_else (last_connect ys) (last_connect xs)
unfolding last_connect
last_connect-append [] ys = ground arith
last_connect-append (x ∷ xs) ys = rw (last_connect-append xs ys) (ground arith)

-- The priorities of the connect rules grow along the list, from above `bound`.
abbrev pub Rising : ℕ → List Rule → Type 0
Rising bound [] = Unit
Rising bound (connect_user _ _ priority ∷ rules) = (bound < priority) × Rising priority rules
Rising bound (_ ∷ rules) = Rising bound rules

-- A list of rising priorities has no connect rule, or has its highest priority above the bound
-- and a last connect rule of that priority.
abbrev pub Top : ℕ → ℕ → Option (Bool × ℕ) → Type 0
Top bound top found =
    ((top ≡ 0) × (found ≡ none)) ⊎ ((bound < top) × ((allow : Bool) × (found ≡ some (allow, top))))

Top-connect :
    (bound priority top : ℕ) (allow : Bool) (found : Option (Bool × ℕ))
    → bound < priority
    → Top priority top found
    → Top bound (max_nat priority top) (or_else found (some (allow, priority)))
Top-connect bound priority top allow found above (inl (zeroed, quiet)) =
    let same : max_nat priority top ≡ priority = ground arith in
    inr (rw same above, (allow, rw (quiet, same) refl))
Top-connect bound priority top allow found above (inr (more, (winner, e))) =
    let same : max_nat priority top ≡ top = ground arith in
    inr (rw same (omega arith), (winner, rw (e, same) refl))

or_else-Top :
    (bound : ℕ) (rules : List Rule)
    → Top bound (highest rules) (last_connect rules)
    → Top bound (highest rules) (or_else (last_connect rules) none)
or_else-Top bound rules (inl (zeroed, quiet)) = inl (zeroed, rw quiet refl)
or_else-Top bound rules (inr (more, (winner, e))) = inr (more, (winner, rw e refl))

-- With a threshold above every priority no connect rule is left.
pub clean-above :
    (t : ℕ) (rules : List Rule)
    → highest rules < t
    → last_connect (clean_connect_rules t rules) ≡ none
unfolding clean_connect_rules highest last_connect is_connect get_priority verdict_of
clean-above t [] h = refl
clean-above t (connect_user allow user priority ∷ rules) h =
    let other : (priority == t) ≡ false = ground arith in
    rw other (clean-above t rules (ground arith))
clean-above t (own _ _ _ ∷ rules) h = rw (clean-above t rules h) refl
clean-above t (send _ _ _ _ _ _ _ _ ∷ rules) h = rw (clean-above t rules h) refl
clean-above t (receive _ _ _ _ _ _ _ _ ∷ rules) h = rw (clean-above t rules h) refl

-- The first connect rule of a priority.
unfoldable pub first_at : ℕ → List Rule → Option (Bool × ℕ)
first_at t [] = none
first_at t (r ∷ rules) =
    let rest = first_at t rules in
    if is_connect r then (if get_priority r == t then verdict_of r else rest) else rest

pub clean-snoc :
    (t : ℕ) (xs : List Rule) (r : Rule)
    → last_connect (clean_connect_rules t (xs ++ (r ∷ [])))
      ≡ or_else
          (last_connect (clean_connect_rules t (r ∷ [])))
          (last_connect (clean_connect_rules t xs))
unfolding clean_connect_rules
clean-snoc t xs r =
    ap last_connect (filter_by-append _ xs (r ∷ []))
    ∙ last_connect-append (clean_connect_rules t xs) (clean_connect_rules t (r ∷ []))

pub Rising-Top :
    (bound : ℕ) (rules : List Rule)
    → Rising bound rules
    → Top bound (highest rules) (last_connect rules)
unfolding highest last_connect is_connect get_priority verdict_of
Rising-Top bound [] h = inl (refl, refl)
Rising-Top bound (connect_user allow user priority ∷ rules) (above, rest) =
    Top-connect bound priority (highest rules) allow (last_connect rules) above
      (Rising-Top priority rules rest)
Rising-Top bound (own _ _ _ ∷ rules) h = or_else-Top bound rules (Rising-Top bound rules h)
Rising-Top bound (send _ _ _ _ _ _ _ _ ∷ rules) h =
    or_else-Top bound rules (Rising-Top bound rules h)
Rising-Top bound (receive _ _ _ _ _ _ _ _ ∷ rules) h =
    or_else-Top bound rules (Rising-Top bound rules h)

pub first_at-above : (t : ℕ) (rules : List Rule) → highest rules < t → first_at t rules ≡ none
unfolding first_at highest is_connect get_priority
first_at-above t [] h = refl
first_at-above t (connect_user allow user priority ∷ rules) h =
    let other : (priority == t) ≡ false = ground arith in
    rw other (first_at-above t rules (ground arith))
first_at-above t (own _ _ _ ∷ rules) h = first_at-above t rules h
first_at-above t (send _ _ _ _ _ _ _ _ ∷ rules) h = first_at-above t rules h
first_at-above t (receive _ _ _ _ _ _ _ _ ∷ rules) h = first_at-above t rules h

-- Under rising priorities the first rule of the highest priority is the last connect rule,
pub first_at-highest :
    (bound : ℕ) (rules : List Rule)
    → Rising bound rules
    → first_at (highest rules) rules ≡ last_connect rules
unfolding first_at highest is_connect get_priority last_connect verdict_of
first_at-highest bound [] h = refl
first_at-highest bound (connect_user allow user priority ∷ rules) (above, rest) =
    elim (Rising-Top priority rules rest) [
      | inl (zeroed, quiet) ↦ ground arith
      | inr (more, (winner, e)) ↦
          let top : max_nat priority (highest rules) ≡ highest rules = ground arith in
          let other : (priority == highest rules) ≡ false = ground arith in
          ap (λ t. if priority == t then some (allow, priority) else first_at t rules) top
          ∙ rw (other, first_at-highest priority rules rest, e) refl
    ]
first_at-highest bound (own _ _ _ ∷ rules) h = ground (arith, first_at-highest bound rules h)
first_at-highest bound (send _ _ _ _ _ _ _ _ ∷ rules) h =
    ground (arith, first_at-highest bound rules h)
first_at-highest bound (receive _ _ _ _ _ _ _ _ ∷ rules) h =
    ground (arith, first_at-highest bound rules h)

clean_nothing : (t : ℕ) → last_connect (clean_connect_rules t []) ≡ none
unfolding last_connect clean_connect_rules
clean_nothing t = refl

-- Rules of the other kinds stay, and leave the last connect rule.
clean_other :
    (t : ℕ) (r : Rule) (rules : List Rule)
    → verdict_of r ≡ none
    → last_connect (clean_connect_rules t (r ∷ rules)) ≡ last_connect (clean_connect_rules t rules)
unfolding is_connect last_connect verdict_of clean_connect_rules
clean_other t (connect_user _ _ _) rules h = cc
clean_other t (own n a p) rules h =
    ground (arith, Option-cases (last_connect (clean_connect_rules t rules)))
clean_other t (send d i m k p b a q) rules h =
    ground (arith, Option-cases (last_connect (clean_connect_rules t rules)))
clean_other t (receive r p i m k b a q) rules h =
    ground (arith, Option-cases (last_connect (clean_connect_rules t rules)))

pub clean-connect :
    (t : ℕ) (allow : Bool) (user : Text) (priority : ℕ) (rules : List Rule)
    → last_connect (clean_connect_rules t (connect_user allow user priority ∷ rules)) ≡ (
        if priority == t
        then or_else (last_connect (clean_connect_rules t rules)) (some (allow, priority))
        else last_connect (clean_connect_rules t rules))
unfolding is_connect get_priority last_connect verdict_of clean_connect_rules
clean-connect t allow user priority rules = elim (Bool-cases (priority == t)) [
  | inl same ↦ rw same refl
  | inr other ↦ rw other refl
]

-- and the rules that stay at the highest priority leave it.
pub clean-highest :
    (bound : ℕ) (rules : List Rule)
    → Rising bound rules
    → last_connect (clean_connect_rules (highest rules) rules) ≡ last_connect rules
unfolding highest is_connect get_priority last_connect verdict_of
clean-highest bound [] h = clean_nothing 0
clean-highest bound (connect_user allow user priority ∷ rules) (above, rest) =
    clean-connect (max_nat priority (highest rules)) allow user priority rules
    ∙ elim (Rising-Top priority rules rest) [
      | inl (zeroed, quiet) ↦
          let top : max_nat priority (highest rules) ≡ priority = ground arith in
          let same : (priority == priority) ≡ true = ground arith in
          rw (top, same, quiet, clean-above priority rules (omega arith)) refl
      | inr (more, (winner, e)) ↦
          let top : max_nat priority (highest rules) ≡ highest rules = ground arith in
          let other : (priority == highest rules) ≡ false = ground arith in
          rw (top, other, clean-highest priority rules rest, e) refl
    ]
clean-highest bound (own n a p ∷ rules) h =
    clean_other (highest rules) (own n a p) rules refl ∙ ground (arith, clean-highest bound rules h)
clean-highest bound (send d i m t p b a q ∷ rules) h =
    clean_other (highest rules) (send d i m t p b a q) rules refl
    ∙ ground (arith, clean-highest bound rules h)
clean-highest bound (receive r p i m t b a q ∷ rules) h =
    clean_other (highest rules) (receive r p i m t b a q) rules refl
    ∙ ground (arith, clean-highest bound rules h)
