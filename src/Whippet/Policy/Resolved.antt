-- ===== src/Whippet/Policy/Resolved.antt =====
-- `Policy::new` of policy.rs makes a policy that `prepare` and `optimize` can work on.
use bottlerocket_core_kit.Prelude.{
  ℕ, ◌+◌, ◌^◌, ◌≤◌, ◌<◌, ◌≡◌, refl, ◌∙◌, sym, ap, subst, Bool-cases, inl, inr, false, Option, some,
  List, [], ◌∷◌, arith, map, filter_by,
}
use bottlerocket_core_kit.Prelude.Text.{Text, text_eq}
use bottlerocket_core_kit.Prelude.HashMap.{HashMap, text_key, or_new, put, Distinct, Distinct-put}
use bottlerocket_core_kit.Prelude.Decimal.{to_decimal}
use bottlerocket_core_kit.Prelude.Outcome.{Outcome, ok, ◌>>=◌, >>=-eq-ok, context}
use bottlerocket_core_kit.Whippet.Rule.{
  priority_base, Rule, connect_user, own, send, receive, Context, Policy, no_rules, Error,
  read_path,
}
use bottlerocket_core_kit.Whippet.Policy.{
  Files, load_policies, first_priority, empty_policy, any_connect, validate, validate_users,
  UsernameResolver, replace_connect, replace_default, replace_users, replace_uids, policy_paths,
  new_policy, collect, sort_names, extension, is_toml,
}
use bottlerocket_core_kit.Whippet.Policy.Priorities.{rule_count}
use bottlerocket_core_kit.Whippet.Policy.Merges.{default_rules, RisingTo→Rising}
use bottlerocket_core_kit.Whippet.Connect.Winner.{Rising}
use bottlerocket_core_kit.Whippet.DbusPolicy.Verdict.{AreUids}
use bottlerocket_core_kit.Whippet.DbusPolicy.Uids.{NameUids}
use bottlerocket_core_kit.Whippet.DbusPolicy.Left.{AreQuiet, IsLoaded}
use bottlerocket_core_kit.Whippet.Policy.Loaded.{
  HasDefault, load_policies-Counted, load-HasDefault, empty-Counted,
}

validate_users-AreQuiet :
    (users : HashMap Text Context) → validate_users users ≡ ok tt → AreQuiet users
unfolding validate_users
validate_users-AreQuiet [] h = tt
validate_users-AreQuiet ((u, c) ∷ users) h = elim (Bool-cases (any_connect c.rules)) [
  | inl found ↦ absurd (ground arith)
  | inr quiet ↦ (quiet, validate_users-AreQuiet users (rw (quiet, validate_users) at h))
]

validate-AreQuiet : (p : Policy) → validate p ≡ ok tt → AreQuiet (or_new [] p.user)
unfolding validate
validate-AreQuiet p h = validate_users-AreQuiet (or_new [] p.user) h

paths-HasDefault :
    (files : Files) (join : Text → Text → Text) (policy_file policies_dir : Text)
    (paths : List Text) (loaded : Policy) (last : ℕ)
    → policy_paths files join policy_file policies_dir ≡ ok paths
    → load_policies files paths empty_policy first_priority ≡ ok (loaded, last)
    → HasDefault loaded
unfolding policy_paths
paths-HasDefault files join policy_file policies_dir paths loaded last found read =
    let (entries, _, e1) =
      >>=-eq-ok (context (read_path policies_dir) (files.read_dir policies_dir)) _ found in
    let (names, _, e2) = >>=-eq-ok (collect policies_dir entries) _ e1 in
    let dropins =
      map (join policies_dir) (sort_names (filter_by (λ name. is_toml (extension name)) names)) in
    let same : policy_file ∷ dropins ≡ paths = cc in
    load-HasDefault files policy_file dropins empty_policy first_priority loaded last (
      subst (λ x. load_policies files x empty_policy first_priority ≡ ok (loaded, last)) (sym same)
        read)

AreUids-put :
    (uid : ℕ) (c : Context) (m : HashMap Text Context)
    → uid < 2 ^ 32
    → AreUids m
    → AreUids (put (to_decimal uid) c m)
unfolding put
AreUids-put uid c [] b h = ((uid, b, refl), tt)
AreUids-put uid c ((j, d) ∷ m) b (here, h) = elim (Bool-cases (text_eq j (to_decimal uid))) [
  | inl hit ↦ rw hit (here, h)
  | inr miss ↦ rw miss (here, AreUids-put uid c m b h)
]

AreQuiet-put :
    (k : Text) (c : Context) (m : HashMap Text Context)
    → any_connect c.rules ≡ false
    → AreQuiet m
    → AreQuiet (put k c m)
unfolding put
AreQuiet-put k c [] quiet h = (quiet, tt)
AreQuiet-put k c ((j, d) ∷ m) quiet (here, h) = elim (Bool-cases (text_eq j k)) [
  | inl hit ↦ rw hit (quiet, h)
  | inr miss ↦ rw miss (here, AreQuiet-put k c m quiet h)
]

-- What a resolver may be relied on: from a state that fits it gives 32-bit numbers, and a state
-- that fits again.
abbrev pub IsBounded : {S : Type 0} → UsernameResolver S → (S → Type 0) → Type 0
IsBounded {S} resolver Fits =
    (s s' : S) (name : Text) (uid : ℕ)
    → Fits s
    → resolver.resolve s name ≡ ok (uid, s')
    → (uid < 2 ^ 32) × Fits s'

module _ {S : Type 0} (resolver : UsernameResolver S) (Fits : S → Type 0)
    (bounded : IsBounded resolver Fits) where
  abbrev Resolved : ℕ → List Rule → Type 0
  Resolved bound rules = Rising bound rules × NameUids rules

  abbrev prefixed : Rule → Outcome Error (List Rule × S) → Outcome Error (List Rule × S)
  prefixed rule rest = do (rest, s) ← rest; ok (rule ∷ rest, s)

  replace_rest-inv :
      (s s' : S) (rule : Rule) (rules rules' : List Rule)
      → prefixed rule (replace_connect resolver s rules) ≡ ok (rules', s')
      → (rest : List Rule) × (replace_connect resolver s rules ≡ ok (rest, s'))
        × (rule ∷ rest ≡ rules')
  replace_rest-inv s s' rule rules rules' e =
      let ((rest, last), done, made) = >>=-eq-ok (replace_connect resolver s rules) _ e in
      let same : last ≡ s' = cc in
      (rest, subst (λ x. replace_connect resolver s rules ≡ ok (rest, x)) same done, cc)

  -- Replacing the names keeps the order of the priorities, and the names become user IDs.
  replace_connect-Resolved :
      (s s' : S) (bound : ℕ) (rules rules' : List Rule)
      → Fits s
      → replace_connect resolver s rules ≡ ok (rules', s')
      → Rising bound rules
      → Resolved bound rules' × Fits s'
  unfolding replace_connect
  replace_connect-Resolved s s' bound [] rules' f e h =
      let same : [] ≡ rules' = cc in
      let state : s ≡ s' = cc in (subst (Resolved bound) same (tt, tt), subst Fits state f)
  replace_connect-Resolved s s' bound (connect_user a u p ∷ rules) rules' f e (above, h) =
      let ((uid, t), named, e') = >>=-eq-ok (resolver.resolve s u) _ e in
      let (small, g) = bounded s t u uid f named in
      let (rest, done, same) =
        replace_rest-inv t s' (connect_user a (to_decimal uid) p) rules rules' e' in
      let ((rising, names), last) = replace_connect-Resolved t s' p rules rest g done h in
      (subst (Resolved bound) same ((above, rising), ((uid, small, refl), names)), last)
  replace_connect-Resolved s s' bound (own n a p ∷ rules) rules' f e h =
      let (rest, done, same) = replace_rest-inv s s' (own n a p) rules rules' e in
      let (good, last) = replace_connect-Resolved s s' bound rules rest f done h in
      (subst (Resolved bound) same good, last)
  replace_connect-Resolved s s' bound (send d i m t p b a q ∷ rules) rules' f e h =
      let (rest, done, same) = replace_rest-inv s s' (send d i m t p b a q) rules rules' e in
      let (good, last) = replace_connect-Resolved s s' bound rules rest f done h in
      (subst (Resolved bound) same good, last)
  replace_connect-Resolved s s' bound (receive n p i m t b a q ∷ rules) rules' f e h =
      let (rest, done, same) = replace_rest-inv s s' (receive n p i m t b a q) rules rules' e in
      let (good, last) = replace_connect-Resolved s s' bound rules rest f done h in
      (subst (Resolved bound) same good, last)

  abbrev Users : HashMap Text Context → Type 0
  Users m = Distinct m × AreUids m × AreQuiet m

  put-Users :
      (uid : ℕ) (c : Context) (m : HashMap Text Context)
      → uid < 2 ^ 32
      → any_connect c.rules ≡ false
      → Users m
      → Users (put (to_decimal uid) c m)
  put-Users uid c m b quiet (d, us, qs) = (
    Distinct-put (to_decimal uid) c m d,
    AreUids-put uid c m b us,
    AreQuiet-put (to_decimal uid) c m quiet qs,
  )

  replace_users-Users :
      (s s' : S) (final users final' : HashMap Text Context)
      → Fits s
      → replace_users resolver s final users ≡ ok (final', s')
      → AreQuiet users
      → Users final
      → Users final'
  unfolding replace_users
  replace_users-Users s s' final [] final' f e q h =
      let same : final ≡ final' = cc in subst Users same h
  replace_users-Users s s' final ((u, c) ∷ users) final' f e (quiet, q) h =
      let ((uid, t), named, rest) = >>=-eq-ok (resolver.resolve s u) _ e in
      let (small, g) = bounded s t u uid f named in
      replace_users-Users t s' (put (to_decimal uid) c final) users final' g rest q
        (put-Users uid c final small quiet h)

  replace_default-inv :
      (s t : S) (c : Context) (o : Option Context)
      → replace_default resolver s (some c) ≡ ok (o, t)
      → (rules : List Rule) × (replace_connect resolver s c.rules ≡ ok (rules, t))
        × (o ≡ some (record { rules = rules }))
  unfolding replace_default
  replace_default-inv s t c o e =
      let ((rules, last), done, made) = >>=-eq-ok (replace_connect resolver s c.rules) _ e in
      let same : last ≡ t = cc in
      (rules, subst (λ x. replace_connect resolver s c.rules ≡ ok (rules, x)) same done, cc)

  pub replace_uids-IsLoaded :
      (s s' : S) (p p' : Policy)
      → Fits s
      → HasDefault p
      → Rising 0 (default_rules p)
      → AreQuiet (or_new [] p.user)
      → replace_uids resolver s p ≡ ok (p', s')
      → (rules : List Rule) × (users : HashMap Text Context) × (p'
          ≡ record { default = some (record { rules = rules }); user = some users })
        × IsLoaded rules users
  unfolding replace_uids
  replace_uids-IsLoaded s s' p p' f (c, d) rising quiet e =
      let ((o, t), done, e1) = >>=-eq-ok (replace_default resolver s p.default) _ e in
      let ((users, last), all_done, made) =
        >>=-eq-ok (replace_users resolver t [] (or_new [] p.user)) _ e1 in
      let (rules, connected, default_some) =
        replace_default-inv s t c o
          (subst (λ x. replace_default resolver s x ≡ ok (o, t)) d done) in
      let of_default = subst (λ x. Rising 0 (or_new no_rules x).rules) d rising in
      let ((rising', names), g) =
        replace_connect-Resolved s t 0 c.rules rules f connected of_default in
      let (distinct, uids, still_quiet) =
        replace_users-Users t last [] (or_new [] p.user) users g all_done quiet (tt, tt, tt) in
      let result : record { default = o; user = some users } ≡ p' = cc in
      (
        rules,
        users,
        sym result ∙ ap (λ x. record { default = x; user = some users }) default_some,
        record {
          rising = rising';
          named = names;
          distinct = distinct;
          uids = uids;
          quiet = still_quiet;
        },
      )

-- `Policy::new` makes a policy with a default context in which the connect rules have rising
-- priorities and name user IDs; each user, named by its ID, has one context, without connect rules.
-- The resolver gives 32-bit numbers from the state it is in, and the files hold fewer rules than the base of the priorities.
pub new_policy-IsLoaded :
    (files : Files) {S : Type 0} (resolver : UsernameResolver S) (Fits : S → Type 0)
    → IsBounded resolver Fits
    → (join : Text → Text → Text) (policy_file policies_dir : Text) (s s' : S) (p : Policy)
    → ((paths : List Text) (loaded : Policy) (last : ℕ)
        → policy_paths files join policy_file policies_dir ≡ ok paths
        → load_policies files paths empty_policy first_priority ≡ ok (loaded, last)
        → first_priority + rule_count loaded ≤ priority_base)
    → Fits s
    → new_policy files resolver join policy_file policies_dir s ≡ ok (p, s')
    → (rules : List Rule) × (users : HashMap Text Context) × (p
        ≡ record { default = some (record { rules = rules }); user = some users })
      × IsLoaded rules users
unfolding new_policy
new_policy-IsLoaded files resolver Fits bounded join policy_file policies_dir s s' p small f e =
    let (paths, found, e1) = >>=-eq-ok (policy_paths files join policy_file policies_dir) _ e in
    let ((loaded, last), read, e2) =
      >>=-eq-ok (load_policies files paths empty_policy first_priority) _ e1 in
    let (_, valid, replaced) = >>=-eq-ok (validate loaded) _ e2 in
    let (_, rising) =
      load_policies-Counted files paths empty_policy first_priority loaded last empty-Counted read
        (small paths loaded last found read) in
    replace_uids-IsLoaded resolver Fits bounded s s' loaded p f
      (paths-HasDefault files join policy_file policies_dir paths loaded last found read)
      (RisingTo→Rising 0 (priority_base + last) (default_rules loaded) rising)
      (validate-AreQuiet loaded valid) replaced
