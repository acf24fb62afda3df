-- ===== src/Whippet/Users/Replaced.antt =====
-- The context that `replace_uids` of sources/whippet/src/policy.rs leaves for each user ID.
use bottlerocket_core_kit.Prelude.{
  ℕ, ◌<◌, ◌^◌, ◌≡◌, refl, sym, ap, subst, ◌∙◌, inl, inr, Bool, false, Option, none, some, List, [],
  ◌∷◌, ◌==◌, ==→eq, if◌then◌else◌, arith, Bool-cases, Option-cases,
}
use bottlerocket_core_kit.Prelude.Text.{Text, text_eq, text_eq→eq, text_eq_refl}
use bottlerocket_core_kit.Prelude.HashMap.{HashMap, text_key, get, put, or_new, get-put}
use bottlerocket_core_kit.Prelude.Decimal.{
  parse_u32, to_decimal, parse_u32-below, to_decimal-injective,
}
use bottlerocket_core_kit.Prelude.Outcome.{Outcome, ok, >>=-eq-ok}
use bottlerocket_core_kit.Whippet.Rule.{
  default_user_id, Error, wildcard, Rule, connect_user, own, send, receive, Context, Policy,
}
use bottlerocket_core_kit.Whippet.Policy.{
  replace_connect, replace_default, replace_users, replace_uids,
}
use bottlerocket_core_kit.Whippet.Users.{
  Lookup, found, Lookup-cases, passwd_resolver, resolve_name, user_id, IsCached,
  resolve_name-user_id,
}

abbrev is_uid : ℕ → Outcome Error ℕ → Bool
is_uid uid (ok n) = n == uid
is_uid uid _ = false

abbrev or_earlier : Option Context → Option Context → Option Context
or_earlier none earlier = earlier
or_earlier (some c) earlier = some c

or_nothing : (o : Option Context) → or_earlier o none ≡ o
or_nothing none = refl
or_nothing (some c) = refl

same_decimal :
    (m n : ℕ) → m < 2 ^ 32 → n < 2 ^ 32 → text_eq (to_decimal m) (to_decimal n) ≡ (m == n)
same_decimal m n hm hn = elim (Bool-cases (m == n)) [
  | inl same ↦ rw (same, ==→eq m n same, text_eq_refl (to_decimal n)) refl
  | inr other ↦ elim (Bool-cases (text_eq (to_decimal m) (to_decimal n))) [
    | inr unlike ↦ rw (other, unlike) refl
    | inl alike ↦
        let same =
          to_decimal-injective m n hm hn (text_eq→eq (to_decimal m) (to_decimal n) alike) in
        absurd (ground arith)
  ]
]

module _ (from_name : Text → Lookup) where
  -- The context of the last name that has a user ID.
  unfoldable pub last_context : ℕ → HashMap Text Context → Option Context
  last_context uid [] = none
  last_context uid ((user, c) ∷ users) =
      or_earlier (last_context uid users)
        (if is_uid uid (user_id from_name user) then some c else none)

  resolved :
      (cache t : HashMap Text ℕ) (name : Text) (uid : ℕ)
      → IsCached from_name cache
      → resolve_name from_name cache name ≡ ok (uid, t)
      → (user_id from_name name ≡ ok uid) × IsCached from_name t
  resolved cache t name uid c h =
      let (cache', c', e) = resolve_name-user_id from_name cache name c in
      let (n, named, made) = >>=-eq-ok (user_id from_name name) _ (sym e ∙ h) in
      let uids : n ≡ uid = cc in
      let caches : cache' ≡ t = cc in (named ∙ ap ok uids, subst (IsCached from_name) caches c')

  -- Replacing the names in connect rules leaves a cache of what the lookup says.
  connect-IsCached :
      (cache t : HashMap Text ℕ) (rules rules' : List Rule)
      → IsCached from_name cache
      → replace_connect (passwd_resolver from_name) cache rules ≡ ok (rules', t)
      → IsCached from_name t
  unfolding replace_connect
  connect-IsCached cache t [] rules' c e =
      let caches : cache ≡ t = cc in subst (IsCached from_name) caches c
  connect-IsCached cache t (connect_user a u p ∷ rules) rules' c e =
      let ((uid, s), named, e₁) = >>=-eq-ok (resolve_name from_name cache u) _ e in
      let ((rest, last), done, made) =
        >>=-eq-ok (replace_connect (passwd_resolver from_name) s rules) _ e₁ in
      let caches : last ≡ t = cc in
      subst (IsCached from_name) caches
        (connect-IsCached s last rules rest (resolved cache s u uid c named).1 done)
  connect-IsCached cache t (own n a p ∷ rules) rules' c e =
      let ((rest, last), done, made) =
        >>=-eq-ok (replace_connect (passwd_resolver from_name) cache rules) _ e in
      let caches : last ≡ t = cc in
      subst (IsCached from_name) caches (connect-IsCached cache last rules rest c done)
  connect-IsCached cache t (send d i m y p b a q ∷ rules) rules' c e =
      let ((rest, last), done, made) =
        >>=-eq-ok (replace_connect (passwd_resolver from_name) cache rules) _ e in
      let caches : last ≡ t = cc in
      subst (IsCached from_name) caches (connect-IsCached cache last rules rest c done)
  connect-IsCached cache t (receive n p i m y b a q ∷ rules) rules' c e =
      let ((rest, last), done, made) =
        >>=-eq-ok (replace_connect (passwd_resolver from_name) cache rules) _ e in
      let caches : last ≡ t = cc in
      subst (IsCached from_name) caches (connect-IsCached cache last rules rest c done)

  default-IsCached :
      (cache t : HashMap Text ℕ) (o o' : Option Context)
      → IsCached from_name cache
      → replace_default (passwd_resolver from_name) cache o ≡ ok (o', t)
      → IsCached from_name t
  unfolding replace_default
  default-IsCached cache t none o' c e =
      let caches : cache ≡ t = cc in subst (IsCached from_name) caches c
  default-IsCached cache t (some d) o' c e =
      let ((rules, last), done, made) =
        >>=-eq-ok (replace_connect (passwd_resolver from_name) cache d.rules) _ e in
      let caches : last ≡ t = cc in
      subst (IsCached from_name) caches (connect-IsCached cache last d.rules rules c done)

  module _ (small : (name : Text) (uid : ℕ) → from_name name ≡ found uid → uid < 2 ^ 32) where
    user_id-below : (name : Text) (uid : ℕ) → user_id from_name name ≡ ok uid → uid < 2 ^ 32
    unfolding user_id
    user_id-below name uid h = elim (Bool-cases (text_eq name wildcard)) [
      | inl star ↦ let e : ok default_user_id ≡ ok uid = rw (user_id, star) at h in ground arith
      | inr named ↦ elim (Option-cases (parse_u32 name)) [
        | inl (n, number) ↦
            let e : ok n ≡ ok uid = rw (user_id, named, number) at h in
            let same : n ≡ uid = cc in subst (λ x. x < 2 ^ 32) same (parse_u32-below name n number)
        | inr words ↦ elim (Lookup-cases (from_name name)) [
          | inl (n, there) ↦
              let e : ok n ≡ ok uid = rw (user_id, named, words, there) at h in
              let same : n ≡ uid = cc in subst (λ x. x < 2 ^ 32) same (small name n there)
          | inr (inl missing) ↦ absurd (ground (arith, named, words, missing))
          | inr (inr failed) ↦ absurd (ground (arith, named, words, failed))
        ]
      ]
    ]

    module _ (uid : ℕ) (bound : uid < 2 ^ 32) where
      put_last :
          (rest : HashMap Text Context) (n : ℕ) (c : Context) (final : HashMap Text Context)
          → n < 2 ^ 32
          → or_earlier (last_context uid rest) (get (to_decimal uid) (put (to_decimal n) c final))
            ≡ or_earlier
                (or_earlier (last_context uid rest) (if n == uid then some c else none))
                (get (to_decimal uid) final)
      put_last rest n c final below = elim (Option-cases (last_context uid rest)) [
        | inl (d, later) ↦ rw later refl
        | inr nothing ↦
            rw
              (
                nothing,
                get-put (to_decimal n) (to_decimal uid) c final,
                same_decimal n uid below bound,
              )
              (elim (Bool-cases (n == uid)) [ inl hit ↦ rw hit refl | inr miss ↦ rw miss refl ])
      ]

      replace_users-last :
          (cache t : HashMap Text ℕ) (final users final' : HashMap Text Context)
          → IsCached from_name cache
          → replace_users (passwd_resolver from_name) cache final users ≡ ok (final', t)
          → get (to_decimal uid) final'
            ≡ or_earlier (last_context uid users) (get (to_decimal uid) final)
      unfolding replace_users last_context
      replace_users-last cache t final [] final' c e =
          let same : final ≡ final' = cc in ap (get (to_decimal uid)) (sym same)
      replace_users-last cache t final ((u, d) ∷ users) final' c e =
          let ((n, s), named, rest) = >>=-eq-ok (resolve_name from_name cache u) _ e in
          let (is, c') = resolved cache s u n c named in
          replace_users-last s t (put (to_decimal n) d final) users final' c' rest
          ∙ put_last users n d final (user_id-below u n is)
          ∙ rw is refl

      -- Where `replace_uids` succeeds with the resolver of user names, each 32-bit user ID has the
      -- context of the last name, in the order of the policy, that has that ID, and no context where
      -- no name has it. So where several names have one ID, the rules of all but the last are lost.
      -- The cache and the lookup agree, and the lookup gives 32-bit numbers.
      pub replace_uids-last :
          (cache t : HashMap Text ℕ) (p p' : Policy)
          → IsCached from_name cache
          → replace_uids (passwd_resolver from_name) cache p ≡ ok (p', t)
          → get (to_decimal uid) (or_new [] p'.user) ≡ last_context uid (or_new [] p.user)
      unfolding replace_uids
      replace_uids-last cache t p p' c e =
          let ((o, s), done, e₁) =
            >>=-eq-ok (replace_default (passwd_resolver from_name) cache p.default) _ e in
          let ((users, last), all_done, made) =
            >>=-eq-ok (replace_users (passwd_resolver from_name) s [] (or_new [] p.user)) _ e₁ in
          let same : record { default = o; user = some users } ≡ p' = cc in
          ap (λ (x : Policy). get (to_decimal uid) (or_new [] x.user)) (sym same)
          ∙ replace_users-last s last [] (or_new [] p.user) users
              (default-IsCached cache s p.default o c done) all_done
          ∙ (unfold get in or_nothing (last_context uid (or_new [] p.user)))
