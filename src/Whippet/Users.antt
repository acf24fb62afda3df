-- ===== src/Whippet/Users.antt =====
-- `PasswdUsernameResolver` of sources/whippet/src/policy.rs, and the user IDs of the contexts.
pub mod Replaced
use bottlerocket_core_kit.Prelude.{
  ℕ, ◌<◌, ◌^◌, ◌≡◌, refl, ◌∙◌, sym, subst, false, Option, none, some, [], ◌∷◌, inl, inr, ◌⊎◌, arith,
  if◌then◌else◌, Bool-cases, Option-cases,
}
use bottlerocket_core_kit.Prelude.Text.{Text, text_eq, text_eq→eq, text_eq_refl}
use bottlerocket_core_kit.Prelude.HashMap.{HashMap, text_key, get, put, get-put}
use bottlerocket_core_kit.Prelude.Decimal.{parse_u32, to_decimal, parse_u32-below}
use bottlerocket_core_kit.Prelude.Outcome.{Outcome, ok, err, ◌>>=◌}
use bottlerocket_core_kit.Whippet.Rule.{
  default_user_id, Error, user_not_found, user_lookup_failed, wildcard, Context,
}
use bottlerocket_core_kit.Whippet.Policy.{UsernameResolver}
use bottlerocket_core_kit.Whippet.Policy.Resolved.{IsBounded}

-- What the crate `nix` says of a name: the user's ID, that there is no such user, or an error.
pub data Lookup : Type 0 where
  found : (uid : ℕ) → Lookup
  missing failed : Lookup

abbrev pub with_cache : HashMap Text ℕ → Outcome Error ℕ → Outcome Error (ℕ × HashMap Text ℕ)
with_cache cache result = result >>= λ uid. ok (uid, cache)

Lookup-cases : (l : Lookup) → ((uid : ℕ) × (l ≡ found uid)) ⊎ (l ≡ missing) ⊎ (l ≡ failed)
Lookup-cases (found uid) = inl (uid, refl)
Lookup-cases missing = inr (inl refl)
Lookup-cases failed = inr (inr refl)

module _ (from_name : Text → Lookup) where
  -- The lookup that fills the cache.
  unfoldable pub look_up : HashMap Text ℕ → Text → Outcome Error (ℕ × HashMap Text ℕ)
  look_up cache username = elim (from_name username) [
    | found uid ↦ ok (uid, put username uid cache)
    | missing ↦ err (user_not_found username)
    | failed ↦ err (user_lookup_failed username)
  ]

  unfoldable pub from_cache : HashMap Text ℕ → Text → Option ℕ → Outcome Error (ℕ × HashMap Text ℕ)
  unfolding look_up
  from_cache cache username (some uid) = ok (uid, cache)
  from_cache cache username none = look_up cache username

  unfoldable pub from_number : HashMap Text ℕ → Text → Option ℕ → Outcome Error (ℕ × HashMap Text ℕ)
  unfolding from_cache get
  from_number cache username (some uid) = ok (uid, cache)
  from_number cache username none = from_cache cache username (get username cache)

  unfoldable pub resolve_name : HashMap Text ℕ → Text → Outcome Error (ℕ × HashMap Text ℕ)
  unfolding from_number
  resolve_name cache username =
      if text_eq username wildcard
      then ok (default_user_id, cache)
      else from_number cache username (parse_u32 username)

  abbrev pub passwd_resolver : UsernameResolver (HashMap Text ℕ)
  passwd_resolver = record { resolve = resolve_name }

  -- The user ID without a cache.
  unfoldable pub user_id : Text → Outcome Error ℕ
  user_id username =
      if text_eq username wildcard then ok default_user_id else (elim (parse_u32 username) [
        | some uid ↦ ok uid
        | none ↦ elim (from_name username) [
          | found uid ↦ ok uid
          | missing ↦ err (user_not_found username)
          | failed ↦ err (user_lookup_failed username)
        ]
      ])

  -- What is in the cache is what the lookup says.
  abbrev pub IsCached : HashMap Text ℕ → Type 0
  IsCached cache = (name : Text) (uid : ℕ) → get name cache ≡ some uid → from_name name ≡ found uid

  IsCached-put :
      (cache : HashMap Text ℕ) (name : Text) (uid : ℕ)
      → from_name name ≡ found uid
      → IsCached cache
      → IsCached (put name uid cache)
  IsCached-put cache name uid h c = λ k n e.
      let e' = sym (get-put name k uid cache) ∙ e in
      elim (Bool-cases (text_eq name k)) [
        | inl same ↦
            let hit : some uid ≡ some n = rw same at e' in
            let ids : uid ≡ n = cc in
            subst (λ x. from_name x ≡ found n) (text_eq→eq name k same)
              (subst (λ x. from_name name ≡ found x) ids h)
        | inr other ↦ c k n (rw other at e')
      ]

  looked_up :
      (cache : HashMap Text ℕ) (name : Text)
      → IsCached cache
      → text_eq name wildcard ≡ false
      → parse_u32 name ≡ none
      → get name cache ≡ none
      → (cache' : HashMap Text ℕ) × IsCached cache'
        × (look_up cache name ≡ with_cache cache' (user_id name))
  unfolding look_up user_id
  looked_up cache name c named words absent = elim (Lookup-cases (from_name name)) [
    | inl (uid, e) ↦
        (put name uid cache, IsCached-put cache name uid e c, rw (look_up, named, words, e) refl)
    | inr (inl e) ↦ (cache, c, rw (look_up, named, words, e) refl)
    | inr (inr e) ↦ (cache, c, rw (look_up, named, words, e) refl)
  ]

  -- The cached resolver gives what the lookup without a cache gives, errors included, and leaves a
  -- cache of which that is true again; the cache holds what the lookup says.
  pub resolve_name-user_id :
      (cache : HashMap Text ℕ) (name : Text)
      → IsCached cache
      → (cache' : HashMap Text ℕ) × IsCached cache'
        × (resolve_name cache name ≡ with_cache cache' (user_id name))
  unfolding resolve_name from_number from_cache user_id
  resolve_name-user_id cache name c = elim (Bool-cases (text_eq name wildcard)) [
    | inl star ↦ (cache, c, rw star refl)
    | inr named ↦ elim (Option-cases (parse_u32 name)) [
      | inl (uid, number) ↦ (cache, c, rw (named, number) refl)
      | inr words ↦ elim (Option-cases (get name cache)) [
        | inl (uid, hit) ↦ (cache, c, rw (named, words, hit, c name uid hit) refl)
        | inr miss ↦
            let (cache', c', e) = looked_up cache name c named words miss in
            (cache', c', rw (named, words, miss) (e ∙ rw (named, words) refl))
      ]
    ]
  ]

-- The names of a cache have 32-bit numbers.
abbrev pub IsSmall : HashMap Text ℕ → Type 0
IsSmall cache = (name : Text) (uid : ℕ) → get name cache ≡ some uid → uid < 2 ^ 32

module _ (from_name : Text → Lookup)
    (small : (name : Text) (uid : ℕ) → from_name name ≡ found uid → uid < 2 ^ 32) where
  IsSmall-put :
      (cache : HashMap Text ℕ) (name : Text) (uid : ℕ)
      → uid < 2 ^ 32
      → IsSmall cache
      → IsSmall (put name uid cache)
  IsSmall-put cache name uid h c = λ k n e.
      let e' = sym (get-put name k uid cache) ∙ e in
      elim (Bool-cases (text_eq name k)) [
        | inl same ↦
            let hit : some uid ≡ some n = rw same at e' in let ids : uid ≡ n = cc in omega arith
        | inr other ↦ c k n (rw other at e')
      ]

  Small : ℕ × HashMap Text ℕ → Type 0
  Small r = (r.0 < 2 ^ 32) × IsSmall r.1

  look_up-Small :
      (cache : HashMap Text ℕ) (name : Text) (r : ℕ × HashMap Text ℕ)
      → IsSmall cache
      → look_up from_name cache name ≡ ok r
      → Small r
  unfolding look_up Small
  look_up-Small cache name r c h = elim (Lookup-cases (from_name name)) [
    | inl (uid, e) ↦
        let e' : ok (uid, put name uid cache) ≡ ok r = rw (look_up, e) at h in
        let same : (uid, put name uid cache) ≡ r = cc in
        subst Small same (small name uid e, IsSmall-put cache name uid (small name uid e) c)
    | inr (inl e) ↦ absurd (ground arith)
    | inr (inr e) ↦ absurd (ground arith)
  ]

  -- The resolver keeps to 32 bits, as `IsBounded` asks.
  pub passwd-IsBounded : IsBounded (passwd_resolver from_name) IsSmall
  unfolding resolve_name from_number from_cache Small
  passwd-IsBounded s s' name uid c h = elim (Bool-cases (text_eq name wildcard)) [
    | inl star ↦
        let e : ok (default_user_id, s) ≡ ok (uid, s') = rw (resolve_name, star) at h in
        let same : (default_user_id, s) ≡ (uid, s') = cc in subst Small same (omega arith, c)
    | inr named ↦ elim (Option-cases (parse_u32 name)) [
      | inl (n, number) ↦
          let e : ok (n, s) ≡ ok (uid, s') = rw (resolve_name, named, number) at h in
          let same : (n, s) ≡ (uid, s') = cc in subst Small same (parse_u32-below name n number, c)
      | inr words ↦ elim (Option-cases (get name s)) [
        | inl (n, hit) ↦
            let e : ok (n, s) ≡ ok (uid, s') = rw (resolve_name, named, words, hit) at h in
            let same : (n, s) ≡ (uid, s') = cc in subst Small same (c name n hit, c)
        | inr miss ↦
            let e : look_up from_name s name ≡ ok (uid, s') =
              rw (resolve_name, named, words, miss) at h in
            look_up-Small s name (uid, s') c e
      ]
    ]
  ]
