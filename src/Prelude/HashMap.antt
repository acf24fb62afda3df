-- ===== src/Prelude/HashMap.antt =====
-- Rust's maps as association lists. The order of a `HashMap` is one that the library does not
-- specify; that of an `IndexMap` is the order of insertion.
use bottlerocket_core_kit.Prelude.{
  ◌≡◌, refl, sym, ap, ◌∙◌, inl, inr, Bool, true, false, Option, none, some, List, [], ◌∷◌, String,
  str_eq, eq_iff, if◌then◌else◌, Bool-cases, arith, false≢true,
}
use bottlerocket_core_kit.Prelude.Text.{Text, text_eq, text_eq→eq, text_eq_refl}

-- `Eq` of the keys of a map.
pub record EqTest (K : Type 0) : Type 0 where
  pub same : K → K → Bool
  pub same_refl : (a : K) → same a a ≡ true
  pub same_left : (a b c : K) → same a b ≡ true → same a c ≡ same b c
  pub same_right : (a b c : K) → same a b ≡ true → same c a ≡ same c b

abbrev pub HashMap : Type 0 → Type 0 → Type 0
HashMap K V = List (K × V)

-- `unwrap_or`
abbrev pub or_new {ℓ} : {V : Type ℓ} → V → Option V → V
or_new new none = new
or_new new (some v) = v

module _ {K : Type 0} ⦃e : EqTest K⦄ where
  not_same : (j k : K) → e.same j k ≡ false → e.same k j ≡ false
  not_same j k h = elim (Bool-cases (e.same k j)) [
    | inl back ↦ absurd (false≢true (sym h ∙ sym (e.same_left k j k back) ∙ e.same_refl k))
    | inr fine ↦ fine
  ]

  apart : (j k l : K) → e.same j k ≡ false → e.same j l ≡ true → e.same k l ≡ false
  apart j k l other hit = sym (e.same_right j l k hit) ∙ not_same j k other

module _ {K V : Type 0} ⦃e : EqTest K⦄ where
  unfoldable pub get : K → HashMap K V → Option V
  get k [] = none
  get k ((j, w) ∷ rest) = let later = get k rest in if e.same j k then some w else later

  -- `insert`: the key of an entry that is there stays, with the new value.
  unfoldable pub put : K → V → HashMap K V → HashMap K V
  put k v [] = (k, v) ∷ []
  put k v ((j, w) ∷ rest) =
      let later = put k v rest in if e.same j k then (j, v) ∷ rest else (j, w) ∷ later

  unfoldable pub remove : K → HashMap K V → HashMap K V
  remove k [] = []
  remove k ((j, w) ∷ rest) =
      let later = remove k rest in if e.same j k then later else (j, w) ∷ later

  unfoldable pub map_keys : HashMap K V → List K
  map_keys [] = []
  map_keys ((j, w) ∷ rest) = j ∷ map_keys rest

  -- `entry(k).or_default()`, changed by `f`: a new entry is the last.
  unfoldable pub update_entry : (V → V) → V → K → HashMap K V → HashMap K V
  update_entry f new k [] = (k, f new) ∷ []
  update_entry f new k ((j, w) ∷ rest) =
      let later = update_entry f new k rest in
      if e.same j k then (j, f w) ∷ rest else (j, w) ∷ later

  pub get-update_entry :
      (f : V → V) (new : V) (k l : K) (m : HashMap K V)
      → get l (update_entry f new k m)
        ≡ (if e.same k l then some (f (or_new new (get l m))) else get l m)
  unfolding get update_entry
  get-update_entry f new k l [] = refl
  get-update_entry f new k l ((j, w) ∷ rest) = elim (Bool-cases (e.same j k)) [
    | inl here ↦
        rw (here, e.same_left j k l here)
          (elim (Bool-cases (e.same k l)) [ inl p ↦ rw p refl | inr q ↦ rw q refl ])
    | inr other ↦ rw other (elim (Bool-cases (e.same j l)) [
      | inl hit ↦ rw (hit, apart j k l other hit) refl
      | inr miss ↦ rw miss (get-update_entry f new k l rest)
    ])
  ]

  pub get-put :
      (k l : K) (v : V) (m : HashMap K V)
      → get l (put k v m) ≡ (if e.same k l then some v else get l m)
  unfolding get put
  get-put k l v [] = refl
  get-put k l v ((j, w) ∷ rest) = elim (Bool-cases (e.same j k)) [
    | inl here ↦ rw (here, e.same_left j k l here) (ground (arith, Bool-cases (e.same k l)))
    | inr other ↦ rw other (elim (Bool-cases (e.same j l)) [
      | inl hit ↦ rw (hit, apart j k l other hit) refl
      | inr miss ↦ rw miss (get-put k l v rest)
    ])
  ]

  pub get-remove :
      (k l : K) (m : HashMap K V) → get l (remove k m) ≡ (if e.same k l then none else get l m)
  unfolding get remove
  get-remove k l [] = ground (arith, Bool-cases (e.same k l))
  get-remove k l ((j, w) ∷ rest) = elim (Bool-cases (e.same j k)) [
    | inl here ↦
        rw (here, e.same_left j k l here)
          (ground (arith, get-remove k l rest, Bool-cases (e.same k l)))
    | inr other ↦ rw other (elim (Bool-cases (e.same j l)) [
      | inl hit ↦ rw (hit, apart j k l other hit) refl
      | inr miss ↦ rw miss (get-remove k l rest)
    ])
  ]

module _ {K V : Type 0} ⦃e : EqTest K⦄ where
  -- No key has two entries.
  abbrev pub Distinct : HashMap K V → Type 0
  Distinct [] = Unit
  Distinct ((k, v) ∷ rest) = (get k rest ≡ none) × Distinct rest

  pub Distinct-update_entry :
      (f : V → V) (new : V) (k : K) (m : HashMap K V)
      → Distinct m
      → Distinct (update_entry f new k m)
  unfolding update_entry get
  Distinct-update_entry f new k [] d = (refl, tt)
  Distinct-update_entry f new k ((j, w) ∷ rest) (fresh, d) = elim (Bool-cases (e.same j k)) [
    | inl here ↦ rw here (fresh, d)
    | inr other ↦
        let apart' = not_same j k other in
        rw other
          (get-update_entry f new k j rest ∙ rw apart' fresh, Distinct-update_entry f new k rest d)
  ]

  pub Distinct-put : (k : K) (v : V) (m : HashMap K V) → Distinct m → Distinct (put k v m)
  unfolding put get
  Distinct-put k v [] d = (refl, tt)
  Distinct-put k v ((j, w) ∷ rest) (fresh, d) = elim (Bool-cases (e.same j k)) [
    | inl here ↦ rw here (fresh, d)
    | inr other ↦
        let apart' = not_same j k other in
        rw other (get-put k j v rest ∙ rw apart' fresh, Distinct-put k v rest d)
  ]

pub str_same : (a b : String) → str_eq a b ≡ true → a ≡ b
str_same a b h = ground (arith, eq_iff a b)

pub str_same_refl : (a : String) → str_eq a a ≡ true
str_same_refl a = ground (arith, eq_iff a a)

instance abbrev pub name_eq : EqTest String
name_eq = record {
  same = str_eq;
  same_refl = str_same_refl;
  same_left = λ a b c h. ap (λ s. str_eq s c) (str_same a b h);
  same_right = λ a b c h. ap (λ s. str_eq c s) (str_same a b h);
}

instance abbrev pub text_key : EqTest Text
text_key = record {
  same = text_eq;
  same_refl = text_eq_refl;
  same_left = λ a b c h. ap (λ s. text_eq s c) (text_eq→eq a b h);
  same_right = λ a b c h. ap (λ s. text_eq c s) (text_eq→eq a b h);
}
