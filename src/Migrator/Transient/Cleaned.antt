-- ===== src/Migrator/Transient/Cleaned.antt =====
-- What is left of the data after the removals of `copy_without_transient_entries` of main.rs.
use bottlerocket_core_kit.Prelude.{
  ◌≡◌, refl, ◌∙◌, sym, ap, Bool, false, not, ◌||◌, Option, none, some, List, [], ◌∷◌, inl, inr,
  arith, if◌then◌else◌, filter_by, Bool-cases,
}
use bottlerocket_core_kit.Prelude.Text.{Text, text_eq, text_eq→eq}
use bottlerocket_core_kit.Prelude.HashMap.{HashMap, text_key, get, remove, get-remove, Distinct}
use bottlerocket_core_kit.Datastore.Memory.{starts_with}
use bottlerocket_core_kit.Migrator.Transient.{
  Scalars, DataStoreData, strength, configuration_files, services, is_weak_entry, weak_keys,
  remove_all, remove_weak_setting, remove_metadata, remove_keys_with_prefix, remove_transient,
}

abbrev contains_name : Text → List Text → Bool
contains_name name [] = false
contains_name name (k ∷ ks) = text_eq k name || contains_name name ks

module _ {Value : Type 0} (scalars : Scalars Value) where
  get-remove_all :
      (name : Text) (keys : List Text) (entries : HashMap Text Value)
      → get name (remove_all scalars keys entries)
        ≡ (if contains_name name keys then none else get name entries)
  unfolding remove_all
  get-remove_all name [] entries = refl
  get-remove_all name (k ∷ keys) entries =
      get-remove_all name keys (remove k entries) ∙ elim (Bool-cases (text_eq k name)) [
        | inl hit ↦
            rw (get-remove k name entries, hit)
              (ground (arith, Bool-cases (contains_name name keys)))
        | inr miss ↦ rw (get-remove k name entries, miss) refl
      ]

  -- A test of the key alone.
  get-retain :
      (keep : Text → Bool) (name : Text) (entries : HashMap Text Value)
      → get name (filter_by (λ entry. keep entry.0) entries)
        ≡ (if keep name then get name entries else none)
  unfolding get
  get-retain keep name [] = ground (arith, Bool-cases (keep name))
  get-retain keep name ((k, v) ∷ entries) =
      let later = get-retain keep name entries in
      elim (Bool-cases (text_eq k name)) [
        | inl hit ↦
            let same = text_eq→eq k name hit in
            elim (Bool-cases (keep name)) [
              | inl stays ↦ rw (ap keep same, stays, hit) refl
              | inr goes ↦ rw (ap keep same, goes) (later ∙ rw goes refl)
            ]
        | inr miss ↦ elim (Bool-cases (keep k)) [
          | inl stays ↦ rw (stays, miss) later
          | inr goes ↦ rw (goes, miss) later
        ]
      ]

  -- Whether a key's metadata call it weak.
  abbrev pub weak_inner : Option (HashMap Text Value) → Bool
  weak_inner none = false
  weak_inner (some inner_map) = is_weak_entry scalars (get strength inner_map)

  abbrev pub is_weak_key : Text → HashMap Text (HashMap Text Value) → Bool
  is_weak_key name metadata = weak_inner (get name metadata)

  get_nothing : (name : Text) → get {V = HashMap Text Value} name [] ≡ none
  unfolding get
  get_nothing name = refl

  get-first :
      (name k : Text) (m : HashMap Text Value) (rest : HashMap Text (HashMap Text Value))
      → get name ((k, m) ∷ rest) ≡ (if text_eq k name then some m else get name rest)
  unfolding get
  get-first name k m rest = refl

  contains_name-weak_keys :
      (name : Text) (metadata : HashMap Text (HashMap Text Value))
      → Distinct metadata
      → contains_name name (weak_keys scalars metadata) ≡ is_weak_key name metadata
  unfolding weak_keys
  contains_name-weak_keys name [] d = sym (ap weak_inner (get_nothing name))
  contains_name-weak_keys name ((k, m) ∷ rest) (fresh, d) =
      let later = contains_name-weak_keys name rest d in
      let first = ap weak_inner (get-first name k m rest) in
      elim (Bool-cases (text_eq k name)) [
        | inl hit ↦
            let gone : get name rest ≡ none =
              ap (λ x. get x rest) (sym (text_eq→eq k name hit)) ∙ fresh in
            elim (Bool-cases (is_weak_entry scalars (get strength m))) [
              | inl weak ↦ rw (weak, hit) (sym weak)
              | inr strong ↦ rw (strong, hit) (later ∙ ap weak_inner gone ∙ sym strong)
            ]
        | inr miss ↦
            let past : is_weak_key name ((k, m) ∷ rest) ≡ is_weak_key name rest =
              first ∙ rw miss refl in
            elim (Bool-cases (is_weak_entry scalars (get strength m))) [
              | inl weak ↦ rw (weak, miss) later
              | inr strong ↦ rw strong (later ∙ sym past)
            ]
      ]

  retained :
      (prefix name : Text) (d : DataStoreData Value)
      → get name (remove_keys_with_prefix scalars prefix d).entries
        ≡ (if starts_with prefix name then none else get name d.entries)
  unfolding remove_keys_with_prefix
  retained prefix name d =
      get-retain (λ k. not (starts_with prefix k)) name d.entries
      ∙ ground (arith, Bool-cases (starts_with prefix name))

  -- After the removals a key keeps its value, unless it is a key of services or of configuration
  -- files or its metadata call it weak: then it has none. All metadata are gone. No key has two
  -- entries in the metadata.
  pub remove_transient-get :
      (name : Text) (d : DataStoreData Value)
      → Distinct d.metadata
      → (get name (remove_transient scalars d).entries ≡ (
          if starts_with services name
            || (starts_with configuration_files name || is_weak_key name d.metadata)
          then none
          else get name d.entries))
        × ((remove_transient scalars d).metadata ≡ [])
  unfolding remove_transient remove_keys_with_prefix remove_metadata remove_weak_setting
  remove_transient-get name d h =
      let weak = remove_weak_setting scalars d in
      let bare = remove_metadata scalars weak in
      let kept = remove_keys_with_prefix scalars configuration_files bare in
      (
        retained services name kept
            ∙ ap (λ o. if starts_with services name then none else o)
                (retained configuration_files name bare)
            ∙ ap
                (λ o.
                  if starts_with services name
                  then none
                  else (if starts_with configuration_files name then none else o))
                (get-remove_all name (weak_keys scalars d.metadata) d.entries
                  ∙ ap (λ b. if b then none else get name d.entries)
                      (contains_name-weak_keys name d.metadata h))
            ∙ ground (
              arith,
              Bool-cases (starts_with services name),
              Bool-cases (starts_with configuration_files name),
            ),
        refl,
      )
