-- ===== src/Datastore/Memory/Reads.antt =====
-- What is read after a write.
use bottlerocket_core_kit.Prelude.{
  ◌≡◌, refl, sym, ap, ◌∙◌, inl, inr, Bool, true, false, ◌&&◌, none, some, List, [], ◌∷◌, String,
  str_eq, filter_by, if◌then◌else◌, Bool-cases, false≢true, In, All,
}
use bottlerocket_core_kit.Prelude.Outcome.{ok}
use bottlerocket_core_kit.Prelude.HashMap.{
  HashMap, name_eq, get, put, remove, map_keys, get-put, get-remove, str_same,
}
use bottlerocket_core_kit.Datastore.KeyMap.{key_eq}
use bottlerocket_core_kit.Datastore.Key.{Key, same_key}
use bottlerocket_core_kit.Datastore.Memory.{
  Dataset, Committed, live_data, pending_data, MemoryDataStore, or_default, dataset, dataset_mut,
  get_key, set_key, unset_key, starts_with, list_populated_keys, get_listed, get_prefix,
}
use bottlerocket_core_kit.Prelude.Text.{Text}

-- Whether two places hold the same dataset.
abbrev pub same_place : Committed → Committed → Bool
same_place live_data live_data = true
same_place (pending_data a) (pending_data b) = str_eq a b
same_place _ _ = false

module _ (s : MemoryDataStore) where
  -- A change of one dataset leaves the others as they are.
  dataset-dataset_mut :
      (change : Dataset → Dataset) (c d : Committed)
      → or_default (dataset (dataset_mut change s c) d)
        ≡ (if same_place c d then change (or_default (dataset s d)) else or_default (dataset s d))
  unfolding dataset dataset_mut
  dataset-dataset_mut change live_data live_data = refl
  dataset-dataset_mut change live_data (pending_data b) = refl
  dataset-dataset_mut change (pending_data a) live_data = refl
  dataset-dataset_mut change (pending_data a) (pending_data b) =
      rw (get-put a b (change (or_default (get a s.pending))) s.pending)
        (elim (Bool-cases (str_eq a b)) [
          | inl same ↦ rw (same, str_same a b same) refl
          | inr other ↦ rw other refl
        ])

  -- After a key is set, it has the value in that place, live or pending; every other key and every
  -- other place reads as before.
  pub get_key-set_key :
      (k l : Key) (v : String) (c d : Committed)
      → get_key (set_key s k v c) l d
        ≡ (if same_place c d && same_key k l then some v else get_key s l d)
  unfolding get_key set_key
  get_key-set_key k l v c d =
      rw (dataset-dataset_mut (put k v) c d) (elim (Bool-cases (same_place c d)) [
        | inl here ↦ rw here (get-put k l v (or_default (dataset s d)))
        | inr other ↦ rw other refl
      ])

  -- After a key is unset, it has no value in that place; every other key and every other place reads
  -- as before.
  pub get_key-unset_key :
      (k l : Key) (c d : Committed)
      → get_key (unset_key s k c) l d
        ≡ (if same_place c d && same_key k l then none else get_key s l d)
  unfolding get_key unset_key
  get_key-unset_key k l c d =
      rw (dataset-dataset_mut (remove k) c d) (elim (Bool-cases (same_place c d)) [
        | inl here ↦ rw here (get-remove k l (or_default (dataset s d)))
        | inr other ↦ rw other refl
      ])

-- A key that a map lists has a value in it.
get-map_keys :
    {V : Type 0} (m : HashMap Key V) (k : Key) → In k (map_keys m) → (v : V) × (get k m ≡ some v)
unfolding get map_keys
get-map_keys [] k i = absurd i
get-map_keys ((j, w) ∷ m) k i = elim (Bool-cases (same_key j k)) [
  | inl here ↦ (w, rw here refl)
  | inr other ↦ elim i [
    | inl e ↦ absurd (false≢true (sym other ∙ ap (λ x. same_key x k) (sym e) ∙ key_eq.same_refl k))
    | inr later ↦ let (v, h) = get-map_keys m k later in (v, rw other h)
  ]
]

In-filter_by : (test : Key → Bool) (l : List Key) (k : Key) → In k (filter_by test l) → In k l
In-filter_by test [] k i = absurd i
In-filter_by test (x ∷ l) k i = elim (Bool-cases (test x)) [
  | inl keep ↦
      let i' : In k (x ∷ filter_by test l) = rw keep at i in
      elim i' [ inl e ↦ inl e | inr later ↦ inr (In-filter_by test l k later) ]
  | inr skip ↦ let i' : In k (filter_by test l) = rw skip at i in inr (In-filter_by test l k i')
]

module _ (s : MemoryDataStore) (c : Committed) where
  get_listed-ok :
      (keys : List Key)
      → ((k : Key) → In k keys → (v : String) × (get_key s k c ≡ some v))
      → (r : Dataset) × (get_listed s c keys ≡ ok r)
        × (map_keys r ≡ keys)
        × All (λ (e : Key × String). get_key s e.0 c ≡ some e.1) r
  unfolding get_listed map_keys
  get_listed-ok [] h = ([], refl, refl, tt)
  get_listed-ok (k ∷ keys) h =
      let (v, found) = h k (inl refl) in
      let (r, done, same, all) = get_listed-ok keys (λ x i. h x (inr i)) in
      ((k, v) ∷ r, rw (found, done) refl, ap (λ l. k ∷ l) same, (found, all))

  -- Reading by prefix never fails: it returns the keys that are listed for the prefix, each with the
  -- value that it has.
  pub get_prefix-ok :
      (prefix : Text)
      → (r : Dataset) × (get_prefix s prefix c ≡ ok r)
        × (map_keys r ≡ list_populated_keys s prefix c)
        × All (λ (e : Key × String). get_key s e.0 c ≡ some e.1) r
  unfolding get_prefix list_populated_keys get_key
  get_prefix-ok prefix = get_listed-ok (list_populated_keys s prefix c) (λ k i.
      get-map_keys (or_default (dataset s c)) k (
        In-filter_by (λ (x : Key). starts_with prefix x.name) (map_keys (or_default (dataset s c)))
          k i))
