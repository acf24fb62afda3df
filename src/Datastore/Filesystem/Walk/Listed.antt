-- ===== src/Datastore/Filesystem/Walk/Listed.antt =====
-- The keys that are listed from the files of a store are those that the store in memory lists.
use bottlerocket_core_kit.Prelude.{
  ◌≡◌, refl, sym, ap, ◌∙◌, inl, inr, Bool, true, false, ◌&&◌, ◌||◌, false≢true, List, [], ◌∷◌, ◌++◌,
  map, Option, none, some, All, In, filter_by, Bool-cases, &&-eq-true, arith,
}
use bottlerocket_core_kit.Prelude.Outcome.{ok, ◌>>=◌, Outcome-cases}
use bottlerocket_core_kit.Prelude.HashMap.{map_keys}
use bottlerocket_core_kit.Prelude.Text.{Text, texts_eq, texts_eq→eq}
use bottlerocket_core_kit.Datastore.KeyMap.{key_eq}
use bottlerocket_core_kit.Datastore.Key.{
  data_type, meta_type, Key, key_separator, same_key, from_segments, new_key,
}
use bottlerocket_core_kit.Datastore.Memory as Memory
use bottlerocket_core_kit.Datastore.Memory.{
  MemoryDataStore, Committed, or_default, dataset, starts_with,
}
use bottlerocket_core_kit.Datastore.Filesystem.{
  PercentEncoding, FilesystemDataStore, KeyPath, key_type, encode_path_component, path_suffix,
}
use bottlerocket_core_kit.Datastore.Filesystem.Located.{
  with_metadata, without_metadata, from_path-suffix, from_path-metadata,
}
use bottlerocket_core_kit.Datastore.Filesystem.Walk.{
  Entry, has_some, insert_new, collect_set, same_key_path, value_of, from_entry, accept, find_in,
  find_populated_key_paths, list_populated_keys,
}

module _ {A : Type 0} (test : A → Bool) where
  found_alike :
      (eq : A → A → Bool) (x : A) (members : List A)
      → ((y : A) → eq x y ≡ true → test x ≡ test y)
      → has_some (eq x) members ≡ true
      → test x ≡ true
      → has_some test members ≡ true
  unfolding has_some
  found_alike eq x [] alike h t = cc
  found_alike eq x (y ∷ rest) alike h t = elim (Bool-cases (eq x y)) [
    | inl same ↦ let here : test y ≡ true = sym (alike y same) ∙ t in rw here refl
    | inr other ↦
        let later = found_alike eq x rest alike (rw other at h) t in
        elim (Bool-cases (test y)) [
          | inl here ↦ rw here refl
          | inr missing ↦ rw (missing, later) refl
        ]
  ]

  has_some-insert_new :
      (eq : A → A → Bool) (x : A) (members : List A)
      → ((y : A) → eq x y ≡ true → test x ≡ test y)
      → has_some test (insert_new eq x members) ≡ (test x || has_some test members)
  unfolding insert_new
  has_some-insert_new eq x members alike = elim (Bool-cases (has_some (eq x) members)) [
    | inr fresh ↦ rw fresh (unfold has_some in refl)
    | inl known ↦ elim (Bool-cases (test x)) [
      | inl holds ↦ rw (known, holds) (found_alike eq x members alike known holds)
      | inr fails ↦ rw (known, fails) refl
    ]
  ]

  has_some-filter_by :
      (keep : A → Bool) (l : List A)
      → has_some test (filter_by keep l) ≡ has_some (λ x. keep x && test x) l
  unfolding has_some
  has_some-filter_by keep [] = refl
  has_some-filter_by keep (x ∷ l) = elim (Bool-cases (keep x)) [
    | inl kept ↦ rw (kept, has_some-filter_by keep l) refl
    | inr left ↦ rw (left, has_some-filter_by keep l) refl
  ]

same_key-alike : (key a b : Key) → same_key a b ≡ true → same_key key a ≡ same_key key b
same_key-alike key a b h =
    ap (λ segments. texts_eq key.segments segments) (texts_eq→eq a.segments b.segments h)

has_some-collect_set :
    (key : Key) (keys : List Key)
    → has_some (same_key key) (collect_set same_key keys) ≡ has_some (same_key key) keys
unfolding collect_set has_some
has_some-collect_set key [] = refl
has_some-collect_set key (x ∷ rest) =
    has_some-insert_new (same_key key) same_key x (collect_set same_key rest) (same_key-alike key x)
    ∙ rw (has_some-collect_set key rest) refl

-- What a walk meets: a directory, or a file of a data key, or of a metadata key of it with a name.
pub data Item : Type 0 where
  directory : Text → Item
  data_file : Key → Item
  metadata_file : Key → Text → Item

abbrev pub data_keys : List Item → List Key
data_keys [] = []
data_keys (directory _ ∷ rest) = data_keys rest
data_keys (data_file key ∷ rest) = key ∷ data_keys rest
data_keys (metadata_file _ _ ∷ rest) = data_keys rest

abbrev IsKey : Key → Type 0
IsKey key = from_segments data_type key.segments ≡ ok key

abbrev pub IsMade : Item → Type 0
IsMade (directory _) = Unit
IsMade (data_file key) = IsKey key
IsMade (metadata_file key _) = IsKey key

-- The same members, in any order.
abbrev pub SameMembers : List Key → List Key → Type 0
SameMembers a b = ((key : Key) → In key a → In key b) × ((key : Key) → In key b → In key a)

module _ (test : Key → Bool) where
  has_some-In : (l : List Key) → has_some test l ≡ true → (k : Key) × In k l × (test k ≡ true)
  unfolding has_some
  has_some-In [] h = cc
  has_some-In (x ∷ l) h = elim (Bool-cases (test x)) [
    | inl here ↦ (x, inl refl, here)
    | inr other ↦ let (k, m, t) = has_some-In l (rw other at h) in (k, inr m, t)
  ]

  In-has_some : (l : List Key) (k : Key) → In k l → test k ≡ true → has_some test l ≡ true
  unfolding has_some
  In-has_some [] k m t = absurd m
  In-has_some (x ∷ l) k (inl e) t = let here : test x ≡ true = ap test (sym e) ∙ t in rw here refl
  In-has_some (x ∷ l) k (inr m) t = rw (In-has_some l k m t) (ground (arith, Bool-cases (test x)))

  -- Whether some member has a property does not depend on the order.
  has_some-members : (a b : List Key) → SameMembers a b → has_some test a ≡ has_some test b
  has_some-members a b (to, back) = elim (Bool-cases (has_some test a)) [
    | inl yes_a ↦ let (k, m, t) = has_some-In a yes_a in yes_a ∙ sym (In-has_some b k (to k m) t)
    | inr no_a ↦ elim (Bool-cases (has_some test b)) [
      | inr no_b ↦ no_a ∙ sym no_b
      | inl yes_b ↦
          let (k, m, t) = has_some-In b yes_b in
          absurd (false≢true (sym no_a ∙ In-has_some a k (back k m) t))
    ]
  ]

abbrev paths_have : Key → List KeyPath → Bool
paths_have key key_paths = has_some (λ (kp : KeyPath). same_key key kp.data_key) key_paths

module _ ⦃p : PercentEncoding⦄ where
  abbrev pub entry_of : Item → Option Entry
  entry_of (directory path) = some (record { is_file = false; key_path_raw = path })
  entry_of (data_file key) =
      some (record { is_file = true; key_path_raw = path_suffix key.segments })
  entry_of (metadata_file key name) = some (record {
    is_file = true;
    key_path_raw = path_suffix key.segments ++ key_separator ∷ encode_path_component name;
  })

  accept-metadata :
      (prefix m : Text) (key : Key) (key_paths : List KeyPath)
      → accept data_type prefix
          (value_of (new_key meta_type m >>= λ metadata_key. ok (with_metadata key metadata_key)))
          key_paths
        ≡ key_paths
  unfolding accept key_type
  accept-metadata prefix m key key_paths = elim (Outcome-cases (new_key meta_type m)) [
    | inr (inl (e, bad)) ↦ rw bad refl
    | inr (inr bad) ↦ rw bad refl
    | inl (k, named) ↦ elim (Bool-cases (starts_with prefix key.name)) [
      | inl under ↦ rw (named, under) refl
      | inr other ↦ rw (named, other) refl
    ]
  ]

  accept-none :
      (prefix : Text) (key_paths : List KeyPath)
      → accept data_type prefix none key_paths ≡ key_paths
  unfolding accept
  accept-none prefix key_paths = refl

  accept-data :
      (prefix : Text) (key made : Key) (key_paths : List KeyPath)
      → paths_have key (accept data_type prefix (some (without_metadata made)) key_paths)
        ≡ ((starts_with prefix made.name && same_key key made) || paths_have key key_paths)
  unfolding accept key_type
  accept-data prefix key made key_paths = elim (Bool-cases (starts_with prefix made.name)) [
    | inr other ↦ rw other refl
    | inl under ↦ rw under (
        has_some-insert_new (λ (kp : KeyPath). same_key key kp.data_key) same_key_path
          (without_metadata made) key_paths
          (λ kp h. same_key-alike key made kp.data_key (&&-eq-true _ _ h).0))
  ]

  find_in-files :
      (prefix : Text) (files : List Item)
      → All IsMade files
      → (key_paths : List KeyPath) × (find_in data_type prefix (map entry_of files) ≡ ok key_paths)
        × ((key : Key)
            → paths_have key key_paths
              ≡ has_some
                  (λ (k : Key). starts_with prefix k.name && same_key key k)
                  (data_keys files))
  unfolding find_in from_entry has_some
  find_in-files prefix [] made = ([], refl, λ key. refl)
  find_in-files prefix (directory path ∷ files) made =
      let (key_paths, found, alike) = find_in-files prefix files made.1 in
      (key_paths, rw found (ap (λ l. ok l) (accept-none prefix key_paths)), alike)
  find_in-files prefix (data_file k ∷ files) made =
      let (key_paths, found, alike) = find_in-files prefix files made.1 in
      (
        accept data_type prefix (some (without_metadata k)) key_paths,
        rw (found, from_path-suffix k.segments k made.0) refl,
        λ key. accept-data prefix key k key_paths ∙ rw (alike key) refl,
      )
  find_in-files prefix (metadata_file k name ∷ files) made =
      let (key_paths, found, alike) = find_in-files prefix files made.1 in
      (
        key_paths,
        rw (found, from_path-metadata k.segments (encode_path_component name) k made.0)
            (ap (λ l. ok l) (accept-metadata prefix (encode_path_component name) k key_paths)),
        alike,
      )

  has_some-map :
      (key : Key) (key_paths : List KeyPath)
      → has_some (same_key key) (map (λ (kp : KeyPath). kp.data_key) key_paths)
        ≡ paths_have key key_paths
  unfolding has_some
  has_some-map key [] = refl
  has_some-map key (kp ∷ key_paths) = rw (has_some-map key key_paths) refl

  -- Where a walk of a store meets, in any order, directories, a file for each data key that a store in
  -- memory has and no other data key, and any files of metadata keys, and each data key is one that
  -- from_segments makes of its segments: listing the keys with a prefix does not fail, and finds a key
  -- just where the store in memory lists it for that prefix.
  pub list_populated_keys-agrees :
      (store : FilesystemDataStore) (memory : MemoryDataStore) (prefix : Text)
      (committed : Committed) (items : List Item)
      → All IsMade items
      → SameMembers (data_keys items) (map_keys (or_default (dataset memory committed)))
      → (keys : List Key) × (list_populated_keys store prefix committed (some (map entry_of items))
          ≡ ok keys)
        × ((key : Key)
            → has_some (same_key key) keys
              ≡ has_some (same_key key) (Memory.list_populated_keys memory prefix committed))
  unfolding list_populated_keys find_populated_key_paths Memory.list_populated_keys
  list_populated_keys-agrees store memory prefix committed items made same =
      let (key_paths, found, alike) = find_in-files prefix items made in
      let all_keys = map (λ (kp : KeyPath). kp.data_key) key_paths in
      let stored = map_keys (or_default (dataset memory committed)) in
      (
        collect_set same_key all_keys,
        rw found refl,
        λ key.
            has_some-collect_set key all_keys
            ∙ has_some-map key key_paths
            ∙ alike key
            ∙ has_some-members (λ k. starts_with prefix k.name && same_key key k) (data_keys items)
                stored same
            ∙ sym (has_some-filter_by (same_key key) (λ k. starts_with prefix k.name) stored),
      )
