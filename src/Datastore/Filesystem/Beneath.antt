-- ===== src/Datastore/Filesystem/Beneath.antt =====
-- The paths of keys lie beneath the base path of the store.
use bottlerocket_core_kit.Prelude.{
  ◌≡◌, refl, sym, ap, ◌∙◌, inl, inr, Bool, true, false, not, ◌&&◌, List, [], ◌∷◌, ◌++◌, map, some,
  ◌==◌, All, all_of, filter_by, Bool-cases, &&-eq-true, arith,
}
use bottlerocket_core_kit.Prelude.Outcome.{ok}
use bottlerocket_core_kit.Prelude.Text.{Text, is_empty}
use bottlerocket_core_kit.Datastore.Key.{key_separator}
use bottlerocket_core_kit.Datastore.Key.RoundTrip.{NonEmpty}
use bottlerocket_core_kit.Datastore.Memory.{Committed}
use bottlerocket_core_kit.Datastore.Filesystem.{
  slash, join_components, push, is_absolute, join_path, leading, is_component, components,
  kept_character, PercentEncoding, FilesystemDataStore, base_path, encode_path_component,
  path_suffix, data_path,
}
use bottlerocket_core_kit.Datastore.Filesystem.Components.{
  components-push, starts_with-push, eq-push,
}
use bottlerocket_core_kit.Datastore.Filesystem.Splits.{split-join}
use bottlerocket_core_kit.Datastore.Filesystem.Located.{encoded_character, components-has}

abbrev starts_well : Text → Bool
starts_well [] = false
starts_well (c ∷ _) = not (c == slash) && not (c == key_separator)

starts_well-append : (s t : Text) → starts_well s ≡ true → starts_well (s ++ t) ≡ true
starts_well-append [] t h = cc
starts_well-append (c ∷ s) t h = h

starts_well-leading : (s : Text) → starts_well s ≡ true → leading s ≡ []
starts_well-leading [] h = refl
starts_well-leading (c ∷ s) h = ground arith

starts_well-relative : (s : Text) → starts_well s ≡ true → is_absolute s ≡ false
starts_well-relative [] h = refl
starts_well-relative (c ∷ s) h = ground arith

starts_well-component : (s : Text) → starts_well s ≡ true → is_component s ≡ true
starts_well-component [] h = cc
starts_well-component (c ∷ s) h = ground arith

encoded-starts_well :
    (s : Text) → all_of encoded_character s ≡ true → NonEmpty s → starts_well s ≡ true
unfolding kept_character
encoded-starts_well [] h n = cc
encoded-starts_well (c ∷ s) h n =
    let safe = (&&-eq-true (encoded_character c) _ h).0 in ground arith

is_empty→eq : (s : Text) → is_empty s ≡ true → s ≡ []
is_empty→eq [] h = refl
is_empty→eq (c ∷ s) h = cc

module _ ⦃p : PercentEncoding⦄ where
  encode-NonEmpty : (s : Text) → NonEmpty s → NonEmpty (encode_path_component s)
  encode-NonEmpty s n = elim (Bool-cases (is_empty (encode_path_component s))) [
    | inr full ↦ full
    | inl vacant ↦
        let nothing = is_empty→eq (encode_path_component s) vacant in
        let same : some [] ≡ some s =
          sym (p.decode_encode [])
          ∙ ap p.percent_decode_utf8 (p.encode_kept [] refl ∙ sym nothing)
          ∙ p.decode_encode s in
        let blank : [] ≡ s = cc in absurd (cc)
  ]

  component-starts_well : (s : Text) → NonEmpty s → starts_well (encode_path_component s) ≡ true
  component-starts_well s n =
      encoded-starts_well (encode_path_component s) (p.encode_characters s) (encode-NonEmpty s n)

  filter_components :
      (l : List Text)
      → All NonEmpty l
      → filter_by is_component (map encode_path_component l) ≡ map encode_path_component l
  filter_components [] n = refl
  filter_components (s ∷ l) n =
      rw
        (
          starts_well-component (encode_path_component s) (component-starts_well s n.0),
          filter_components l n.1,
        )
        refl

  suffix-starts_well :
      (s : Text) (l : List Text) → NonEmpty s → starts_well (path_suffix (s ∷ l)) ≡ true
  unfolding join_components
  suffix-starts_well s [] n = component-starts_well s n
  suffix-starts_well s (t ∷ l) n =
      starts_well-append (encode_path_component s) _ (component-starts_well s n)

  components-suffix :
      (s : Text) (l : List Text)
      → All NonEmpty (s ∷ l)
      → components (path_suffix (s ∷ l)) ≡ map encode_path_component (s ∷ l)
  components-suffix s l n =
      rw
        (
          starts_well-leading (path_suffix (s ∷ l)) (suffix-starts_well s l n.0),
          split-join (encode_path_component s) (map encode_path_component l)
              (components-has slash (s ∷ l) (unfold kept_character in refl)),
        )
        (filter_components (s ∷ l) n)

  -- A key with segments that are not empty has a path in every store, live or pending, and under any
  -- base path: data_path does not fail, and the path's components are those of the base path and then
  -- the encoded segments, one for each.
  pub data_path-beneath :
      (store : FilesystemDataStore) (committed : Committed) (name s : Text) (l : List Text)
      → All NonEmpty (s ∷ l)
      → (path : Text) × (data_path store (record { name = name; segments = s ∷ l }) committed
          ≡ ok path)
        × (components path
            ≡ components (base_path store committed) ++ map encode_path_component (s ∷ l))
  unfolding data_path join_path
  data_path-beneath store committed name s l n =
      let base = base_path store committed in
      let suffix = path_suffix (s ∷ l) in
      let well = suffix-starts_well s l n.0 in
      let start = starts_well-leading suffix well in
      let parts = components-suffix s l n in
      (
        push base suffix,
        rw
            (
              starts_well-relative suffix well,
              eq-push base suffix (encode_path_component s) (map encode_path_component l) start
                  parts,
              starts_with-push base suffix start,
            )
            refl,
        components-push base suffix start ∙ ap (λ c. components base ++ c) parts,
      )
