-- ===== src/Datastore/Filesystem/Located.antt =====
-- What the encoding of path components gives, and the key that a path leads back to.
use bottlerocket_core_kit.Prelude.{
  ℕ, ◌≡◌, refl, sym, ap, ◌∙◌, inl, inr, Bool, true, false, ◌||◌, List, [], ◌∷◌, ◌++◌, map, none,
  some, ◌==◌, All, all_of, Bool-cases, &&-eq-true, arith,
}
use bottlerocket_core_kit.Prelude.Outcome.{ok, err, ◌>>=◌, Outcome-cases}
use bottlerocket_core_kit.Prelude.Text.{Text}
use bottlerocket_core_kit.Datastore.Error.{Error, invalid_key, invalid_character_in_key}
use bottlerocket_core_kit.Datastore.Key.{
  data_type, meta_type, Key, Parsing, key_separator, valid_character, parse_char, parse_chars,
  parse_name_segments, join, check_key, encode_segments, encode_name_segments, start, new_key,
  from_segments,
}
use bottlerocket_core_kit.Datastore.Filesystem.{
  slash, split_from, kept_character, percent, PercentEncoding, KeyPath, encode_path_component,
  decode_path_component, path_suffix, decode_components, from_path,
}
use bottlerocket_core_kit.Datastore.Filesystem.Splits.{
  has, split-join, has-join, split_once-whole, split_once-append,
}

abbrev pub encoded_character : ℕ → Bool
encoded_character c = kept_character c || (c == percent)

pub encoded-has :
    (k : ℕ) (s : Text)
    → encoded_character k ≡ false
    → all_of encoded_character s ≡ true
    → has k s ≡ false
encoded-has k [] d h = refl
encoded-has k (c ∷ s) d h = elim (Bool-cases (c == k)) [
  | inl same ↦ absurd (ground (arith, kept_character))
  | inr other ↦ rw (other, encoded-has k s d (ground arith)) refl
]

module _ ⦃p : PercentEncoding⦄ where
  pub component-has :
      (k : ℕ) (s : Text) → encoded_character k ≡ false → has k (encode_path_component s) ≡ false
  component-has k s d = encoded-has k (encode_path_component s) d (p.encode_characters s)

  pub components-has :
      (k : ℕ) (l : List Text)
      → encoded_character k ≡ false
      → All (λ s. has k s ≡ false) (map encode_path_component l)
  components-has k [] d = tt
  components-has k (s ∷ l) d = (component-has k s d, components-has k l d)

  decode-encode-components :
      (path : Text) (l : List Text) → decode_components path (map encode_path_component l) ≡ ok l
  unfolding decode_components decode_path_component
  decode-encode-components path [] = refl
  decode-encode-components path (s ∷ l) =
      rw (p.decode_encode s, decode-encode-components path l) refl

  split-suffix :
      (path s : Text) (l : List Text)
      → decode_components path (split_from slash [] (path_suffix (s ∷ l))) ≡ ok (s ∷ l)
  split-suffix path s l =
      ap (decode_components path) (
        split-join (encode_path_component s) (map encode_path_component l)
          (components-has slash (s ∷ l) (unfold kept_character in refl)))
      ∙ decode-encode-components path (s ∷ l)

  suffix-has : (l : List Text) → has key_separator (path_suffix l) ≡ false
  suffix-has l =
      has-join key_separator (map encode_path_component l) refl
        (components-has key_separator l (unfold kept_character in refl))

no_segments : (key : Key) → ¬ (from_segments data_type [] ≡ ok key)
unfolding from_segments encode_name_segments encode_segments join check_key
no_segments key h = cc

-- A name of a key has no percent sign.
module _ (name : Text) where
  abbrev refused : Error
  refused = invalid_key name (invalid_character_in_key percent)

  percent_char :
      (c : ℕ) (q : Parsing)
      → encoded_character c ≡ true
      → kept_character c ≡ false
      → parse_char name c q ≡ err refused
  unfolding parse_char valid_character kept_character
  percent_char c q h k = let same : c ≡ percent = ground arith in rw same refl

  kept_char :
      (c : ℕ) (q : Parsing)
      → kept_character c ≡ true
      → parse_char name c q ≡ ok (record q { segment = q.segment ++ c ∷ [] })
  unfolding parse_char valid_character kept_character
  kept_char c q h = ground arith

  percent_chars :
      (s : Text) (q : Parsing)
      → all_of encoded_character s ≡ true
      → all_of kept_character s ≡ false
      → parse_chars name s q ≡ err refused
  unfolding parse_chars
  percent_chars [] q h k = cc
  percent_chars (c ∷ s) q h k = elim (Bool-cases (kept_character c)) [
    | inl kept ↦
        rw (kept_char c q kept) (
          percent_chars s (record q { segment = q.segment ++ c ∷ [] }) (rw kept at h)
            (rw kept at k))
    | inr other ↦ rw (percent_char c q (&&-eq-true (encoded_character c) _ h).0 other) refl
  ]

percent_name :
    (name : Text)
    → all_of encoded_character name ≡ true
    → all_of kept_character name ≡ false
    → new_key meta_type name ≡ err (invalid_key name (invalid_character_in_key percent))
unfolding new_key parse_name_segments
percent_name [] h k = cc
percent_name (c ∷ s) h k = rw (percent_chars (c ∷ s) (c ∷ s) start h k) refl

abbrev pub with_metadata : Key → Key → KeyPath
with_metadata data_key metadata_key = record {
  data_key = data_key;
  metadata_key = some metadata_key;
}

abbrev pub without_metadata : Key → KeyPath
without_metadata data_key = record { data_key = data_key; metadata_key = none }

module _ ⦃p : PercentEncoding⦄ where
  -- A text with a character that is not kept has a percent sign in its encoding.
  encode-other :
      (s : Text)
      → all_of kept_character s ≡ false
      → all_of kept_character (encode_path_component s) ≡ false
  encode-other s h = elim (Bool-cases (all_of kept_character (encode_path_component s))) [
    | inr other ↦ other
    | inl kept ↦
        let twice : some (encode_path_component s) ≡ some s =
          sym (p.decode_encode (encode_path_component s))
          ∙ ap p.percent_decode_utf8 (p.encode_kept (encode_path_component s) kept)
          ∙ p.decode_encode s in
        let same : encode_path_component s ≡ s = cc in absurd (cc)
  ]

  pub from_path-suffix :
      (segments : List Text) (key : Key)
      → from_segments data_type segments ≡ ok key
      → from_path (path_suffix segments) ≡ ok (without_metadata key)
  unfolding from_path
  from_path-suffix [] key made = absurd (no_segments key made)
  from_path-suffix (s ∷ l) key made =
      rw
        (
          split_once-whole key_separator (path_suffix (s ∷ l)) (suffix-has (s ∷ l)),
          split-suffix (path_suffix (s ∷ l)) s l,
          made,
        )
        refl

  pub from_path-metadata :
      (segments : List Text) (m : Text) (key : Key)
      → from_segments data_type segments ≡ ok key
      → from_path (path_suffix segments ++ key_separator ∷ m)
        ≡ (new_key meta_type m >>= λ metadata_key. ok (with_metadata key metadata_key))
  unfolding from_path
  from_path-metadata [] m key made = absurd (no_segments key made)
  from_path-metadata (s ∷ l) m key made =
      rw
        (
          split_once-append key_separator (path_suffix (s ∷ l)) m (suffix-has (s ∷ l)),
          split-suffix (path_suffix (s ∷ l) ++ key_separator ∷ m) s l,
          made,
        )
        (elim (Outcome-cases (new_key meta_type m)) [
          | inl (k, e) ↦ rw e refl
          | inr (inl (e, bad)) ↦ rw bad refl
          | inr (inr bad) ↦ rw bad refl
        ])

  -- The path below the base that a data key of from_segments is kept at leads back to that key; and
  -- the path of its metadata file, where the name of the metadata key is letters, digits, `_` and `-`
  -- only, leads back to the data key and the metadata key.
  pub from_path-located :
      (segments : List Text) (key metadata_key : Key) (name : Text)
      → from_segments data_type segments ≡ ok key
      → new_key meta_type name ≡ ok metadata_key
      → all_of kept_character name ≡ true
      → (from_path (path_suffix segments) ≡ ok (without_metadata key))
        × (from_path (path_suffix segments ++ key_separator ∷ encode_path_component name)
            ≡ ok (with_metadata key metadata_key))
  from_path-located segments key metadata_key name made named kept = (
    from_path-suffix segments key made,
    ap (λ m. from_path (path_suffix segments ++ key_separator ∷ m)) (p.encode_kept name kept)
        ∙ from_path-metadata segments name key made
        ∙ rw named refl,
  )

  -- Where the name of a metadata key has another character, as the dot in a quoted name or `/`, the
  -- path of its metadata file does not lead back: from_path takes the name from the path without
  -- decoding it and refuses its percent sign, whatever the data key.
  pub from_path-loses :
      (segments : List Text) (key : Key) (name : Text)
      → from_segments data_type segments ≡ ok key
      → all_of kept_character name ≡ false
      → from_path (path_suffix segments ++ key_separator ∷ encode_path_component name)
        ≡ err (invalid_key (encode_path_component name) (invalid_character_in_key percent))
  from_path-loses segments key name made other =
      from_path-metadata segments (encode_path_component name) key made
      ∙ rw
          (percent_name (encode_path_component name) (p.encode_characters name)
            (encode-other name other))
          refl
