-- ===== src/Datastore/Filesystem/Examples.antt =====
-- An encoding that has the laws, and the theorems at the files of a."b.c" and its metadata.
use bottlerocket_core_kit.Prelude.{
  ℕ, zero, suc, ◌+◌, ◌≡◌, refl, ap, ◌∙◌, inl, inr, Bool, true, false, ◌||◌, List, [], ◌∷◌, ◌++◌,
  map, Option, none, some, ◌==◌, if◌then◌else◌, all_of, Bool-cases, &&-eq-true, arith,
}
use bottlerocket_core_kit.Prelude.Outcome.{ok, err}
use bottlerocket_core_kit.Prelude.Text.{Text}
use bottlerocket_core_kit.Datastore.Error.{invalid_key, invalid_character_in_key}
use bottlerocket_core_kit.Datastore.Key.{
  data_type, meta_type, Key, key_separator, same_key, valid_character, parse_char, parse_chars,
  parse_name_segments, join, check_chars, encode_segments, encode_name_segments, check_key, new_key,
  from_segments,
}
use bottlerocket_core_kit.Prelude.HashMap.{map_keys}
use bottlerocket_core_kit.Datastore.KeyMap.{key_eq}
use bottlerocket_core_kit.Datastore.Memory as Memory
use bottlerocket_core_kit.Datastore.Memory.{
  MemoryDataStore, live_data, or_default, dataset, starts_with,
}
use bottlerocket_core_kit.Datastore.Filesystem.Walk.{
  has_some, insert_new, collect_set, from_entry, accept, find_in, find_populated_key_paths,
  list_populated_keys,
}
use bottlerocket_core_kit.Datastore.Filesystem.Walk.Listed.{
  Item, directory, data_file, metadata_file, data_keys, SameMembers, entry_of,
  list_populated_keys-agrees,
}
use bottlerocket_core_kit.Datastore.Filesystem.{
  kept_character, percent, PercentEncoding, FilesystemDataStore, decode_components,
  decode_path_component, split_once, join_components, key_type, new_store, base_path, components,
  split_from, encode_path_component, path_suffix, data_path, from_path,
}
use bottlerocket_core_kit.Datastore.Filesystem.Located.{
  with_metadata, without_metadata, from_path-located, from_path-loses,
}
use bottlerocket_core_kit.Datastore.Filesystem.Beneath.{data_path-beneath}

-- A character that is not kept is written as a percent sign, as many zeros as its number, and a one.
abbrev zeros : ℕ → Text
zeros zero = []
zeros (suc n) = 48 ∷ zeros n

abbrev escape : ℕ → Text
escape c = if kept_character c then c ∷ [] else percent ∷ (zeros c ++ 49 ∷ [])

abbrev encode : Text → Text
encode [] = []
encode (c ∷ s) = escape c ++ encode s

abbrev then_text : ℕ → Option Text → Option Text
then_text c none = none
then_text c (some s) = some (c ∷ s)

-- With the zeros counted since a percent sign.
unfoldable decode : Option ℕ → Text → Option Text
decode none [] = some []
decode (some _) [] = none
decode none (c ∷ s) = elim (c == percent) [
  | true ↦ decode (some 0) s
  | false ↦ then_text c (decode none s)
]
decode (some n) (c ∷ s) = elim (c == 48) [
  | true ↦ decode (some (suc n)) s
  | false ↦ then_text n (decode none s)
]

decode-zeros :
    (c n : ℕ) (s : Text)
    → decode (some n) ((zeros c ++ 49 ∷ []) ++ s) ≡ then_text (c + n) (decode none s)
unfolding decode
decode-zeros zero n s = ap (λ k. then_text k (decode none s)) (omega arith)
decode-zeros (suc c) n s =
    decode-zeros c (suc n) s ∙ ap (λ k. then_text k (decode none s)) (omega arith)

decode-encode : (s : Text) → decode none (encode s) ≡ some s
unfolding decode kept_character
decode-encode [] = refl
decode-encode (c ∷ s) = elim (Bool-cases (kept_character c)) [
  | inl kept ↦
      let other : (c == percent) ≡ false = ground arith in
      rw (kept, other, decode, decode-encode s) refl
  | inr other ↦
      rw other
        (decode-zeros c 0 (encode s) ∙ rw (decode-encode s) (ap (λ k. some (k ∷ s)) (omega arith)))
]

abbrev fine : ℕ → Bool
fine c = kept_character c || (c == percent)

all_of-append :
    (a b : Text) → all_of fine a ≡ true → all_of fine b ≡ true → all_of fine (a ++ b) ≡ true
all_of-append [] b ha hb = hb
all_of-append (c ∷ a) b ha hb =
    let (p, q) = &&-eq-true (fine c) _ ha in rw (p, all_of-append a b q hb) refl

zeros-fine : (c : ℕ) → all_of fine (zeros c ++ 49 ∷ []) ≡ true
unfolding kept_character
zeros-fine zero = refl
zeros-fine (suc c) = zeros-fine c

escape-fine : (c : ℕ) → all_of fine (escape c) ≡ true
escape-fine c = elim (Bool-cases (kept_character c)) [
  | inl kept ↦ rw (kept, kept) refl
  | inr other ↦ rw (other, zeros-fine c) (unfold kept_character in refl)
]

encode-fine : (s : Text) → all_of fine (encode s) ≡ true
encode-fine [] = refl
encode-fine (c ∷ s) = all_of-append (escape c) (encode s) (escape-fine c) (encode-fine s)

encode-kept : (s : Text) → all_of kept_character s ≡ true → encode s ≡ s
encode-kept [] h = refl
encode-kept (c ∷ s) h =
    let (p, q) = &&-eq-true (kept_character c) _ h in rw (p, encode-kept s q) refl

instance abbrev escapes : PercentEncoding
escapes = record {
  utf8_percent_encode = encode;
  percent_decode_utf8 = decode none;
  decode_encode = decode-encode;
  encode_characters = encode-fine;
  encode_kept = encode-kept;
}

-- The data key a."b.c", the metadata key m, and a store below /d.
abbrev file_segments : List Text
file_segments = (97 ∷ []) ∷ (98 ∷ 46 ∷ 99 ∷ []) ∷ []

abbrev file_key : Key
file_key = record { name = 97 ∷ 46 ∷ 34 ∷ 98 ∷ 46 ∷ 99 ∷ 34 ∷ []; segments = file_segments }

abbrev meta_key : Key
meta_key = record { name = 109 ∷ []; segments = (109 ∷ []) ∷ [] }

abbrev some_store : FilesystemDataStore
some_store = new_store (47 ∷ 100 ∷ [])

file_made : from_segments data_type file_segments ≡ ok file_key
unfolding from_segments encode_name_segments encode_segments check_chars valid_character join
    check_key
file_made = refl

meta_named : new_key meta_type (109 ∷ []) ≡ ok meta_key
unfolding new_key parse_name_segments parse_chars parse_char valid_character check_key
meta_named = refl

-- A dot is taken for a component of its own only where it stands alone.
dots_left_out :
    components (46 ∷ 47 ∷ 97 ∷ 47 ∷ 46 ∷ 47 ∷ 98 ∷ []) ≡ (46 ∷ []) ∷ (97 ∷ []) ∷ (98 ∷ []) ∷ []
unfolding split_from
dots_left_out = refl

from_path-located_example :
    (from_path (path_suffix file_segments) ≡ ok (without_metadata file_key))
    × (from_path (path_suffix file_segments ++ key_separator ∷ encode_path_component (109 ∷ []))
        ≡ ok (with_metadata file_key meta_key))
from_path-located_example =
    from_path-located file_segments file_key meta_key (109 ∷ []) file_made meta_named
      (unfold kept_character in refl)

-- The metadata key "m.n"
from_path-loses_example :
    from_path
      (path_suffix file_segments ++ key_separator ∷ encode_path_component (109 ∷ 46 ∷ 110 ∷ []))
    ≡ err (
        invalid_key
          (encode_path_component (109 ∷ 46 ∷ 110 ∷ []))
          (invalid_character_in_key percent))
from_path-loses_example =
    from_path-loses file_segments file_key (109 ∷ 46 ∷ 110 ∷ []) file_made
      (unfold kept_character in refl)

data_path-beneath_example :
    (path : Text) × (data_path some_store file_key live_data ≡ ok path)
    × (components path
        ≡ components (base_path some_store live_data) ++ map encode_path_component file_segments)
data_path-beneath_example =
    data_path-beneath some_store live_data file_key.name (97 ∷ []) ((98 ∷ 46 ∷ 99 ∷ []) ∷ [])
      (refl, (refl, tt))

-- A directory of which the name could be a key, the files of a."b.c" and of its metadata m.n, and a
-- store in memory with that key.
abbrev some_items : List Item
some_items =
    directory []
    ∷ directory (97 ∷ [])
    ∷ metadata_file file_key (109 ∷ 46 ∷ 110 ∷ [])
    ∷ data_file file_key
    ∷ []

abbrev some_memory : MemoryDataStore
some_memory = record Memory.new_store { live = (file_key, "1") ∷ [] }

one_key_listed :
    list_populated_keys some_store (97 ∷ []) live_data (some (map entry_of some_items))
    ≡ ok (file_key ∷ [])
unfolding list_populated_keys find_populated_key_paths find_in from_entry accept collect_set
    insert_new has_some from_path decode_components decode_path_component decode split_from
    split_once join_components kept_character from_segments encode_name_segments encode_segments
    check_chars valid_character join check_key new_key parse_name_segments parse_chars parse_char
    key_type
one_key_listed = refl

same_keys :
    SameMembers (data_keys some_items) (map_keys (or_default (dataset some_memory live_data)))
unfolding dataset map_keys
same_keys = (λ key m. m, λ key m. m)

list_populated_keys-agrees_example :
    (keys : List Key) × (list_populated_keys some_store
        (97 ∷ [])
        live_data
        (some (map entry_of some_items))
      ≡ ok keys)
    × ((key : Key)
        → has_some (same_key key) keys
          ≡ has_some (same_key key) (Memory.list_populated_keys some_memory (97 ∷ []) live_data))
list_populated_keys-agrees_example =
    list_populated_keys-agrees some_store some_memory (97 ∷ []) live_data some_items
      (tt, (tt, (file_made, (file_made, tt)))) same_keys
