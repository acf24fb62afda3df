-- ===== src/Datastore/Filesystem.antt =====
-- sources/api/datastore/src/filesystem.rs: the files that keys are kept in, and the keys of files.
-- A path is its text, as on Linux; files and directories themselves are not modelled.
pub mod Components
pub mod Splits
pub mod Beneath
pub mod Located
pub mod Walk
mod Examples
use bottlerocket_core_kit.Prelude.{
  ℕ, ◌≡◌, Bool, true, false, not, ◌&&◌, ◌||◌, List, [], ◌∷◌, ◌++◌, map, Option, none, some, leb,
  ◌==◌, if◌then◌else◌, all_of, filter_by, first,
}
use bottlerocket_core_kit.Prelude.Outcome.{Outcome, ok, err, panic, ◌>>=◌, ◌>>◌, ensure, context}
use bottlerocket_core_kit.Prelude.Text.{Text, codes, text_eq, texts_eq, is_empty}
use bottlerocket_core_kit.Datastore.Error.{Error, internal_error, path_traversal, corruption}
use bottlerocket_core_kit.Datastore.Key.{
  KeyType, data_type, meta_type, Key, key_separator, new_key, from_segments,
}
use bottlerocket_core_kit.Datastore.Memory.{Committed, live_data, pending_data}

-- `/`
abbrev pub slash : ℕ
slash = 47

-- `join` of path components with the separator
unfoldable pub join_components : List Text → Text
join_components [] = []
join_components (x ∷ []) = x
join_components (x ∷ y ∷ rest) = x ++ slash ∷ join_components (y ∷ rest)

-- `split`, with the text since the last separator.
unfoldable pub split_from : ℕ → Text → Text → List Text
split_from separator seen [] = seen ∷ []
split_from separator seen (c ∷ s) = elim (c == separator) [
  | true ↦ seen ∷ split_from separator [] s
  | false ↦ split_from separator (seen ++ c ∷ []) s
]

-- `splitn(2, separator)`: the text before the first separator, and the text after it.
unfoldable pub split_once : ℕ → Text → Text × Option Text
split_once separator [] = ([], none)
split_once separator (c ∷ s) =
    let rest = split_once separator s in
    if c == separator then ([], some s) else (c ∷ rest.0, rest.1)

-- `Path::join` of a relative path
unfoldable pub push : Text → Text → Text
push [] path = path
push (c ∷ []) path = if c == slash then c ∷ path else c ∷ slash ∷ path
push (c ∷ d ∷ base) path = c ∷ push (d ∷ base) path

-- `Path::is_absolute`
abbrev pub is_absolute : Text → Bool
is_absolute [] = false
is_absolute (c ∷ _) = c == slash

-- `Path::join`: an absolute path takes the place of the base.
unfoldable pub join_path : Text → Text → Text
join_path base path = if is_absolute path then path else push base path

-- `Path::components`: the root or a leading dot, and the names, without the other dots.
abbrev pub ends_component : Text → Bool
ends_component [] = true
ends_component (c ∷ _) = c == slash

abbrev pub leading : Text → List Text
leading [] = []
leading (c ∷ s) =
    if c == slash
    then (slash ∷ []) ∷ []
    else if (c == key_separator) && ends_component s
    then (key_separator ∷ []) ∷ []
    else []

abbrev pub is_component : Text → Bool
is_component x = not (is_empty x) && not (text_eq x (key_separator ∷ []))

abbrev pub components : Text → List Text
components path = leading path ++ filter_by is_component (split_from slash [] path)

abbrev pub texts_prefix : List Text → List Text → Bool
texts_prefix [] theirs = true
texts_prefix (_ ∷ _) [] = false
texts_prefix (a ∷ ours) (b ∷ theirs) = text_eq a b && texts_prefix ours theirs

-- `PartialEq` of paths, and `Path::starts_with`
abbrev pub path_eq : Text → Text → Bool
path_eq path other = texts_eq (components path) (components other)

abbrev pub path_starts_with : Text → Text → Bool
path_starts_with path base = texts_prefix (components base) (components path)

-- Letters, digits, `_` and `-`: what `ENCODE_CHARACTERS` leaves as it is.
unfoldable pub kept_character : ℕ → Bool
kept_character c =
    (leb 97 c && leb c 122)
    || (leb 65 c && leb c 90)
    || (leb 48 c && leb c 57)
    || (c == 95)
    || (c == 45)

-- `%`
abbrev pub percent : ℕ
percent = 37

-- The `percent_encoding` crate, with `ENCODE_CHARACTERS`: encoded text is of the characters kept
-- and percent signs, a text of characters kept is its own encoding, and decoding undoes encoding.
pub record PercentEncoding : Type 0 where
  pub utf8_percent_encode : Text → Text
  pub percent_decode_utf8 : Text → Option Text
  pub decode_encode : (s : Text) → percent_decode_utf8 (utf8_percent_encode s) ≡ some s
  pub encode_characters :
      (s : Text) → all_of (λ c. kept_character c || (c == percent)) (utf8_percent_encode s) ≡ true
  pub encode_kept : (s : Text) → all_of kept_character s ≡ true → utf8_percent_encode s ≡ s

pub record FilesystemDataStore : Type 0 where
  pub live_path : Text
  pub pending_base_path : Text

-- `FilesystemDataStore::new`
abbrev pub new_store : Text → FilesystemDataStore
new_store base_path = record {
  live_path = join_path base_path (108 ∷ 105 ∷ 118 ∷ 101 ∷ []);
  pending_base_path = join_path base_path (112 ∷ 101 ∷ 110 ∷ 100 ∷ 105 ∷ 110 ∷ 103 ∷ []);
}

pub record KeyPath : Type 0 where
  pub data_key : Key
  pub metadata_key : Option Key

-- `KeyPath::key_type`
unfoldable pub key_type : KeyPath → KeyType
key_type path = elim path.metadata_key [ some _ ↦ meta_type | none ↦ data_type ]

module _ ⦃p : PercentEncoding⦄ where
  abbrev pub encode_path_component : Text → Text
  encode_path_component segment = p.utf8_percent_encode segment

  unfoldable pub decode_path_component : Text → Text → Outcome Error Text
  decode_path_component segment path = context (corruption path) (p.percent_decode_utf8 segment)

  unfoldable pub base_path : FilesystemDataStore → Committed → Text
  base_path store live_data = store.live_path
  base_path store (pending_data tx) =
      join_path store.pending_base_path (encode_path_component (codes tx))

  -- `path_suffix`
  abbrev pub path_suffix : List Text → Text
  path_suffix segments = join_components (map encode_path_component segments)

  unfoldable pub data_path : FilesystemDataStore → Key → Committed → Outcome Error Text
  data_path store key committed =
      let base = base_path store committed in
      let path = join_path base (path_suffix key.segments) in
      ensure (not (path_eq path base) && path_starts_with path base) (path_traversal key.name)
      >> ok path

  unfoldable pub metadata_path : FilesystemDataStore → Key → Key → Committed → Outcome Error Text
  metadata_path store metadata_key data_key committed = do
    path ← data_path store data_key committed
    raw_key_name ← context (internal_error metadata_key.name) (first metadata_key.segments)
    ok (path ++ key_separator ∷ encode_path_component raw_key_name)

  unfoldable pub decode_components : Text → List Text → Outcome Error (List Text)
  decode_components path [] = ok []
  decode_components path (x ∷ rest) = do
    segment ← decode_path_component x path
    segments ← decode_components path rest
    ok (segment ∷ segments)

  abbrev pub parsed_metadata : Option Text → Outcome Error (Option Key)
  parsed_metadata none = ok none
  parsed_metadata (some name) = do key ← new_key meta_type name; ok (some key)

  -- `KeyPath::from_path`: the path is one below the base, of UTF-8 text.
  unfoldable pub from_path : Text → Outcome Error KeyPath
  from_path path = do
    data_segments ← decode_components path (split_from slash [] (split_once key_separator path).0)
    data_key ← from_segments data_type data_segments
    metadata_key ← parsed_metadata (split_once key_separator path).1
    ok (record { data_key = data_key; metadata_key = metadata_key })
