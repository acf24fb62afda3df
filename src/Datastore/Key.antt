-- ===== src/Datastore/Key.antt =====
-- sources/api/datastore/src/key.rs: the names of keys, their segments, and the operations on keys.
pub mod RoundTrip
pub mod Scan
pub mod Parsed
pub mod Prefix
use bottlerocket_core_kit.Prelude.{
  ℕ, Bool, true, false, not, ◌&&◌, ◌||◌, List, [], ◌∷◌, ◌++◌, Option, none, some, ltb, leb, ◌==◌,
  if◌then◌else◌, length, take, drop, get_elem?,
}
use bottlerocket_core_kit.Prelude.Outcome.{Outcome, ok, err, panic, ◌>>=◌, ◌>>◌, ensure}
use bottlerocket_core_kit.Datastore.Error.{
  Error, Message, invalid_key, key_too_long, cannot_be_empty, empty_key_segment, unbalanced_quotes,
  ends_with_separator, data_keys_need_a_segment, meta_keys_have_one_segment,
  invalid_character_in_key, segment_contains, prefix_matches_key,
}
use bottlerocket_core_kit.Prelude.Text.{Text, text_eq, texts_eq, is_empty, byte_len}

-- `.`
abbrev pub key_separator : ℕ
key_separator = 46

-- `"`
abbrev pub quote : ℕ
quote = 34

abbrev pub max_key_name_length : ℕ
max_key_name_length = 255

pub data KeyType : Type 0 where
  data_type meta_type : KeyType

pub record Key : Type 0 where
  pub name : Text
  pub segments : List Text

abbrev in_range : ℕ → ℕ → ℕ → Bool
in_range first last c = leb first c && leb c last

-- Letters, digits, `_`, `-` and `/`.
unfoldable pub valid_character : ℕ → Bool
valid_character c =
    in_range 97 122 c || in_range 65 90 c || in_range 48 57 c || (c == 95) || (c == 45) || (c == 47)

-- The variables of the loop of `parse_name_segments`.
pub record Parsing : Type 0 where
  pub parsed : List Text
  pub segment : Text
  pub in_quotes : Bool

-- One round of the loop.
unfoldable pub parse_char : Text → ℕ → Parsing → Outcome Error Parsing
parse_char name c p =
    if c == quote
    then ok (record p { in_quotes = not p.in_quotes })
    else if c == key_separator
    then (if p.in_quotes
        then ok (record p { segment = p.segment ++ c ∷ [] })
        else if is_empty p.segment
        then err (invalid_key name empty_key_segment)
        else ok (record p { parsed = p.parsed ++ p.segment ∷ []; segment = [] }))
    else if valid_character c
    then ok (record p { segment = p.segment ++ c ∷ [] })
    else err (invalid_key name (invalid_character_in_key c))

unfoldable pub parse_chars : Text → Text → Parsing → Outcome Error Parsing
parse_chars name [] p = ok p
parse_chars name (c ∷ cs) p = do p ← parse_char name c p; parse_chars name cs p

unfoldable pub parse_end : Text → Parsing → Outcome Error (List Text)
parse_end name p = do
  ensure (not p.in_quotes) (invalid_key name unbalanced_quotes)
  ensure (not (is_empty p.segment)) (invalid_key name ends_with_separator)
  ok (p.parsed ++ p.segment ∷ [])

abbrev pub start : Parsing
start = record { parsed = []; segment = []; in_quotes = false }

unfoldable pub parse_name_segments : Text → Outcome Error (List Text)
unfolding parse_end
parse_name_segments name = do
  ensure (not (is_empty name)) (invalid_key name cannot_be_empty)
  p ← parse_chars name name start
  parse_end name p

-- `join` with the separator
unfoldable pub join : List Text → Text
join [] = []
join (x ∷ []) = x
join (x ∷ y ∷ rest) = x ++ key_separator ∷ join (y ∷ rest)

unfoldable pub check_chars : List Text → Text → Text → Outcome Error (Unit {0})
check_chars all segment [] = ok tt
check_chars all segment (c ∷ cs) = do
  ensure ((c == key_separator) || valid_character c)
      (invalid_key (join all) (segment_contains segment c))
  check_chars all segment cs

abbrev pub has_separator : Text → Bool
has_separator [] = false
has_separator (c ∷ cs) = (c == key_separator) || has_separator cs

abbrev pub quoted : Text → Text
quoted segment = if has_separator segment then quote ∷ (segment ++ quote ∷ []) else segment

-- The `outputs` of the loop over the segments.
unfoldable pub encode_segments : List Text → List Text → Outcome Error (List Text)
unfolding check_chars
encode_segments all [] = ok []
encode_segments all (segment ∷ rest) = do
  check_chars all segment segment
  outputs ← encode_segments all rest
  ok (quoted segment ∷ outputs)

unfoldable pub encode_name_segments : List Text → Outcome Error Text
unfolding join
encode_name_segments segments = do outputs ← encode_segments segments segments; ok (join outputs)

unfoldable pub check_key : KeyType → Text → List Text → Outcome Error (Unit {0})
check_key key_type name segments = do
  ensure (leb (byte_len name) max_key_name_length) (key_too_long name max_key_name_length)
  elim key_type [
    | data_type ↦ ensure (not (is_empty segments)) (invalid_key name data_keys_need_a_segment)
    | meta_type ↦ ensure (length segments == 1) (invalid_key name meta_keys_have_one_segment)
  ]

-- `Key::new`
unfoldable pub new_key : KeyType → Text → Outcome Error Key
new_key key_type name = do
  segments ← parse_name_segments name
  check_key key_type name segments
  ok (record { name = name; segments = segments })

unfoldable pub from_segments : KeyType → List Text → Outcome Error Key
from_segments key_type segments = do
  name ← encode_name_segments segments
  check_key key_type name segments
  ok (record { name = name; segments = segments })

-- `str::strip_prefix`: the rest of a string after a prefix.
abbrev pub after_prefix : Text → Text → Option Text
after_prefix [] s = some s
after_prefix (_ ∷ _) [] = none
after_prefix (a ∷ p) (b ∷ s) = if a == b then after_prefix p s else none

-- Where the name starts with the text to strip, `replacen(.., 1)` takes away just that.
unfoldable pub strip_prefix : Key → Text → Outcome Error Key
strip_prefix key prefix = do
  ensure (not (text_eq prefix key.name)) (invalid_key [] (prefix_matches_key prefix))
  new_key data_type (elim (after_prefix (prefix ++ key_separator ∷ []) key.name) [
    | some name ↦ name
    | none ↦ key.name
  ])

-- The loop over the given segments: whether the key's segments go along with all of them.
unfoldable pub goes_along : List Text → List Text → Bool
goes_along ours [] = true
goes_along [] (_ ∷ _) = false
goes_along (a ∷ ours) (b ∷ theirs) = text_eq a b && goes_along ours theirs

unfoldable pub strip_prefix_segments : Key → List Text → Outcome Error Key
strip_prefix_segments key prefix =
    if goes_along key.segments prefix
    then from_segments data_type (drop (length prefix) key.segments)
    else ok key

unfoldable pub append_segments : Key → List Text → Outcome Error Key
append_segments key segments = from_segments data_type (key.segments ++ segments)

unfoldable pub append_key : Key → Key → Outcome Error Key
append_key key other = from_segments data_type (key.segments ++ other.segments)

-- `zip` stops at the end of the shorter list; the slice panics where the key is shorter, which the
-- test before it excludes.
unfoldable pub starts_with_segments : Key → List Text → Bool
starts_with_segments key segments =
    if ltb (length key.segments) (length segments)
    then false
    else texts_eq (take (length segments) key.segments) segments

-- `PartialEq` of `Key`
abbrev pub same_key : Key → Key → Bool
same_key a b = texts_eq a.segments b.segments
