-- ===== src/Datastore/Examples.antt =====
-- Keys such as a."b.c" and a store with a transaction, and the theorems about them.
use bottlerocket_core_kit.Prelude.{◌≤◌, ◌≡◌, refl, none, some, [], ◌∷◌, String, All, if◌then◌else◌}
use bottlerocket_core_kit.Prelude.Outcome.{ok}
use bottlerocket_core_kit.Prelude.HashMap.{name_eq, get, map_keys}
use bottlerocket_core_kit.Datastore.KeyMap.{key_eq}
use bottlerocket_core_kit.Datastore.Key.{
  data_type, Key, valid_character, parse_char, parse_chars, parse_name_segments, join, check_chars,
  encode_segments, encode_name_segments, check_key, new_key, from_segments, strip_prefix_segments,
  append_key,
}
use bottlerocket_core_kit.Datastore.Key.RoundTrip.{new_key-from_segments}
use bottlerocket_core_kit.Datastore.Key.Parsed.{from_segments-new_key}
use bottlerocket_core_kit.Datastore.Key.Prefix.{strip-append}
use bottlerocket_core_kit.Datastore.Memory.{
  Dataset, live_data, pending_data, MemoryDataStore, ApprovedWrite, approve, Check, get_key,
  get_prefix, list_populated_keys, get_metadata, commit_transaction,
}
use bottlerocket_core_kit.Datastore.Memory.Reads.{same_place, get_prefix-ok}
use bottlerocket_core_kit.Datastore.Memory.Commits.{
  or_else, commit_transaction-approved, commit_transaction-metadata,
}
use bottlerocket_core_kit.Datastore.Memory.Inherits.{own_metadata, nearest, get_metadata-nearest}
use bottlerocket_core_kit.Prelude.Text.{Text, byte_len}

-- a."b.c"
abbrev dotted : Key
dotted = record {
  name = 97 ∷ 46 ∷ 34 ∷ 98 ∷ 46 ∷ 99 ∷ 34 ∷ [];
  segments = (97 ∷ []) ∷ (98 ∷ 46 ∷ 99 ∷ []) ∷ [];
}

made : from_segments data_type dotted.segments ≡ ok dotted
unfolding from_segments encode_name_segments encode_segments check_chars valid_character join
    check_key
made = refl

new_key-from_segments_example : new_key data_type dotted.name ≡ ok dotted
new_key-from_segments_example =
    new_key-from_segments data_type dotted.segments dotted (refl, (refl, tt)) made

-- The quotes around a alone are not needed.
abbrev quoted_name : Text
quoted_name = 34 ∷ 97 ∷ 34 ∷ 46 ∷ 98 ∷ []

abbrev quoted_key : Key
quoted_key = record { name = quoted_name; segments = (97 ∷ []) ∷ (98 ∷ []) ∷ [] }

parsed : new_key data_type quoted_name ≡ ok quoted_key
unfolding new_key parse_name_segments parse_chars parse_char valid_character check_key
parsed = refl

from_segments-new_key_example :
    (canonical : Text) × (from_segments data_type quoted_key.segments
      ≡ ok (record { name = canonical; segments = quoted_key.segments }))
    × (byte_len canonical ≤ byte_len quoted_name)
from_segments-new_key_example = from_segments-new_key data_type quoted_name quoted_key parsed

abbrev plain : Key
plain = record { name = 100 ∷ []; segments = (100 ∷ []) ∷ [] }

abbrev longer : Key
longer = record {
  name = 97 ∷ 46 ∷ 34 ∷ 98 ∷ 46 ∷ 99 ∷ 34 ∷ 46 ∷ 100 ∷ [];
  segments = (97 ∷ []) ∷ (98 ∷ 46 ∷ 99 ∷ []) ∷ (100 ∷ []) ∷ [];
}

appended : append_key dotted plain ≡ ok longer
unfolding append_key from_segments encode_name_segments encode_segments check_chars valid_character
    join check_key
appended = refl

strip-append_example :
    strip_prefix_segments longer dotted.segments ≡ from_segments data_type plain.segments
strip-append_example = strip-append dotted plain longer appended

-- .a
abbrev headless : Key
headless = record { name = 46 ∷ 97 ∷ []; segments = [] ∷ (97 ∷ []) ∷ [] }

made_headless : from_segments data_type headless.segments ≡ ok headless
unfolding from_segments encode_name_segments encode_segments check_chars valid_character join
    check_key
made_headless = refl

abbrev filled : MemoryDataStore
filled = record {
  pending = ("t", (plain, "\"new\"") ∷ []) ∷ ("u", (dotted, "1") ∷ []) ∷ [];
  live = (plain, "\"old\"") ∷ (dotted, "2") ∷ [];
  metadata = (record { name = 97 ∷ []; segments = (97 ∷ []) ∷ [] }, (plain, "m") ∷ []) ∷ [];
  pending_metadata = [];
}

get_prefix-ok_example :
    (r : Dataset) × (get_prefix filled (97 ∷ []) live_data ≡ ok r)
    × (map_keys r ≡ list_populated_keys filled (97 ∷ []) live_data)
    × All (λ (e : Key × String). get_key filled e.0 live_data ≡ some e.1) r
get_prefix-ok_example = get_prefix-ok filled live_data (97 ∷ [])

-- A check that approves what is pending.
abbrev write : ApprovedWrite
write = record { settings = (plain, "\"new\"") ∷ []; approved_metadata = (plain, plain, "m") ∷ [] }

abbrev approving : Check
approving s c = (s, some (approve write))

commit_transaction-approved_example :
    ((commit_transaction filled "t" approving).1 ≡ ok (map_keys write.settings))
    × (get_key (commit_transaction filled "t" approving).0 plain live_data ≡ (
        if same_place (pending_data "t") live_data
        then none
        else if same_place live_data live_data
        then or_else (get plain write.settings) (get_key filled plain live_data)
        else get_key filled plain live_data))
commit_transaction-approved_example =
    commit_transaction-approved filled "t" approving filled write plain live_data refl
      (unfold get in (refl, tt))

commit_transaction-metadata_example :
    ((commit_transaction filled "t" approving).0.metadata
      ≡ (approving filled (pending_data "t")).0.metadata)
    × ((commit_transaction filled "t" approving).0.pending_metadata
        ≡ (approving filled (pending_data "t")).0.pending_metadata)
commit_transaction-metadata_example = commit_transaction-metadata filled "t" approving

get_metadata-nearest_example :
    get_metadata filled plain quoted_key live_data
    ≡ ok (nearest (own_metadata filled plain live_data) [] quoted_key.segments)
get_metadata-nearest_example =
    get_metadata-nearest filled plain live_data quoted_name quoted_key parsed
