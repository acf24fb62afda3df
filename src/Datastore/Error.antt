-- ===== src/Datastore/Error.antt =====
-- sources/api/datastore/src/error.rs: the variants that the modelled functions return. The message
-- of an invalid key is a constructor with the values that the text is made of.
use bottlerocket_core_kit.Prelude.{ℕ, String}
use bottlerocket_core_kit.Prelude.Text.{Text}

pub data Message : Type 0 where
  cannot_be_empty empty_key_segment unbalanced_quotes ends_with_separator : Message
  data_keys_need_a_segment meta_keys_have_one_segment : Message
  invalid_character_in_key : ℕ → Message
  segment_contains : Text → ℕ → Message
  prefix_matches_key : Text → Message

pub data Error : Type 0 where
  invalid_key : Text → Message → Error
  key_too_long : Text → ℕ → Error
  listed_key_not_present : Text → Error
  listed_meta_not_present : Text → Text → Error
  constraint_check_reject : String → Error
  internal_error path_traversal corruption : Text → Error
  list_keys_error : Error
