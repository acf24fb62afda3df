-- ===== src/Datastore/KeyMap.antt =====
-- Maps from keys compare them by their segments, as `PartialEq for Key` does.
use bottlerocket_core_kit.Prelude.{◌≡◌, ap, true}
use bottlerocket_core_kit.Prelude.HashMap.{EqTest}
use bottlerocket_core_kit.Prelude.Text.{texts_eq, texts_eq→eq, texts_eq_refl}
use bottlerocket_core_kit.Datastore.Key.{Key, same_key}

pub keys_same : (a b : Key) → same_key a b ≡ true → a.segments ≡ b.segments
keys_same a b h = texts_eq→eq a.segments b.segments h

instance abbrev pub key_eq : EqTest Key
key_eq = record {
  same = same_key;
  same_refl = λ a. texts_eq_refl a.segments;
  same_left = λ a b c h. ap (λ s. texts_eq s c.segments) (keys_same a b h);
  same_right = λ a b c h. ap (λ s. texts_eq c.segments s) (keys_same a b h);
}
