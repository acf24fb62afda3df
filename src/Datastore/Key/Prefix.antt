-- ===== src/Datastore/Key/Prefix.antt =====
-- Keys that begin with given segments.
use bottlerocket_core_kit.Prelude.{
  ◌≡◌, refl, sym, ap, subst, ◌∙◌, true, false, List, [], ◌∷◌, ◌++◌, map, take, drop, ltb,
  if◌then◌else◌, length, arith,
}
use bottlerocket_core_kit.Prelude.Outcome.{ok, err, >>=-eq-ok}
use bottlerocket_core_kit.Datastore.Error.{invalid_key, empty_key_segment}
use bottlerocket_core_kit.Datastore.Key.{
  KeyType, data_type, Key, key_separator, parse_char, parse_chars, parse_name_segments, join,
  quoted, encode_segments, encode_name_segments, check_key, new_key, from_segments, goes_along,
  strip_prefix_segments, append_key, starts_with_segments,
}
use bottlerocket_core_kit.Datastore.Key.RoundTrip.{encode_segments-inversion}
use bottlerocket_core_kit.Prelude.Text.{Text, texts_eq, text_eq_refl}

goes_along-append : (p l : List Text) → goes_along (p ++ l) p ≡ true
unfolding goes_along
goes_along-append [] l = refl
goes_along-append (s ∷ p) l = rw (text_eq_refl s, goes_along-append p l)

drop-append : (p l : List Text) → drop (length p) (p ++ l) ≡ l
drop-append [] l = refl
drop-append (s ∷ p) l = drop-append p l

from_segments-parts :
    (t : KeyType) (l : List Text) (k : Key)
    → from_segments t l ≡ ok k
    → (l ≡ k.segments) × (encode_name_segments l ≡ ok k.name)
unfolding from_segments
from_segments-parts t l k h =
    let (name, encoded, h₁) = >>=-eq-ok (encode_name_segments l) _ h in
    let (_, _, h₂) = >>=-eq-ok (check_key t name l) _ h₁ in
    let same : record { name = name; segments = l } ≡ k = cc in
    (ap (λ (x : Key). x.segments) same, encoded ∙ ap (λ (x : Key). ok x.name) same)

-- Where one key is appended to another, the other's segments are stripped off again: what is left is
-- the key that the one's segments make.
pub strip-append :
    (front key joined : Key)
    → append_key front key ≡ ok joined
    → strip_prefix_segments joined front.segments ≡ from_segments data_type key.segments
unfolding append_key strip_prefix_segments
strip-append front key joined h =
    let (e, _) = from_segments-parts data_type (front.segments ++ key.segments) joined h in
    rw (
      sym e,
      goes_along-append front.segments key.segments,
      drop-append front.segments key.segments,
    )

take_along :
    (ours theirs : List Text)
    → (if ltb (length ours) (length theirs)
        then false
        else texts_eq (take (length theirs) ours) theirs)
      ≡ goes_along ours theirs
unfolding goes_along
take_along ours [] = ground arith
take_along [] (b ∷ theirs) = ground arith
take_along (a ∷ ours) (b ∷ theirs) = ground (arith, take_along ours theirs)

-- `starts_with_segments`, by the slice, and the loop of `strip_prefix_segments` make the same test.
pub starts_with_segments-eq :
    (key : Key) (segments : List Text)
    → starts_with_segments key segments ≡ goes_along key.segments segments
unfolding starts_with_segments
starts_with_segments-eq key segments = take_along key.segments segments

separator_first :
    (t : KeyType) (cs : Text)
    → new_key t (key_separator ∷ cs) ≡ err (invalid_key (key_separator ∷ cs) empty_key_segment)
unfolding new_key parse_name_segments parse_chars parse_char
separator_first t cs = refl

-- A first segment that is empty, with others after it, makes a key by `from_segments` whose name
-- `new` refuses.
pub empty_segment_unparsed :
    (t : KeyType) (s : Text) (rest : List Text) (key : Key)
    → from_segments t ([] ∷ s ∷ rest) ≡ ok key
    → new_key t key.name ≡ err (invalid_key key.name empty_key_segment)
unfolding encode_name_segments
empty_segment_unparsed t s rest key h =
    let (_, encoded) = from_segments-parts t ([] ∷ s ∷ rest) key h in
    let (outputs, made, h₁) =
      >>=-eq-ok (encode_segments ([] ∷ s ∷ rest) ([] ∷ s ∷ rest)) _ encoded in
    let (_, same) = encode_segments-inversion ([] ∷ s ∷ rest) ([] ∷ s ∷ rest) outputs made in
    let name_eq : key_separator ∷ join (map quoted (s ∷ rest)) ≡ key.name = ground (arith, same) in
    subst (λ n. new_key t n ≡ err (invalid_key n empty_key_segment)) name_eq
      (separator_first t (join (map quoted (s ∷ rest))))
