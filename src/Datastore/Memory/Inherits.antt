-- ===== src/Datastore/Memory/Inherits.antt =====
-- Metadata are inherited from the keys above a data key.
use bottlerocket_core_kit.Prelude.{
  ◌+◌, ◌≤◌, ◌≡◌, refl, sym, ap, subst, ◌∙◌, inl, inr, true, false, Option, none, some, List, [],
  ◌∷◌, ◌++◌, map, String, leb, if◌then◌else◌, All, Bool-cases, arith, le→leb,
}
use mathlib.Core.List.{append_assoc}
use bottlerocket_core_kit.Prelude.Outcome.{ok, >>=-eq-ok}
use bottlerocket_core_kit.Prelude.HashMap.{HashMap, name_eq, get}
use bottlerocket_core_kit.Datastore.KeyMap.{key_eq}
use bottlerocket_core_kit.Datastore.Key.{
  Key, KeyType, data_type, key_separator, join, quoted, from_segments, encode_name_segments,
  check_key, max_key_name_length, new_key, parse_name_segments,
}
use bottlerocket_core_kit.Datastore.Key.Scan.{cost, byte_len-append}
use bottlerocket_core_kit.Datastore.Key.Parsed.{
  encode_segments-ok, byte_len-join, parse_name_segments-IsParsed,
}
use bottlerocket_core_kit.Datastore.Key.RoundTrip.{IsSegmentChar}
use bottlerocket_core_kit.Datastore.Memory.{
  Committed, MemoryDataStore, get_metadata_raw, metadata_to_use, get_metadata_loop, get_metadata,
}
use bottlerocket_core_kit.Datastore.Memory.Commits.{or_else}
use bottlerocket_core_kit.Prelude.Text.{Text, texts_eq, byte_len, is_empty}

-- The metadata that a key of these segments has itself.
abbrev pub own_metadata : MemoryDataStore → Key → Committed → List Text → Option String
own_metadata s metadata_key committed segments =
    get_metadata_raw s metadata_key (record { name = []; segments = segments }) committed

-- The nearest of the keys that begin with `front`, from the whole of the segments up.
abbrev pub nearest : (List Text → Option String) → List Text → List Text → Option String
nearest own front [] = none
nearest own front (x ∷ rest) = elim (nearest own (front ++ x ∷ []) rest) [
  | some md ↦ some md
  | none ↦ own (front ++ x ∷ [])
]

get-segments :
    {V : Type 0} (a b : Key) (m : HashMap Key V) → a.segments ≡ b.segments → get a m ≡ get b m
unfolding get
get-segments a b [] h = refl
get-segments a b ((j, w) ∷ m) h =
    rw (get-segments a b m h) (ap (λ s. if texts_eq j.segments s then some w else get b m) h)

own_metadata-raw :
    (s : MemoryDataStore) (metadata_key : Key) (c : Committed) (name : Text) (segments : List Text)
    → get_metadata_raw s metadata_key (record { name = name; segments = segments }) c
      ≡ own_metadata s metadata_key c segments
unfolding get_metadata_raw
own_metadata-raw s metadata_key c name segments =
    ap (λ found. elim found [ none ↦ none | some m ↦ get metadata_key m ])
      (get-segments (record { name = name; segments = segments })
        (record { name = []; segments = segments }) (metadata_to_use s c) refl)

cost-append : (a b : List Text) → cost (a ++ b) ≡ cost a + cost b
cost-append [] b = omega arith
cost-append (x ∷ a) b = omega (arith, cost-append a b)

All-front {ℓ κ} : {A : Type ℓ} (P : A → Type κ) (a b : List A) → All P (a ++ b) → All P a
All-front P [] b h = tt
All-front P (x ∷ a) b h = (h.0, All-front P a b h.1)

from_segments-ok :
    (front : List Text) (x : Text)
    → All (All IsSegmentChar) (front ++ x ∷ [])
    → cost (front ++ x ∷ []) ≤ 256
    → from_segments data_type (front ++ x ∷ [])
      ≡ ok (record { name = join (map quoted (front ++ x ∷ [])); segments = front ++ x ∷ [] })
unfolding from_segments encode_name_segments check_key
from_segments-ok front x fine short =
    let bound = byte_len-join (front ++ x ∷ []) in
    let small : leb (byte_len (join (map quoted (front ++ x ∷ [])))) max_key_name_length ≡ true =
      le→leb _ _ (omega (arith, bound, short)) in
    rw (encode_segments-ok (front ++ x ∷ []) (front ++ x ∷ []) fine, small, not_empty front x) refl
  where
    not_empty : (front : List Text) (x : Text) → is_empty (front ++ x ∷ []) ≡ false
    not_empty [] x = refl
    not_empty (y ∷ front) x = refl

cost-le : (l : List Text) → cost l ≤ byte_len (join (map quoted l)) + 1
unfolding join
cost-le [] = omega arith
cost-le (x ∷ []) = omega arith
cost-le (x ∷ y ∷ rest) = omega (
  arith,
  byte_len-append (quoted x) (key_separator ∷ join (map quoted (y ∷ rest))),
  cost-le (y ∷ rest),
)

check_key-short :
    (t : KeyType) (name : Text) (segments : List Text)
    → check_key t name segments ≡ ok tt
    → byte_len name ≤ max_key_name_length
unfolding check_key
check_key-short t name segments h = elim (Bool-cases (leb (byte_len name) max_key_name_length)) [
  | inl fine ↦ ground arith
  | inr long ↦ absurd (ground (arith, long))
]

or_else-none {ℓ} : {A : Type ℓ} (o : Option A) → or_else o none ≡ o
or_else-none none = refl
or_else-none (some a) = refl

module _ (s : MemoryDataStore) (metadata_key : Key) (c : Committed) where
  abbrev own : List Text → Option String
  own = own_metadata s metadata_key c

  deeper :
      (found here result : Option String)
      → or_else found (elim here [ some md ↦ some md | none ↦ result ])
        ≡ or_else (elim found [ some md ↦ some md | none ↦ here ]) result
  deeper (some md) here result = refl
  deeper none (some md) result = refl
  deeper none none result = refl

  loop_nearest :
      (front rest : List Text) (result : Option String)
      → All (All IsSegmentChar) (front ++ rest)
      → cost (front ++ rest) ≤ 256
      → get_metadata_loop s metadata_key c front rest result
        ≡ ok (or_else (nearest own front rest) result)
  unfolding get_metadata_loop
  loop_nearest front [] result fine short = refl
  loop_nearest front (x ∷ rest) result fine short =
      let assoc = append_assoc front (x ∷ []) rest in
      let fine' = subst (All (All IsSegmentChar)) (sym assoc) fine in
      let short' : cost ((front ++ x ∷ []) ++ rest) ≤ 256 =
        subst (λ l. cost l ≤ 256) (sym assoc) short in
      let made =
        from_segments-ok front x (All-front (All IsSegmentChar) (front ++ x ∷ []) rest fine')
          (omega (arith, short', cost-append (front ++ x ∷ []) rest)) in
      rw
        (
          made,
          own_metadata-raw s metadata_key c (join (map quoted (front ++ x ∷ []))) (front ++ x ∷ []),
        )
        (loop_nearest (front ++ x ∷ []) rest _ fine' short'
          ∙ ap ok (deeper (nearest own (front ++ x ∷ []) rest) (own (front ++ x ∷ [])) result))

  -- For every data key that `new` makes of a name, reading metadata never panics: it returns the
  -- metadata of the key itself, or else those of the nearest key above it that has them.
  pub get_metadata-nearest :
      (name : Text) (key : Key)
      → new_key data_type name ≡ ok key
      → get_metadata s metadata_key key c ≡ ok (nearest own [] key.segments)
  unfolding get_metadata new_key
  get_metadata-nearest name key h =
      let (segments, parsed, h₁) = >>=-eq-ok (parse_name_segments name) _ h in
      let (_, checked, h₂) = >>=-eq-ok (check_key data_type name segments) _ h₁ in
      let i = parse_name_segments-IsParsed name segments parsed in
      let same : record { name = name; segments = segments } ≡ key = cc in
      let short : cost segments ≤ 256 =
        omega
          (arith, cost-le segments, i.no_longer, check_key-short data_type name segments checked) in
      subst
        (λ (k : Key).
          get_metadata_loop s metadata_key c [] k.segments none ≡ ok (nearest own [] k.segments))
        same
        (loop_nearest [] segments none i.fine short
          ∙ ap ok (or_else-none (nearest own [] segments)))
