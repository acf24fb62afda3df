-- ===== src/Datastore/Key/Parsed.antt =====
-- What the segments of a parsed name are, and the name that they are encoded to.
use bottlerocket_core_kit.Prelude.{
  ◌-◌, ◌≤◌, ◌≡◌, refl, subst, inl, inr, not, List, [], ◌∷◌, ◌++◌, map, All, Bool-cases, arith,
}
use bottlerocket_core_kit.Prelude.Outcome.{ok, ensure, >>=-eq-ok}
use bottlerocket_core_kit.Datastore.Key.{
  KeyType, data_type, meta_type, Key, Parsing, key_separator, parse_chars, parse_end, start,
  parse_name_segments, join, check_chars, quoted, encode_segments, encode_name_segments, check_key,
  new_key, from_segments,
}
use bottlerocket_core_kit.Datastore.Key.RoundTrip.{IsSegmentChar, NonEmpty}
use bottlerocket_core_kit.Prelude.Text.{Text, is_empty, byte_len}
use bottlerocket_core_kit.Datastore.Key.Scan.{
  byte_len-append, All-snoc, cost, cost-snoc, byte_len-quoted, IsParsing, parse_chars-IsParsing,
}

pub byte_len-join : (l : List Text) → byte_len (join (map quoted l)) ≤ cost l - 1
unfolding join
byte_len-join [] = omega arith
byte_len-join (s ∷ []) = omega arith
byte_len-join (s ∷ t ∷ rest) = omega (
  arith,
  byte_len-append (quoted s) (key_separator ∷ join (map quoted (t ∷ rest))),
  byte_len-join (t ∷ rest),
)

check_chars-ok :
    (all : List Text) (segment cs : Text)
    → All IsSegmentChar cs
    → check_chars all segment cs ≡ ok tt
unfolding check_chars
check_chars-ok all segment [] h = refl
check_chars-ok all segment (c ∷ cs) h = rw h.0 (check_chars-ok all segment cs h.1)

pub encode_segments-ok :
    (all segments : List Text)
    → All (All IsSegmentChar) segments
    → encode_segments all segments ≡ ok (map quoted segments)
unfolding encode_segments
encode_segments-ok all [] h = refl
encode_segments-ok all (s ∷ rest) h =
    rw (check_chars-ok all s s h.0, encode_segments-ok all rest h.1)

-- Segments that come from a name.
pub record IsParsed (name : Text) (segments : List Text) : Type 0 where
  pub fine : All (All IsSegmentChar) segments
  pub full : All NonEmpty segments
  pub no_longer : byte_len (join (map quoted segments)) ≤ byte_len name

parse_end-IsParsed :
    (name : Text) (segments : List Text) (p : Parsing)
    → IsParsing (byte_len name) p
    → parse_end name p ≡ ok segments
    → IsParsed name segments
unfolding parse_end
parse_end-IsParsed name segments p i h = elim (Bool-cases p.in_quotes) [
  | inl inside ↦ absurd (ground (arith, inside))
  | inr outside ↦ elim (Bool-cases (is_empty p.segment)) [
    | inl vacant ↦ absurd (ground (arith, outside, vacant))
    | inr full ↦
        let same : p.parsed ++ p.segment ∷ [] ≡ segments = ground (arith, outside, full) in
        subst (IsParsed name) same (record {
          fine = All-snoc (All IsSegmentChar) p.parsed p.segment i.segments_fine i.segment_fine;
          full = All-snoc NonEmpty p.parsed p.segment i.segments_full full;
          no_longer = omega (
            arith,
            byte_len-join (p.parsed ++ p.segment ∷ []),
            cost-snoc p.parsed p.segment,
            byte_len-quoted p.segment,
            rw outside at i.short,
          );
        })
  ]
]

pub parse_name_segments-IsParsed :
    (name : Text) (segments : List Text)
    → parse_name_segments name ≡ ok segments
    → IsParsed name segments
unfolding parse_name_segments
parse_name_segments-IsParsed name segments h =
    let (_, _, h₁) = >>=-eq-ok (ensure (not (is_empty name)) _) _ h in
    let (p, parsed, h₂) = >>=-eq-ok (parse_chars name name start) _ h₁ in
    let i =
      parse_chars-IsParsing name name 0 start p
        (record { segments_fine = tt; segments_full = tt; segment_fine = tt; short = omega arith })
        parsed in
    parse_end-IsParsed name segments p (subst (λ n. IsParsing n p) (omega arith) i) h₂

check_key_other :
    (t : KeyType) (name other : Text) (segments : List Text)
    → check_key t name segments ≡ ok tt
    → byte_len other ≤ byte_len name
    → check_key t other segments ≡ ok tt
unfolding check_key
check_key_other data_type name other segments h le = ground arith
check_key_other meta_type name other segments h le = ground arith

-- The segments of a key that `new` makes of a name are made to a key again by `from_segments`: one
-- with the same segments, and a name that is not longer.
pub from_segments-new_key :
    (t : KeyType) (name : Text) (key : Key)
    → new_key t name ≡ ok key
    → (canonical : Text) × (from_segments t key.segments
        ≡ ok (record { name = canonical; segments = key.segments }))
      × (byte_len canonical ≤ byte_len name)
unfolding new_key from_segments encode_name_segments
from_segments-new_key t name key h =
    let (segments, parsed, h₁) = >>=-eq-ok (parse_name_segments name) _ h in
    let (_, checked, h₂) = >>=-eq-ok (check_key t name segments) _ h₁ in
    let i = parse_name_segments-IsParsed name segments parsed in
    let same : record { name = name; segments = segments } ≡ key = cc in
    subst
      (λ (k : Key).
        (canonical : Text) × (from_segments t k.segments
          ≡ ok (record { name = canonical; segments = k.segments }))
        × (byte_len canonical ≤ byte_len name))
      same
      (
        join (map quoted segments),
        rw (
          encode_segments-ok segments segments i.fine,
          check_key_other t name (join (map quoted segments)) segments checked i.no_longer,
        ),
        i.no_longer,
      )
