-- ===== src/Datastore/Key/RoundTrip.antt =====
-- The name that is made of segments parses to them.
use bottlerocket_core_kit.Prelude.{
  ℕ, ◌≡◌, refl, sym, ap, subst, false≢true, ◌∙◌, inl, inr, ◌⊎◌, Bool, true, false, not, ◌||◌, List,
  [], ◌∷◌, ◌++◌, map, ◌==◌, All, Bool-cases, arith,
}
use mathlib.Core.List.{append_assoc, append-nil}
use bottlerocket_core_kit.Prelude.Outcome.{ok, ◌>>=◌, >>=-eq-ok, Outcome-cases}
use bottlerocket_core_kit.Datastore.Key.{
  KeyType, data_type, meta_type, Key, Parsing, key_separator, quote, valid_character, parse_char,
  parse_chars, parse_end, parse_name_segments, join, check_chars, has_separator, quoted,
  encode_segments, encode_name_segments, check_key, new_key, from_segments,
}
use bottlerocket_core_kit.Prelude.Text.{Text, is_empty}

-- The characters that a segment may have: the separator, and the valid ones.
abbrev pub IsSegmentChar : ℕ → Type 0
IsSegmentChar c = ((c == key_separator) || valid_character c) ≡ true

abbrev pub NonEmpty : Text → Type 0
NonEmpty segment = is_empty segment ≡ false

abbrev state : List Text → Text → Bool → Parsing
state parsed segment in_quotes = record {
  parsed = parsed;
  segment = segment;
  in_quotes = in_quotes;
}

module _ (name : Text) where
  parse_chars-append :
      (a b : Text) (p : Parsing)
      → parse_chars name (a ++ b) p ≡ (parse_chars name a p >>= λ q. parse_chars name b q)
  unfolding parse_chars
  parse_chars-append [] b p = refl
  parse_chars-append (c ∷ a) b p = elim (Outcome-cases (parse_char name c p)) [
    | inl (q, e) ↦ rw e (parse_chars-append a b q)
    | inr (inl (e, bad)) ↦ rw bad
    | inr (inr bad) ↦ rw bad
  ]

  plain_char :
      (c : ℕ) (parsed : List Text) (segment : Text) (q : Bool)
      → IsSegmentChar c
      → (q ≡ true) ⊎ ((c == key_separator) ≡ false)
      → parse_char name c (state parsed segment q) ≡ ok (state parsed (segment ++ c ∷ []) q)
  unfolding parse_char valid_character
  plain_char c parsed segment q h k = ground arith

  -- A text without separators, or within quotes, is added to the segment.
  parse_text :
      (cs : Text) (parsed : List Text) (segment : Text) (q : Bool)
      → All IsSegmentChar cs
      → (q ≡ true) ⊎ (has_separator cs ≡ false)
      → parse_chars name cs (state parsed segment q) ≡ ok (state parsed (segment ++ cs) q)
  unfolding parse_chars
  parse_text [] parsed segment q h k = rw (append-nil segment)
  parse_text (c ∷ cs) parsed segment q h k =
      rw (plain_char c parsed segment q h.0 (ground (arith, k))) (
        parse_text cs parsed (segment ++ c ∷ []) q h.1 (ground (arith, k))
        ∙ rw (append_assoc segment (c ∷ []) cs))

  parse_quote :
      (parsed : List Text) (segment : Text) (q : Bool)
      → parse_char name quote (state parsed segment q) ≡ ok (state parsed segment (not q))
  unfolding parse_char
  parse_quote parsed segment q = refl

  parse_quoted :
      (segment : Text) (parsed : List Text)
      → All IsSegmentChar segment
      → parse_chars name (quoted segment) (state parsed [] false) ≡ ok (state parsed segment false)
  unfolding parse_chars
  parse_quoted segment parsed h = elim (Bool-cases (has_separator segment)) [
    | inr plain ↦ rw plain (parse_text segment parsed [] false h (inr plain))
    | inl dotted ↦ rw (
      dotted,
      parse_quote parsed [] false,
      parse_chars-append segment (quote ∷ []) (state parsed [] true),
      parse_text segment parsed [] true h (inl refl),
      parse_quote parsed segment true,
    )
  ]

  parse_separator :
      (parsed : List Text) (segment : Text)
      → NonEmpty segment
      → parse_char name key_separator (state parsed segment false)
        ≡ ok (state (parsed ++ segment ∷ []) [] false)
  unfolding parse_char
  parse_separator parsed segment h = rw h

  next_segment :
      (parsed : List Text) (segment cs : Text)
      → NonEmpty segment
      → parse_chars name (key_separator ∷ cs) (state parsed segment false)
        ≡ parse_chars name cs (state (parsed ++ segment ∷ []) [] false)
  unfolding parse_chars
  next_segment parsed segment cs n = rw (parse_separator parsed segment n)

  parse_join :
      (s : Text) (rest parsed : List Text)
      → All IsSegmentChar s
      → NonEmpty s
      → All (All IsSegmentChar) rest
      → All NonEmpty rest
      → (parse_chars name (join (map quoted (s ∷ rest))) (state parsed [] false) >>= parse_end name)
        ≡ ok (parsed ++ s ∷ rest)
  unfolding join
  parse_join s [] parsed hs ns hr nr = rw (parse_quoted s parsed hs) (unfold parse_end in rw ns)
  parse_join s (t ∷ rest) parsed hs ns hr nr =
      let later = parse_join t rest (parsed ++ s ∷ []) hr.0 nr.0 hr.1 nr.1 in
      rw
        (
          parse_chars-append (quoted s) (key_separator ∷ join (map quoted (t ∷ rest)))
              (state parsed [] false),
          parse_quoted s parsed hs,
        )
        (ap (λ o. o >>= parse_end name) (next_segment parsed s (join (map quoted (t ∷ rest))) ns)
          ∙ later
          ∙ rw (append_assoc parsed (s ∷ []) (t ∷ rest)))

quoted-NonEmpty : (s : Text) → NonEmpty s → NonEmpty (quoted s)
quoted-NonEmpty s h = ground (arith, Bool-cases (has_separator s))

append-NonEmpty : (s t : Text) → NonEmpty s → NonEmpty (s ++ t)
append-NonEmpty [] t h = cc
append-NonEmpty (c ∷ s) t h = refl

join-NonEmpty : (s : Text) (rest : List Text) → NonEmpty s → NonEmpty (join (map quoted (s ∷ rest)))
unfolding join
join-NonEmpty s [] h = quoted-NonEmpty s h
join-NonEmpty s (t ∷ rest) h = append-NonEmpty (quoted s) _ (quoted-NonEmpty s h)

-- For segments that are not empty, of separators and valid characters, parsing undoes encoding.
parse-encode :
    (s : Text) (rest : List Text)
    → All (All IsSegmentChar) (s ∷ rest)
    → All NonEmpty (s ∷ rest)
    → parse_name_segments (join (map quoted (s ∷ rest))) ≡ ok (s ∷ rest)
unfolding parse_name_segments
parse-encode s rest h n =
    rw (join-NonEmpty s rest n.0)
      (parse_join (join (map quoted (s ∷ rest))) s rest [] h.0 n.0 h.1 n.1)

check_chars-IsSegmentChar :
    (all : List Text) (segment cs : Text)
    → check_chars all segment cs ≡ ok tt
    → All IsSegmentChar cs
unfolding check_chars
check_chars-IsSegmentChar all segment [] h = tt
check_chars-IsSegmentChar all segment (c ∷ cs) h =
    elim (Bool-cases ((c == key_separator) || valid_character c)) [
      | inl good ↦ (good, check_chars-IsSegmentChar all segment cs (rw good at h))
      | inr bad ↦ absurd (ground (arith, bad))
    ]

pub encode_segments-inversion :
    (all segments outputs : List Text)
    → encode_segments all segments ≡ ok outputs
    → All (All IsSegmentChar) segments × (outputs ≡ map quoted segments)
unfolding encode_segments
encode_segments-inversion all [] outputs h = (tt, ground arith)
encode_segments-inversion all (s ∷ rest) outputs h =
    let (_, checked, h₁) = >>=-eq-ok (check_chars all s s) _ h in
    let (more, later, h₂) = >>=-eq-ok (encode_segments all rest) _ h₁ in
    let (fine, same) = encode_segments-inversion all rest more later in
    ((check_chars-IsSegmentChar all s s checked, fine), ground (arith, same))

check_key-not_empty :
    (t : KeyType) (name : Text) (segments : List Text)
    → check_key t name segments ≡ ok tt
    → is_empty segments ≡ false
unfolding check_key
check_key-not_empty data_type name [] h = ground arith
check_key-not_empty meta_type name [] h = ground arith
check_key-not_empty t name (s ∷ rest) h = refl

-- A key that `from_segments` makes of segments that are not empty is the key that `new` makes of
-- its name.
pub new_key-from_segments :
    (t : KeyType) (segments : List Text) (key : Key)
    → All NonEmpty segments
    → from_segments t segments ≡ ok key
    → new_key t key.name ≡ ok key
unfolding from_segments new_key encode_name_segments
new_key-from_segments t [] key n h =
    let (name, _, h₁) = >>=-eq-ok (encode_name_segments []) _ h in
    let (_, checked, _) = >>=-eq-ok (check_key t name []) _ h₁ in
    absurd (false≢true (sym (check_key-not_empty t name [] checked)))
new_key-from_segments t (s ∷ rest) key n h =
    let (name, encoded, h₁) = >>=-eq-ok (encode_name_segments (s ∷ rest)) _ h in
    let (_, checked, h₂) = >>=-eq-ok (check_key t name (s ∷ rest)) _ h₁ in
    let (outputs, made, h₃) = >>=-eq-ok (encode_segments (s ∷ rest) (s ∷ rest)) _ encoded in
    let (fine, same) = encode_segments-inversion (s ∷ rest) (s ∷ rest) outputs made in
    let parsed : parse_name_segments name ≡ ok (s ∷ rest) =
      ap parse_name_segments (ground (arith, same)) ∙ parse-encode s rest fine n in
    let same_key : record { name = name; segments = s ∷ rest } ≡ key = ground (arith, checked) in
    subst (λ (k : Key). new_key t k.name ≡ ok k) same_key (rw (parsed, checked))
