-- ===== src/Datastore/Key/Scan.antt =====
-- What holds of the variables of `parse_name_segments` at every character of a name.
use bottlerocket_core_kit.Prelude.{
  ℕ, ◌+◌, ◌≤◌, ◌≡◌, subst, inl, inr, ◌⊎◌, Bool, true, false, not, ◌||◌, List, [], ◌∷◌, ◌++◌, ◌==◌,
  if◌then◌else◌, All, Bool-cases, arith,
}
use bottlerocket_core_kit.Prelude.Outcome.{ok, >>=-eq-ok}
use bottlerocket_core_kit.Datastore.Key.{
  Parsing, key_separator, quote, valid_character, parse_char, parse_chars, has_separator, quoted,
}
use bottlerocket_core_kit.Datastore.Key.RoundTrip.{IsSegmentChar, NonEmpty}
use bottlerocket_core_kit.Prelude.Text.{Text, is_empty, char_bytes, byte_len}

pub byte_len-append : (s t : Text) → byte_len (s ++ t) ≡ byte_len s + byte_len t
byte_len-append [] t = omega arith
byte_len-append (c ∷ s) t = omega (arith, byte_len-append s t)

has_separator-append :
    (s : Text) (c : ℕ) → has_separator (s ++ c ∷ []) ≡ (has_separator s || (c == key_separator))
has_separator-append [] c = ground arith
has_separator-append (d ∷ s) c = ground (arith, has_separator-append s c)

pub All-snoc {ℓ κ} :
    {A : Type ℓ} (P : A → Type κ) (l : List A) (x : A) → All P l → P x → All P (l ++ x ∷ [])
All-snoc P [] x h p = (p, tt)
All-snoc P (y ∷ l) x h p = (h.0, All-snoc P l x h.1 p)

-- The bytes that the encoding of the segments takes, each with a separator after it.
abbrev pub cost : List Text → ℕ
cost [] = 0
cost (s ∷ rest) = byte_len (quoted s) + 1 + cost rest

pub cost-snoc : (l : List Text) (s : Text) → cost (l ++ s ∷ []) ≡ cost l + byte_len (quoted s) + 1
cost-snoc [] s = omega arith
cost-snoc (t ∷ l) s = omega (arith, cost-snoc l s)

-- The quotes that a segment has cost so far.
abbrev pub marks : Text → Bool → ℕ
marks segment in_quotes = if in_quotes then 1 else if has_separator segment then 2 else 0

pub byte_len-quoted : (s : Text) → byte_len (quoted s) ≡ byte_len s + marks s false
byte_len-quoted s = elim (Bool-cases (has_separator s)) [
  | inl dotted ↦ rw dotted (omega (arith, byte_len-append s (quote ∷ [])))
  | inr plain ↦ rw plain (omega arith)
]

pub record IsParsing (seen : ℕ) (p : Parsing) : Type 0 where
  pub segments_fine : All (All IsSegmentChar) p.parsed
  pub segments_full : All NonEmpty p.parsed
  pub segment_fine : All IsSegmentChar p.segment
  pub short : cost p.parsed + byte_len p.segment + marks p.segment p.in_quotes ≤ seen

snoc_marks :
    (s : Text) (c : ℕ) (q : Bool) → (c == key_separator) ≡ false → marks (s ++ c ∷ []) q ≡ marks s q
snoc_marks s c q h =
    rw (has_separator-append s c, h) (ground (arith, Bool-cases (has_separator s), Bool-cases q))

char_bytes-pos : (c : ℕ) → 1 ≤ char_bytes c
char_bytes-pos c = ground arith

toggle_marks : (s : Text) (q : Bool) → marks s (not q) ≤ marks s q + 1
toggle_marks s q = ground (arith, Bool-cases (has_separator s), Bool-cases q)

-- The four ways that a character is taken.
module _ (c n : ℕ) (p : Parsing) (i : IsParsing n p) where
  toggled : IsParsing (n + char_bytes c) (record p { in_quotes = not p.in_quotes })
  toggled = record {
    segments_fine = i.segments_fine;
    segments_full = i.segments_full;
    segment_fine = i.segment_fine;
    short = omega (arith, i.short, toggle_marks p.segment p.in_quotes, char_bytes-pos c);
  }

  pushed :
      IsSegmentChar c
      → (p.in_quotes ≡ true) ⊎ ((c == key_separator) ≡ false)
      → IsParsing (n + char_bytes c) (record p { segment = p.segment ++ c ∷ [] })
  pushed fine k = record {
    segments_fine = i.segments_fine;
    segments_full = i.segments_full;
    segment_fine = All-snoc IsSegmentChar p.segment c i.segment_fine fine;
    short = omega (arith, i.short, byte_len-append p.segment (c ∷ []), same_marks k);
  }
    where
      same_marks :
          (p.in_quotes ≡ true) ⊎ ((c == key_separator) ≡ false)
          → marks (p.segment ++ c ∷ []) p.in_quotes ≡ marks p.segment p.in_quotes
      same_marks (inl inside) = rw inside
      same_marks (inr other) = snoc_marks p.segment c p.in_quotes other

  ended :
      p.in_quotes ≡ false
      → NonEmpty p.segment
      → IsParsing
          (n + char_bytes c)
          (record p { parsed = p.parsed ++ p.segment ∷ []; segment = [] })
  ended outside full = record {
    segments_fine = All-snoc (All IsSegmentChar) p.parsed p.segment i.segments_fine i.segment_fine;
    segments_full = All-snoc NonEmpty p.parsed p.segment i.segments_full full;
    segment_fine = tt;
    short = rw outside (
        omega (
          arith,
          rw outside at i.short,
          cost-snoc p.parsed p.segment,
          byte_len-quoted p.segment,
          char_bytes-pos c,
        ));
  }

parse_char-IsParsing :
    (name : Text) (c n : ℕ) (p q : Parsing)
    → IsParsing n p
    → parse_char name c p ≡ ok q
    → IsParsing (n + char_bytes c) q
unfolding parse_char
parse_char-IsParsing name c n p q i h = elim (Bool-cases (c == quote)) [
  | inl mark ↦ subst (IsParsing _) (ground (arith, mark)) (toggled c n p i)
  | inr unmarked ↦ elim (Bool-cases (c == key_separator)) [
    | inl dot ↦ elim (Bool-cases p.in_quotes) [
      | inl inside ↦
          subst (IsParsing _) (ground (arith, unmarked, dot, inside))
            (pushed c n p i (ground (arith, dot)) (inl inside))
      | inr outside ↦ elim (Bool-cases (is_empty p.segment)) [
        | inl vacant ↦ absurd (ground (arith, unmarked, dot, outside, vacant))
        | inr full ↦
            subst (IsParsing _) (ground (arith, unmarked, dot, outside, full))
              (ended c n p i outside full)
      ]
    ]
    | inr other ↦ elim (Bool-cases (valid_character c)) [
      | inl good ↦
          subst (IsParsing _) (ground (arith, unmarked, other, good))
            (pushed c n p i (rw (other, good)) (inr other))
      | inr bad ↦ absurd (ground (arith, unmarked, other, bad))
    ]
  ]
]

pub parse_chars-IsParsing :
    (name cs : Text) (n : ℕ) (p q : Parsing)
    → IsParsing n p
    → parse_chars name cs p ≡ ok q
    → IsParsing (n + byte_len cs) q
unfolding parse_chars
parse_chars-IsParsing name [] n p q i h =
    let e : p ≡ q = ground arith in
    subst (λ m. IsParsing m q) (omega arith) (subst (IsParsing n) e i)
parse_chars-IsParsing name (c ∷ cs) n p q i h =
    let (r, e, h₁) = >>=-eq-ok (parse_char name c p) _ h in
    let i' =
      parse_chars-IsParsing name cs (n + char_bytes c) r q (parse_char-IsParsing name c n p r i e)
        h₁ in
    subst (λ m. IsParsing m q) (omega arith) i'
