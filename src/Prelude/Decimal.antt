-- ===== src/Prelude/Decimal.antt =====
-- `to_string` and `parse::<u32>` of Rust's unsigned integers, on lists of character codes.
use bottlerocket_core_kit.Prelude.Tests.{if◌then◌else◌, ltb, leb, Bool-cases, lt→ltb, ◌==◌}
use Prim.Native.Nat.{ℕ, zero, suc, ◌+◌, ◌-◌, ◌*◌, ◌/◌, ◌%◌, ◌^◌, ◌<◌}
use mathlib.Core.Path.{◌≡◌, refl, sym, ap, ◌∙◌}
use mathlib.Core.Logic.{inl, inr}
use mathlib.Core.Bool.{Bool, true, false, ◌&&◌}
use mathlib.Core.Option.{Option, none, some}
use mathlib.Core.List.{List, [], ◌∷◌, ◌++◌}
use native.Mathlib.Omega.{arith}

abbrev pub max_u32 : ℕ
max_u32 = 4294967295

-- The digits of a number, the first argument bounding how many there are.
unfoldable pub digits : ℕ → ℕ → List ℕ
digits zero n = []
digits (suc fuel) n =
    let higher = digits fuel (n / 10) in
    if ltb n 10 then (48 + n) ∷ [] else higher ++ ((48 + n % 10) ∷ [])

-- A number below 2 ^ 64 has at most twenty digits.
unfoldable pub to_decimal : ℕ → List ℕ
unfolding digits
to_decimal n = digits 20 n

abbrev pub is_digit : ℕ → Bool
is_digit c = leb 48 c && leb c 57

unfoldable pub parse_digits : ℕ → List ℕ → Option ℕ
parse_digits n [] = some n
parse_digits n (c ∷ s) =
    let rest = parse_digits (n * 10 + (c - 48)) s in if is_digit c then rest else none

abbrev pub below : ℕ → Option ℕ → Option ℕ
below limit none = none
below limit (some n) = if ltb n limit then some n else none

abbrev pub without_plus : List ℕ → List ℕ
without_plus [] = []
without_plus (c ∷ s) = if c == 43 then s else c ∷ s

parse_some_digits : List ℕ → Option ℕ
parse_some_digits [] = none
parse_some_digits (c ∷ s) = parse_digits 0 (c ∷ s)

-- A plus sign may stand before the digits, of which there is at least one.
unfoldable pub parse_u32 : List ℕ → Option ℕ
unfolding parse_some_digits
parse_u32 s = below (2 ^ 32) (parse_some_digits (without_plus s))

parse_digits-snoc :
    (a n c : ℕ) (s : List ℕ)
    → parse_digits a s ≡ some n
    → is_digit c ≡ true
    → parse_digits a (s ++ (c ∷ [])) ≡ some (n * 10 + (c - 48))
unfolding parse_digits
parse_digits-snoc a n c [] h d = ground arith
parse_digits-snoc a n c (x ∷ s) h d = elim (Bool-cases (is_digit x)) [
  | inl digit ↦ rw digit (parse_digits-snoc (a * 10 + (x - 48)) n c s (rw digit at h) d)
  | inr other ↦ absurd (ground arith)
]

-- 10 to a power, by recursion.
unfoldable power_of_ten : ℕ → ℕ
power_of_ten zero = 1
power_of_ten (suc n) = 10 * power_of_ten n

parse_digits-digits : (fuel n : ℕ) → n < power_of_ten fuel → parse_digits 0 (digits fuel n) ≡ some n
unfolding digits parse_digits power_of_ten
parse_digits-digits zero n h = ground arith
parse_digits-digits (suc fuel) n h = elim (Bool-cases (ltb n 10)) [
  | inl small ↦ rw small (ground arith)
  | inr large ↦
      let higher = parse_digits-digits fuel (n / 10) (omega arith) in
      let parsed =
        parse_digits-snoc 0 (n / 10) (48 + n % 10) (digits fuel (n / 10)) higher (ground arith) in
      rw large (parsed ∙ ap (λ k. some k) (omega arith))
]

-- The first character of the digits of a number is no plus sign.
unplus : List ℕ → Bool
unplus [] = false
unplus (c ∷ s) = is_digit c

unplus-append : (s t : List ℕ) → unplus s ≡ true → unplus (s ++ t) ≡ true
unfolding unplus
unplus-append [] t h = cc
unplus-append (c ∷ s) t h = h

unplus-digits : (fuel n : ℕ) → unplus (digits (suc fuel) n) ≡ true
unfolding digits unplus
unplus-digits zero n = elim (Bool-cases (ltb n 10)) [
  | inl small ↦ rw small (ground arith)
  | inr large ↦ rw large (ground arith)
]
unplus-digits (suc fuel) n = elim (Bool-cases (ltb n 10)) [
  | inl small ↦ rw small (ground arith)
  | inr large ↦
      rw large (unplus-append (digits (suc fuel) (n / 10)) _ (unplus-digits fuel (n / 10)))
]

parse_u32-unplus :
    (s : List ℕ) (n : ℕ)
    → unplus s ≡ true
    → parse_digits 0 s ≡ some n
    → n < 2 ^ 32
    → parse_u32 s ≡ some n
unfolding parse_u32 parse_some_digits unplus
parse_u32-unplus [] n u h b = cc
parse_u32-unplus (c ∷ s) n u h b =
    let plus : (c == 43) ≡ false = ground arith in rw (plus, h, lt→ltb n (2 ^ 32) b) refl

below-bounds : (limit n : ℕ) (o : Option ℕ) → below limit o ≡ some n → n < limit
below-bounds limit n none h = cc
below-bounds limit n (some m) h = ground arith

pub parse_u32-below : (s : List ℕ) (n : ℕ) → parse_u32 s ≡ some n → n < 2 ^ 32
unfolding parse_u32
parse_u32-below s n h = below-bounds (2 ^ 32) n (parse_some_digits (without_plus s)) h

pub parse_u32-to_decimal : (n : ℕ) → n < 2 ^ 32 → parse_u32 (to_decimal n) ≡ some n
unfolding to_decimal power_of_ten
parse_u32-to_decimal n h =
    parse_u32-unplus (to_decimal n) n (unplus-digits 19 n) (parse_digits-digits 20 n (omega arith))
      h

-- Two numbers with the same digits are one.
pub to_decimal-injective : (m n : ℕ) → m < 2 ^ 32 → n < 2 ^ 32 → to_decimal m ≡ to_decimal n → m ≡ n
to_decimal-injective m n hm hn e =
    let same : some m ≡ some n =
      sym (parse_u32-to_decimal m hm) ∙ ap parse_u32 e ∙ parse_u32-to_decimal n hn in
    cc

max_u32_digits : to_decimal 4294967295 ≡ 52 ∷ 50 ∷ 57 ∷ 52 ∷ 57 ∷ 54 ∷ 55 ∷ 50 ∷ 57 ∷ 53 ∷ []
unfolding to_decimal digits
max_u32_digits = refl
