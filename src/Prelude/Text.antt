-- ===== src/Prelude/Text.antt =====
-- Strings as the list of their characters (Unicode scalar values), with the length in bytes that
-- `String::len` returns for UTF-8.
use Prim.Native.Char.{code}
use Prim.Native.String.{String}
use bottlerocket_core_kit.Prelude.{
  ℕ, ◌+◌, ◌≡◌, refl, Bool, true, false, ◌&&◌, List, [], ◌∷◌, ltb, ◌==◌, ==→eq, ==-refl, &&-eq-true,
  if◌then◌else◌,
}

abbrev pub Text : Type 0
Text = List ℕ

-- The characters of a native string.
abbrev pub codes : String → Text
codes String.[] = []
codes (String.◌∷◌ c s) = code c ∷ codes s

abbrev pub text_eq : Text → Text → Bool
text_eq [] [] = true
text_eq (a ∷ s) (b ∷ t) = (a == b) && text_eq s t
text_eq _ _ = false

abbrev pub texts_eq : List Text → List Text → Bool
texts_eq [] [] = true
texts_eq (a ∷ s) (b ∷ t) = text_eq a b && texts_eq s t
texts_eq _ _ = false

abbrev pub is_empty {ℓ} : {A : Type ℓ} → List A → Bool
is_empty [] = true
is_empty (_ ∷ _) = false

abbrev pub char_bytes : ℕ → ℕ
char_bytes c = if ltb c 0x80 then 1 else if ltb c 0x800 then 2 else if ltb c 0x10000 then 3 else 4

abbrev pub byte_len : Text → ℕ
byte_len [] = 0
byte_len (c ∷ s) = char_bytes c + byte_len s

pub text_eq→eq : (s t : Text) → text_eq s t ≡ true → s ≡ t
text_eq→eq [] [] h = refl
text_eq→eq [] (b ∷ t) h = cc
text_eq→eq (a ∷ s) [] h = cc
text_eq→eq (a ∷ s) (b ∷ t) h =
    let (p, q) = &&-eq-true _ _ h in let heads = ==→eq a b p in let tails = text_eq→eq s t q in cc

pub text_eq_refl : (s : Text) → text_eq s s ≡ true
text_eq_refl [] = refl
text_eq_refl (a ∷ s) = rw (==-refl a, text_eq_refl s)

pub texts_eq→eq : (s t : List Text) → texts_eq s t ≡ true → s ≡ t
texts_eq→eq [] [] h = refl
texts_eq→eq [] (b ∷ t) h = cc
texts_eq→eq (a ∷ s) [] h = cc
texts_eq→eq (a ∷ s) (b ∷ t) h =
    let (p, q) = &&-eq-true _ _ h in
    let heads = text_eq→eq a b p in let tails = texts_eq→eq s t q in cc

pub texts_eq_refl : (s : List Text) → texts_eq s s ≡ true
texts_eq_refl [] = refl
texts_eq_refl (a ∷ s) = rw (text_eq_refl a, texts_eq_refl s)
