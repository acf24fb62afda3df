-- ===== src/Datastore/Filesystem/Splits.antt =====
-- Splitting at a separator undoes joining, where the parts are without it.
use bottlerocket_core_kit.Prelude.{
  ℕ, ◌≡◌, refl, ap, ◌∙◌, Bool, true, false, ◌||◌, List, [], ◌∷◌, ◌++◌, none, some, ◌==◌, All, arith,
}
use mathlib.Core.List.{append_assoc, append-nil}
use bottlerocket_core_kit.Prelude.Text.{Text}
use bottlerocket_core_kit.Datastore.Filesystem.{slash, join_components, split_from, split_once}

abbrev pub has : ℕ → Text → Bool
has separator [] = false
has separator (c ∷ s) = (c == separator) || has separator s

has-cons : (k c : ℕ) (s : Text) → has k (c ∷ s) ≡ false → ((c == k) ≡ false) × (has k s ≡ false)
has-cons k c s h = (ground arith, ground arith)

module _ (k c : ℕ) (seen s : Text) where
  pub split_from-cut : (c == k) ≡ true → split_from k seen (c ∷ s) ≡ seen ∷ split_from k [] s
  unfolding split_from
  split_from-cut h = rw (h, split_from) refl

  pub split_from-keep :
      (c == k) ≡ false → split_from k seen (c ∷ s) ≡ split_from k (seen ++ c ∷ []) s
  unfolding split_from
  split_from-keep h = rw (h, split_from) refl

split_from-whole :
    (k : ℕ) (seen s : Text) → has k s ≡ false → split_from k seen s ≡ (seen ++ s) ∷ []
unfolding split_from
split_from-whole k seen [] h = rw (append-nil seen) refl
split_from-whole k seen (c ∷ s) h =
    split_from-keep k c seen s ((has-cons k c s h).0)
    ∙ split_from-whole k (seen ++ c ∷ []) s ((has-cons k c s h).1)
    ∙ rw (append_assoc seen (c ∷ []) s) refl

split_from-append :
    (k : ℕ) (seen s rest : Text)
    → has k s ≡ false
    → split_from k seen (s ++ k ∷ rest) ≡ (seen ++ s) ∷ split_from k [] rest
split_from-append k seen [] rest h =
    split_from-cut k k seen rest (ground arith) ∙ rw (append-nil seen) refl
split_from-append k seen (c ∷ s) rest h =
    split_from-keep k c seen (s ++ k ∷ rest) ((has-cons k c s h).0)
    ∙ split_from-append k (seen ++ c ∷ []) s rest ((has-cons k c s h).1)
    ∙ rw (append_assoc seen (c ∷ []) s) refl

pub split-join :
    (x : Text) (rest : List Text)
    → All (λ s. has slash s ≡ false) (x ∷ rest)
    → split_from slash [] (join_components (x ∷ rest)) ≡ x ∷ rest
unfolding join_components
split-join x [] h = split_from-whole slash [] x h.0
split-join x (y ∷ rest) h =
    split_from-append slash [] x (join_components (y ∷ rest)) h.0
    ∙ ap (λ l. x ∷ l) (split-join y rest h.1)

has-append : (k : ℕ) (s t : Text) → has k s ≡ false → has k t ≡ false → has k (s ++ t) ≡ false
has-append k [] t hs ht = ht
has-append k (c ∷ s) t hs ht =
    rw ((has-cons k c s hs).0, has-append k s t ((has-cons k c s hs).1) ht) refl

pub has-join :
    (k : ℕ) (l : List Text)
    → (slash == k) ≡ false
    → All (λ s. has k s ≡ false) l
    → has k (join_components l) ≡ false
unfolding join_components
has-join k [] d h = refl
has-join k (x ∷ []) d h = h.0
has-join k (x ∷ y ∷ rest) d h =
    has-append k x (slash ∷ join_components (y ∷ rest)) h.0
      (rw (d, has-join k (y ∷ rest) d h.1) refl)

pub split_once-whole : (k : ℕ) (s : Text) → has k s ≡ false → split_once k s ≡ (s, none)
unfolding split_once
split_once-whole k [] h = refl
split_once-whole k (c ∷ s) h =
    rw ((has-cons k c s h).0, split_once-whole k s ((has-cons k c s h).1)) refl

pub split_once-append :
    (k : ℕ) (s rest : Text) → has k s ≡ false → split_once k (s ++ k ∷ rest) ≡ (s, some rest)
unfolding split_once
split_once-append k [] rest h = let same : (k == k) ≡ true = ground arith in rw same refl
split_once-append k (c ∷ s) rest h =
    rw ((has-cons k c s h).0, split_once-append k s rest ((has-cons k c s h).1)) refl
