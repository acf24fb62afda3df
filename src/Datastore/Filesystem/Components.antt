-- ===== src/Datastore/Filesystem/Components.antt =====
-- The components of a path that is joined to another.
use bottlerocket_core_kit.Prelude.{
  ℕ, ◌≡◌, refl, sym, ap, ◌∙◌, inl, inr, true, false, List, [], ◌∷◌, ◌++◌, ◌==◌, filter_by,
  filter_by-append, Bool-cases,
}
use mathlib.Core.List.{append_assoc, append-nil}
use bottlerocket_core_kit.Prelude.Text.{Text, text_eq_refl, texts_eq}
use bottlerocket_core_kit.Datastore.Filesystem.{
  slash, split_from, push, leading, is_component, components, texts_prefix, path_eq,
  path_starts_with,
}
use bottlerocket_core_kit.Datastore.Filesystem.Splits.{split_from-cut, split_from-keep}

abbrev names : Text → Text → List Text
names seen path = filter_by is_component (split_from slash seen path)

filter_one :
    (x : Text) (rest : List Text)
    → filter_by is_component (x ∷ rest)
      ≡ filter_by is_component (x ∷ []) ++ filter_by is_component rest
filter_one x rest = filter_by-append is_component (x ∷ []) rest

push-slash : (c : ℕ) (path : Text) → (c == slash) ≡ true → push (c ∷ []) path ≡ c ∷ path
unfolding push
push-slash c path h = rw h refl

push-other : (c : ℕ) (path : Text) → (c == slash) ≡ false → push (c ∷ []) path ≡ c ∷ slash ∷ path
unfolding push
push-other c path h = rw h refl

names-cut :
    (seen : Text) (c : ℕ) (path : Text)
    → (c == slash) ≡ true
    → names seen (c ∷ path) ≡ filter_by is_component (seen ∷ []) ++ names [] path
names-cut seen c path h =
    ap (filter_by is_component) (split_from-cut slash c seen path h)
    ∙ filter_one seen (split_from slash [] path)

names-keep :
    (seen : Text) (c : ℕ) (path : Text)
    → (c == slash) ≡ false
    → names seen (c ∷ path) ≡ names (seen ++ c ∷ []) path
names-keep seen c path h = ap (filter_by is_component) (split_from-keep slash c seen path h)

names-push :
    (seen : Text) (c : ℕ) (base path : Text)
    → names seen (push (c ∷ base) path) ≡ names seen (c ∷ base) ++ names [] path
unfolding push
names-push seen c [] path = elim (Bool-cases (c == slash)) [
  | inl cut ↦
      ap (names seen) (push-slash c path cut)
      ∙ names-cut seen c path cut
      ∙ ap (λ l. l ++ names [] path)
          (sym (names-cut seen c [] cut ∙ (unfold split_from in append-nil _)))
  | inr other ↦
      ap (names seen) (push-other c path other)
      ∙ names-keep seen c (slash ∷ path) other
      ∙ names-cut (seen ++ c ∷ []) slash path refl
      ∙ ap (λ l. l ++ names [] path)
          (sym (names-keep seen c [] other ∙ (unfold split_from in refl)))
]
names-push seen c (d ∷ base) path = elim (Bool-cases (c == slash)) [
  | inl cut ↦
      names-cut seen c (push (d ∷ base) path) cut
      ∙ ap (λ l. filter_by is_component (seen ∷ []) ++ l) (names-push [] d base path)
      ∙ sym
          (append_assoc (filter_by is_component (seen ∷ [])) (names [] (d ∷ base)) (names [] path))
      ∙ ap (λ l. l ++ names [] path) (sym (names-cut seen c (d ∷ base) cut))
  | inr other ↦
      names-keep seen c (push (d ∷ base) path) other
      ∙ names-push (seen ++ c ∷ []) d base path
      ∙ ap (λ l. l ++ names [] path) (sym (names-keep seen c (d ∷ base) other))
]

leading-push : (c : ℕ) (base path : Text) → leading (push (c ∷ base) path) ≡ leading (c ∷ base)
leading-push c [] path = elim (Bool-cases (c == slash)) [
  | inl cut ↦ ap leading (push-slash c path cut) ∙ rw cut refl
  | inr other ↦ ap leading (push-other c path other) ∙ rw other refl
]
leading-push c (d ∷ []) path = elim (Bool-cases (d == slash)) [
  | inl cut ↦ unfold push in ap (λ s. leading (c ∷ s)) (push-slash d path cut) ∙ rw cut refl
  | inr other ↦ unfold push in ap (λ s. leading (c ∷ s)) (push-other d path other) ∙ rw other refl
]
leading-push c (d ∷ e ∷ base) path = unfold push in refl

-- A path that starts with a name is joined by its components.
pub components-push :
    (base path : Text)
    → leading path ≡ []
    → components (push base path) ≡ components base ++ components path
components-push [] path h = unfold push split_from in rw h refl
components-push (c ∷ base) path h =
    rw (h, leading-push c base path, names-push [] c base path, append_assoc _ _ _) refl

texts_prefix-append : (a b : List Text) → texts_prefix a (a ++ b) ≡ true
texts_prefix-append [] b = refl
texts_prefix-append (x ∷ a) b = rw (text_eq_refl x, texts_prefix-append a b) refl

longer : (a b : List Text) (x : Text) → texts_eq (a ++ x ∷ b) a ≡ false
longer [] b x = refl
longer (y ∷ a) b x = rw (text_eq_refl y, longer a b x) refl

pub starts_with-push :
    (base path : Text) → leading path ≡ [] → path_starts_with (push base path) base ≡ true
starts_with-push base path h =
    rw (components-push base path h) (texts_prefix-append (components base) (components path))

pub eq-push :
    (base path x : Text) (rest : List Text)
    → leading path ≡ []
    → components path ≡ x ∷ rest
    → path_eq (push base path) base ≡ false
eq-push base path x rest h e = rw (components-push base path h, e) (longer (components base) rest x)
