-- ===== src/Migrator/Links/Swaps.antt =====
-- A link that is made under a temporary name and renamed, as each step of `flip_to_new_version` of
-- main.rs does.
use bottlerocket_core_kit.Prelude.{
  ℕ, zero, suc, ◌≡◌, refl, ◌∙◌, sym, ap, false, Option, none, some, List, [], ◌∷◌, take, inl, inr,
  if◌then◌else◌, Bool-cases, ◌⊎◌,
}
use bottlerocket_core_kit.Prelude.Text.{Text, text_eq, text_eq→eq, text_eq_refl}
use bottlerocket_core_kit.Prelude.HashMap.{text_key, get, put, remove, get-put, get-remove}
use bottlerocket_core_kit.Prelude.Outcome.{ok}
use bottlerocket_core_kit.Migrator.Links.{
  Links, LinkStep, create, swap, perform, perform_all, current_name,
}

abbrev pub follow : Links → Option Text → Option Text
follow links none = none
follow links (some name) = get name links

-- The data store that the chain of links leads to: from "current" to the major, the minor and the
-- patch version's link, and on to the data store.
abbrev pub live : Links → Option Text
live links = follow links (follow links (follow links (follow links (some current_name))))

-- The directory after a link was made and renamed.
abbrev pub swapped : Text → Links → Text → Text → Links
swapped temp_link links link target =
    put link target (remove temp_link (put temp_link target links))

pub get-swapped :
    (temp_link : Text) (links : Links) (link target k : Text)
    → get temp_link links ≡ none
    → get k (swapped temp_link links link target)
      ≡ (if text_eq link k then some target else get k links)
get-swapped temp_link links link target k h =
    get-put link k target (remove temp_link (put temp_link target links))
    ∙ elim (Bool-cases (text_eq link k)) [
      | inl hit ↦ rw hit refl
      | inr miss ↦ rw miss (
          get-remove temp_link k (put temp_link target links)
          ∙ elim (Bool-cases (text_eq temp_link k)) [
            | inl gone ↦
                rw gone (sym (ap (λ x. get x links) (sym (text_eq→eq temp_link k gone)) ∙ h))
            | inr other ↦ rw other (get-put temp_link k target links ∙ rw other refl)
          ])
    ]

-- The steps that make and rename one link after another.
abbrev pub steps_of : List (Text × Text) → List LinkStep
steps_of [] = []
steps_of ((link, target) ∷ rest) = create target ∷ swap link ∷ steps_of rest

follow-name :
    (links : Links) (o : Option Text) (d : Text)
    → follow links o ≡ some d
    → (name : Text) × (o ≡ some name)
follow-name links none d h = cc
follow-name links (some name) d h = (name, refl)

get-created :
    (temp_link t : Text) (links : Links) (name d : Text)
    → get temp_link links ≡ none
    → get name links ≡ some d
    → get name (put temp_link t links) ≡ some d
get-created temp_link t links name d h e =
    get-put temp_link name t links ∙ elim (Bool-cases (text_eq temp_link name)) [
      | inl same ↦
          let absent : get name links ≡ none =
            ap (λ x. get x links) (sym (text_eq→eq temp_link name same)) ∙ h in
          cc
      | inr other ↦ rw other e
    ]

-- A hop that the chain makes, it makes too when there is a link under the temporary name.
follow-created :
    (temp_link t : Text) (links : Links) (o o' : Option Text) (d : Text)
    → get temp_link links ≡ none
    → ((name : Text) → o ≡ some name → o' ≡ some name)
    → follow links o ≡ some d
    → follow (put temp_link t links) o' ≡ some d
follow-created temp_link t links o o' d h same e =
    let (name, is) = follow-name links o d e in
    let there : get name links ≡ some d = ap (follow links) (sym is) ∙ e in
    ap (follow (put temp_link t links)) (same name is)
    ∙ get-created temp_link t links name d h there

-- A link under the temporary name leads the chain nowhere else.
pub live-created :
    (temp_link t : Text) (links : Links) (d : Text)
    → get temp_link links ≡ none
    → live links ≡ some d
    → live (put temp_link t links) ≡ some d
live-created temp_link t links d h e =
    let hop =
      λ (o o' : Option Text) (same : (name : Text) → o ≡ some name → o' ≡ some name) (x : Text).
        follow-created temp_link t links o o' x h same in
    hop _ _ (hop _ _ (hop _ _ (hop (some current_name) (some current_name) (λ name is. is)))) d e

-- The directory through the steps: each state between two renames leads to one of two stores.
abbrev pub LeadsTo : Text → Text → Links → Type 0
LeadsTo old new links = (live links ≡ some old) ⊎ (live links ≡ some new)

abbrev pub AllLead : Text → Text → Text → Links → List (Text × Text) → Type 0
AllLead temp_link old new links [] = LeadsTo old new links
AllLead temp_link old new links ((link, target) ∷ rest) =
    LeadsTo old new links
    × (text_eq link temp_link ≡ false)
    × AllLead temp_link old new (swapped temp_link links link target) rest

pub absent-swapped :
    (temp_link : Text) (links : Links) (link target : Text)
    → get temp_link links ≡ none
    → text_eq link temp_link ≡ false
    → get temp_link (swapped temp_link links link target) ≡ none
absent-swapped temp_link links link target h other =
    get-swapped temp_link links link target temp_link h ∙ rw other h

LeadsTo-created :
    (temp_link t : Text) (links : Links) (old new : Text)
    → get temp_link links ≡ none
    → LeadsTo old new links
    → LeadsTo old new (put temp_link t links)
LeadsTo-created temp_link t links old new h (inl e) = inl (live-created temp_link t links old h e)
LeadsTo-created temp_link t links old new h (inr e) = inr (live-created temp_link t links new h e)

perform-create :
    (temp_link t : Text) (links : Links)
    → get temp_link links ≡ none
    → perform temp_link (create t) links ≡ ok (put temp_link t links)
unfolding perform
perform-create temp_link t links h = rw (perform, h) refl

perform-swap :
    (temp_link link t : Text) (links : Links)
    → get temp_link links ≡ some t
    → perform temp_link (swap link) links ≡ ok (put link t (remove temp_link links))
unfolding perform
perform-swap temp_link link t links h = rw (perform, h) refl

-- Wherever the steps are cut off, they have been made without an error and the chain leads to one
-- of the two stores.
pub perform_all-LeadsTo :
    (temp_link old new : Text) (links : Links) (pairs : List (Text × Text)) (n : ℕ)
    → get temp_link links ≡ none
    → AllLead temp_link old new links pairs
    → (links' : Links) × (perform_all temp_link (take n (steps_of pairs)) links ≡ ok links')
      × LeadsTo old new links'
unfolding perform_all
perform_all-LeadsTo temp_link old new links [] zero h a = (links, refl, a)
perform_all-LeadsTo temp_link old new links [] (suc n) h a = (links, refl, a)
perform_all-LeadsTo temp_link old new links ((link, target) ∷ rest) zero h a = (links, refl, a.0)
perform_all-LeadsTo temp_link old new links ((link, target) ∷ rest) (suc zero) h a = (
  put temp_link target links,
  rw (perform-create temp_link target links h) refl,
  LeadsTo-created temp_link target links old new h a.0,
)
perform_all-LeadsTo temp_link old new links ((link, target) ∷ rest) (suc (suc n)) h a =
    let made : get temp_link (put temp_link target links) ≡ some target =
      get-put temp_link temp_link target links ∙ rw (text_eq_refl temp_link) refl in
    let (links', done, leads) =
      perform_all-LeadsTo temp_link old new (swapped temp_link links link target) rest n
        (absent-swapped temp_link links link target h a.1) a.2 in
    (
      links',
      rw
          (
            perform-create temp_link target links h,
            perform-swap temp_link link target (put temp_link target links) made,
          )
          done,
      leads,
    )

abbrev pub swap_all : Text → Links → List (Text × Text) → Links
swap_all temp_link links [] = links
swap_all temp_link links ((link, target) ∷ rest) =
    swap_all temp_link (swapped temp_link links link target) rest

pub perform_all-swap_all :
    (temp_link old new : Text) (links : Links) (pairs : List (Text × Text))
    → get temp_link links ≡ none
    → AllLead temp_link old new links pairs
    → perform_all temp_link (steps_of pairs) links ≡ ok (swap_all temp_link links pairs)
unfolding perform_all
perform_all-swap_all temp_link old new links [] h a = refl
perform_all-swap_all temp_link old new links ((link, target) ∷ rest) h a =
    let made : get temp_link (put temp_link target links) ≡ some target =
      get-put temp_link temp_link target links ∙ rw (text_eq_refl temp_link) refl in
    rw
      (
        perform-create temp_link target links h,
        perform-swap temp_link link target (put temp_link target links) made,
      )
      (perform_all-swap_all temp_link old new (swapped temp_link links link target) rest
        (absent-swapped temp_link links link target h a.1) a.2)
