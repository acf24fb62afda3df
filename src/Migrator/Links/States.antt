-- ===== src/Migrator/Links/States.antt =====
-- The directory after each renaming of `flip_to_new_version` of main.rs.
use bottlerocket_core_kit.Prelude.{
  ◌≡◌, refl, ◌∙◌, false, none, some, [], ◌∷◌, inl, inr, if◌then◌else◌, Bool-cases, ◌⊎◌,
}
use bottlerocket_core_kit.Prelude.Text.{Text, text_eq, text_eq_refl}
use bottlerocket_core_kit.Prelude.HashMap.{text_key, get}
use bottlerocket_core_kit.Migrator.Links.{
  Links, Semver, current_name, major_name, minor_name, patch_name,
}
use bottlerocket_core_kit.Migrator.Links.Names.{
  patch-minor, patch-major, minor-patch, minor-major, major-minor, major-patch, patch-current,
  minor-current, current-patch, current-minor, major-current, current-major,
}
use bottlerocket_core_kit.Migrator.Links.Swaps.{
  swapped, get-swapped, absent-swapped, AllLead, LeadsTo,
}

module _ {V : Type 0} (semver : Semver V) where
  -- The chain of links of a version, and the data store at its end.
  pub record IsLive (links : Links) (v : V) (store : Text) : Type 0 where
    pub current_to_major : get current_name links ≡ some (major_name semver v)
    pub major_to_minor : get (major_name semver v) links ≡ some (minor_name semver v)
    pub minor_to_patch : get (minor_name semver v) links ≡ some (patch_name semver v)
    pub patch_to_store : get (patch_name semver v) links ≡ some store

  -- The name of the temporary link is new, and none of the names that are swapped.
  pub record IsFresh (links : Links) (v : V) (temp_link : Text) : Type 0 where
    pub absent : get temp_link links ≡ none
    pub not_patch : text_eq (patch_name semver v) temp_link ≡ false
    pub not_minor : text_eq (minor_name semver v) temp_link ≡ false
    pub not_major : text_eq (major_name semver v) temp_link ≡ false
    pub not_current : text_eq current_name temp_link ≡ false

  module _ (links : Links) (old new : V) (old_store new_store temp_link : Text)
      (i : IsLive links old old_store) (f : IsFresh links new temp_link) where
    abbrev links1 : Links
    links1 = swapped temp_link links (patch_name semver new) new_store

    abbrev links2 : Links
    links2 = swapped temp_link links1 (minor_name semver new) (patch_name semver new)

    abbrev links3 : Links
    links3 = swapped temp_link links2 (major_name semver new) (minor_name semver new)

    abbrev links4 : Links
    links4 = swapped temp_link links3 current_name (major_name semver new)

    absent1 : get temp_link links1 ≡ none
    absent1 = absent-swapped temp_link links (patch_name semver new) new_store f.absent f.not_patch

    absent2 : get temp_link links2 ≡ none
    absent2 =
        absent-swapped temp_link links1 (minor_name semver new) (patch_name semver new) absent1
          f.not_minor

    absent3 : get temp_link links3 ≡ none
    absent3 =
        absent-swapped temp_link links2 (major_name semver new) (minor_name semver new) absent2
          f.not_major

    get1 :
        (k : Text)
        → get k links1 ≡ (if text_eq (patch_name semver new) k then some new_store else get k links)
    get1 k = get-swapped temp_link links (patch_name semver new) new_store k f.absent

    get2 :
        (k : Text)
        → get k links2 ≡ (
            if text_eq (minor_name semver new) k
            then some (patch_name semver new)
            else get k links1)
    get2 k = get-swapped temp_link links1 (minor_name semver new) (patch_name semver new) k absent1

    get3 :
        (k : Text)
        → get k links3 ≡ (
            if text_eq (major_name semver new) k
            then some (minor_name semver new)
            else get k links2)
    get3 k = get-swapped temp_link links2 (major_name semver new) (minor_name semver new) k absent2

    get4 :
        (k : Text)
        → get k links4
          ≡ (if text_eq current_name k then some (major_name semver new) else get k links3)
    get4 k = get-swapped temp_link links3 current_name (major_name semver new) k absent3

    leads0 : LeadsTo old_store new_store links
    leads0 = inl (rw (i.current_to_major, i.major_to_minor, i.minor_to_patch) i.patch_to_store)

    current1 : get current_name links1 ≡ some (major_name semver old)
    current1 = get1 current_name ∙ rw (patch-current semver new) i.current_to_major

    major1 : get (major_name semver old) links1 ≡ some (minor_name semver old)
    major1 = get1 (major_name semver old) ∙ rw (patch-major semver new old) i.major_to_minor

    minor1 : get (minor_name semver old) links1 ≡ some (patch_name semver old)
    minor1 = get1 (minor_name semver old) ∙ rw (patch-minor semver new old) i.minor_to_patch

    patch1 : get (patch_name semver new) links1 ≡ some new_store
    patch1 = get1 (patch_name semver new) ∙ rw (text_eq_refl (patch_name semver new)) refl

    old_patch1 :
        (get (patch_name semver old) links1 ≡ some old_store)
        ⊎ (get (patch_name semver old) links1 ≡ some new_store)
    old_patch1 = elim (Bool-cases (text_eq (patch_name semver new) (patch_name semver old))) [
      | inl same ↦ inr (get1 (patch_name semver old) ∙ rw same refl)
      | inr other ↦ inl (get1 (patch_name semver old) ∙ rw other i.patch_to_store)
    ]

    leads1 : LeadsTo old_store new_store links1
    leads1 = elim old_patch1 [
      | inl e ↦ inl (rw (current1, major1, minor1) e)
      | inr e ↦ inr (rw (current1, major1, minor1) e)
    ]

    current2 : get current_name links2 ≡ some (major_name semver old)
    current2 = get2 current_name ∙ rw (minor-current semver new) current1

    major2 : get (major_name semver old) links2 ≡ some (minor_name semver old)
    major2 = get2 (major_name semver old) ∙ rw (minor-major semver new old) major1

    minor2 : get (minor_name semver new) links2 ≡ some (patch_name semver new)
    minor2 = get2 (minor_name semver new) ∙ rw (text_eq_refl (minor_name semver new)) refl

    patch2 : get (patch_name semver new) links2 ≡ some new_store
    patch2 = get2 (patch_name semver new) ∙ rw (minor-patch semver new new) patch1

    old_minor2 :
        (get (minor_name semver old) links2 ≡ some (patch_name semver old))
        ⊎ (get (minor_name semver old) links2 ≡ some (patch_name semver new))
    old_minor2 = elim (Bool-cases (text_eq (minor_name semver new) (minor_name semver old))) [
      | inl same ↦ inr (get2 (minor_name semver old) ∙ rw same refl)
      | inr other ↦ inl (get2 (minor_name semver old) ∙ rw other minor1)
    ]

    old_patch2 :
        (get (patch_name semver old) links2 ≡ some old_store)
        ⊎ (get (patch_name semver old) links2 ≡ some new_store)
    old_patch2 = elim old_patch1 [
      | inl e ↦ inl (get2 (patch_name semver old) ∙ rw (minor-patch semver new old) e)
      | inr e ↦ inr (get2 (patch_name semver old) ∙ rw (minor-patch semver new old) e)
    ]

    leads2 : LeadsTo old_store new_store links2
    leads2 = elim old_minor2 [
      | inl m ↦ elim old_patch2 [
        | inl e ↦ inl (rw (current2, major2, m) e)
        | inr e ↦ inr (rw (current2, major2, m) e)
      ]
      | inr m ↦ inr (rw (current2, major2, m) patch2)
    ]

    current3 : get current_name links3 ≡ some (major_name semver old)
    current3 = get3 current_name ∙ rw (major-current semver new) current2

    major3 : get (major_name semver new) links3 ≡ some (minor_name semver new)
    major3 = get3 (major_name semver new) ∙ rw (text_eq_refl (major_name semver new)) refl

    minor3 : get (minor_name semver new) links3 ≡ some (patch_name semver new)
    minor3 = get3 (minor_name semver new) ∙ rw (major-minor semver new new) minor2

    patch3 : get (patch_name semver new) links3 ≡ some new_store
    patch3 = get3 (patch_name semver new) ∙ rw (major-patch semver new new) patch2

    old_major3 :
        (get (major_name semver old) links3 ≡ some (minor_name semver old))
        ⊎ (get (major_name semver old) links3 ≡ some (minor_name semver new))
    old_major3 = elim (Bool-cases (text_eq (major_name semver new) (major_name semver old))) [
      | inl same ↦ inr (get3 (major_name semver old) ∙ rw same refl)
      | inr other ↦ inl (get3 (major_name semver old) ∙ rw other major2)
    ]

    old_minor3 :
        (get (minor_name semver old) links3 ≡ some (patch_name semver old))
        ⊎ (get (minor_name semver old) links3 ≡ some (patch_name semver new))
    old_minor3 = elim old_minor2 [
      | inl e ↦ inl (get3 (minor_name semver old) ∙ rw (major-minor semver new old) e)
      | inr e ↦ inr (get3 (minor_name semver old) ∙ rw (major-minor semver new old) e)
    ]

    old_patch3 :
        (get (patch_name semver old) links3 ≡ some old_store)
        ⊎ (get (patch_name semver old) links3 ≡ some new_store)
    old_patch3 = elim old_patch2 [
      | inl e ↦ inl (get3 (patch_name semver old) ∙ rw (major-patch semver new old) e)
      | inr e ↦ inr (get3 (patch_name semver old) ∙ rw (major-patch semver new old) e)
    ]

    leads3 : LeadsTo old_store new_store links3
    leads3 = elim old_major3 [
      | inl a ↦ elim old_minor3 [
        | inl m ↦ elim old_patch3 [
          | inl e ↦ inl (rw (current3, a, m) e)
          | inr e ↦ inr (rw (current3, a, m) e)
        ]
        | inr m ↦ inr (rw (current3, a, m) patch3)
      ]
      | inr a ↦ inr (rw (current3, a, minor3) patch3)
    ]

    -- In the end the chain is that of the new version.
    pub done : IsLive links4 new new_store
    done = record {
      current_to_major = get4 current_name;
      major_to_minor = get4 (major_name semver new) ∙ rw (current-major semver new) major3;
      minor_to_patch = get4 (minor_name semver new) ∙ rw (current-minor semver new) minor3;
      patch_to_store = get4 (patch_name semver new) ∙ rw (current-patch semver new) patch3;
    }

    leads4 : LeadsTo old_store new_store links4
    leads4 =
        inr
          (rw (done.current_to_major, done.major_to_minor, done.minor_to_patch) done.patch_to_store)

    pub all_lead : AllLead temp_link old_store new_store links (
        (patch_name semver new, new_store)
        ∷ (minor_name semver new, patch_name semver new)
        ∷ (major_name semver new, minor_name semver new)
        ∷ (current_name, major_name semver new)
        ∷ [])
    all_lead = (
      leads0,
      f.not_patch,
      (leads1, f.not_minor, (leads2, f.not_major, (leads3, f.not_current, leads4))),
    )
