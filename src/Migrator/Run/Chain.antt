-- ===== src/Migrator/Run/Chain.antt =====
-- `run_migrations` of main.rs keeps the store that it starts from, and gives what the migrations
-- make of it one after another.
use bottlerocket_core_kit.Prelude.{
  ℕ, suc, ◌≡◌, refl, ◌∙◌, sym, ap, true, false, Option, none, some, List, [], ◌∷◌, inl, inr,
  if◌then◌else◌, Bool-cases, Option-cases,
}
use bottlerocket_core_kit.Prelude.Text.{Text, text_eq, text_eq→eq, text_eq_refl}
use bottlerocket_core_kit.Prelude.HashMap.{HashMap, text_key, get, put, get-put, get-remove}
use bottlerocket_core_kit.Prelude.Outcome.{Outcome, ok, err}
use bottlerocket_core_kit.Migrator.Direction.{Direction}
use bottlerocket_core_kit.Migrator.Run.{
  Error, new_version_already_exists, Program, delete_intermediate, run_loop, run_migrations,
  migrated_store, migrate_data,
}

-- A name that is not there differs from one that is.
fresh_name :
    {D : Type 0} (stores : HashMap Text D) (target source : Text) {d : D}
    → get target stores ≡ none
    → get source stores ≡ some d
    → text_eq target source ≡ false
fresh_name stores target source h e = elim (Bool-cases (text_eq target source)) [
  | inl same ↦
      let absent : get source stores ≡ none =
        ap (λ x. get x stores) (sym (text_eq→eq target source same)) ∙ h in
      cc
  | inr other ↦ other
]

abbrev NotThis : Text → Option Text → Type 0
NotThis name none = Unit
NotThis name (some other) = text_eq other name ≡ false

module _ {D : Type 0} (read_target : Text → Option (Program D)) (new_location : ℕ → Text)
    (direction : Direction) where
  get-delete :
      (name : Text) (intermediate : Option Text) (stores : HashMap Text D)
      → NotThis name intermediate
      → get name (delete_intermediate read_target new_location direction intermediate stores)
        ≡ get name stores
  get-delete name none stores h = refl
  get-delete name (some other) stores h = get-remove other name stores ∙ rw h refl

  -- The store that is started from stays; what comes out is what the migrations make of its
  -- content, and where they make something of it, the only error is a name that is taken.
  abbrev pub Ends : Text → D → Option D → HashMap Text D × Outcome Error Text → Type 0
  Ends origin content (some result) (stores, ok path) =
      (get origin stores ≡ some content) × (get path stores ≡ some result)
  Ends origin content none (stores, ok path) = ⊥
  Ends origin content (some result) (stores, err e) =
      (get origin stores ≡ some content) × ((path : Text) × (e ≡ new_version_already_exists path))
  Ends origin content none (stores, err e) = get origin stores ≡ some content
  Ends origin content result (stores, Outcome.panic) = ⊥

  abbrev IsSource : Text → Option Text → Type 0
  IsSource source none = Unit
  IsSource source (some name) = name ≡ source

  taken :
      (origin path : Text) (content : D) (result : Option D) (stores : HashMap Text D)
      → get origin stores ≡ some content
      → Ends origin content result (stores, err (new_version_already_exists path))
  taken origin path content none stores h = h
  taken origin path content (some result) stores h = (h, (path, refl))

  get-next :
      (name target : Text) (written : D) (intermediate : Option Text) (stores : HashMap Text D)
      → NotThis name intermediate
      → get name (
          delete_intermediate read_target new_location direction intermediate
            (put target written stores))
        ≡ (if text_eq target name then some written else get name stores)
  get-next name target written intermediate stores h =
      get-delete name intermediate (put target written stores) h
      ∙ get-put target name written stores

  other_way : (s t : Text) → text_eq s t ≡ false → text_eq t s ≡ false
  other_way s t h = elim (Bool-cases (text_eq t s)) [
    | inl same ↦
        let e : text_eq s t ≡ true = ap (λ x. text_eq s x) (text_eq→eq t s same) ∙ text_eq_refl s in
        cc
    | inr other ↦ other
  ]

  target_differs :
      (target source : Text) (intermediate : Option Text)
      → text_eq target source ≡ false
      → IsSource source intermediate
      → NotThis target intermediate
  target_differs target source none h j = tt
  target_differs target source (some name) h j =
      ap (λ x. text_eq x target) j ∙ other_way target source h

  run_loop-Ends :
      (migrations : List Text) (calls : ℕ) (source origin : Text) (intermediate : Option Text)
      (stores : HashMap Text D) (content now : D)
      → get origin stores ≡ some content
      → get source stores ≡ some now
      → NotThis origin intermediate
      → IsSource source intermediate
      → Ends origin content
          (migrate_data read_target new_location direction migrations now)
          (run_loop read_target new_location direction calls migrations source intermediate stores)
  unfolding run_loop migrate_data
  run_loop-Ends [] calls source origin intermediate stores content now h s k j = (h, s)
  run_loop-Ends (migration ∷ migrations) calls source origin intermediate stores content now h s k
        j =
      let target = new_location calls in
      elim (Option-cases (read_target migration)) [
        | inr missing ↦ rw (run_loop, migrate_data, missing) h
        | inl (program, p) ↦ elim (Option-cases (get target stores)) [
          | inl (_, there) ↦
              rw (run_loop, migrate_data, p, there) (taken origin target content _ stores h)
          | inr free ↦
              let left = (program direction now).0 in
              let not_origin = fresh_name stores target origin free h in
              let not_source = fresh_name stores target source free s in
              let differs = target_differs target source intermediate not_source j in
              elim (Bool-cases (program direction now).1) [
                | inr failed ↦
                    rw (run_loop, migrate_data, p, free, s, failed)
                      (get-put target origin left stores ∙ rw not_origin h)
                | inl success ↦
                    rw (run_loop, migrate_data, p, free, s, success)
                      (run_loop-Ends migrations (suc calls) target origin (some target) _ content
                        left (get-next origin target left intermediate stores k ∙ rw not_origin h)
                        (get-next target target left intermediate stores differs
                          ∙ rw (text_eq_refl target) refl)
                        not_origin refl)
              ]
        ]
      ]

  -- Running migrations from a store that is there leaves it as it is, however the run ends. Where all
  -- migrations are found and succeed on the data, one after another, the run gives a store with
  -- what they make of it, or stops at a random name that is taken; where one is missing or fails,
  -- the run is an error. With no migration the store itself is used.
  pub migrated_store-Ends :
      (migrations : List Text) (source : Text) (stores : HashMap Text D) (content : D)
      → get source stores ≡ some content
      → Ends source content
          (migrate_data read_target new_location direction migrations content)
          (migrated_store read_target new_location direction migrations source stores)
  unfolding migrated_store run_migrations migrate_data
  migrated_store-Ends [] source stores content h = (h, h)
  migrated_store-Ends (m ∷ ms) source stores content h =
      run_loop-Ends (m ∷ ms) 0 source source none stores content content h h tt tt
