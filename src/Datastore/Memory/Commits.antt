-- ===== src/Datastore/Memory/Commits.antt =====
-- Transactions: what a commit and a deletion leave.
use bottlerocket_core_kit.Prelude.{
  ◌≡◌, refl, sym, ap, subst, ◌∙◌, inl, inr, Bool, true, false, ◌&&◌, Option, none, some, List, [],
  ◌∷◌, String, str_eq, if◌then◌else◌, Bool-cases, arith,
}
use bottlerocket_core_kit.Prelude.Outcome.{Outcome, ok}
use bottlerocket_core_kit.Datastore.Error.{Error}
use bottlerocket_core_kit.Prelude.HashMap.{name_eq, get, remove, map_keys, get-remove}
use bottlerocket_core_kit.Datastore.KeyMap.{key_eq}
use bottlerocket_core_kit.Datastore.Key.{Key, same_key}
use bottlerocket_core_kit.Datastore.Memory.{
  Dataset, Committed, live_data, pending_data, MemoryDataStore, ApprovedWrite,
  ConstraintCheckResult, reject, approve, dataset, get_key, set_key, set_keys, dataset_mut, Check,
  apply_settings, commit_transaction, finish_commit, delete_transaction,
}
use bottlerocket_core_kit.Datastore.Memory.Reads.{same_place, get_key-set_key}

-- No key comes twice.
abbrev pub Distinct : Dataset → Type 0
Distinct [] = Unit
Distinct ((k, v) ∷ rest) = (get k rest ≡ none) × Distinct rest

abbrev pub or_else {ℓ} : {A : Type ℓ} → Option A → Option A → Option A
or_else none b = b
or_else (some a) b = some a

get-same : (a b : Key) (m : Dataset) → same_key a b ≡ true → get a m ≡ get b m
unfolding get
get-same a b [] h = refl
get-same a b ((j, w) ∷ m) h = rw (key_eq.same_right a b j h, get-same a b m h) refl

-- Setting many keys is reading them from the map first.
get_key-set_keys :
    (s : MemoryDataStore) (ws : Dataset) (c d : Committed) (l : Key)
    → Distinct ws
    → get_key (set_keys s ws c) l d
      ≡ (if same_place c d then or_else (get l ws) (get_key s l d) else get_key s l d)
unfolding set_keys get
get_key-set_keys s [] c d l h = ground (arith, Bool-cases (same_place c d))
get_key-set_keys s ((k, v) ∷ ws) c d l h =
    get_key-set_keys (set_key s k v c) ws c d l h.1
    ∙ rw (get_key-set_key s k l v c d) (merge (same_place c d) (get_key s l d))
  where
    merge :
        (here : Bool) (old : Option String)
        → (if here
            then or_else (get l ws) (if here && same_key k l then some v else old)
            else if here && same_key k l
            then some v
            else old)
          ≡ (if here then or_else (if same_key k l then some v else get l ws) old else old)
    merge false old = refl
    merge true old = elim (Bool-cases (same_key k l)) [
      | inl same ↦ rw (same, sym (get-same k l ws same), h.0) refl
      | inr other ↦ rw other refl
    ]

-- Without the pending data of a transaction.
get_key_removed :
    (s : MemoryDataStore) (tx : String) (l : Key) (d : Committed)
    → get_key (record s { pending = remove tx s.pending }) l d
      ≡ (if same_place (pending_data tx) d then none else get_key s l d)
unfolding get_key dataset get
get_key_removed s tx l live_data = refl
get_key_removed s tx l (pending_data other) =
    rw (get-remove tx other s.pending)
      (elim (Bool-cases (str_eq tx other)) [ inl same ↦ rw same refl | inr apart ↦ rw apart refl ])

set_keys-read :
    (s : MemoryDataStore) (settings : Dataset) (l : Key) (d : Committed)
    → Distinct settings
    → get_key (apply_settings s settings).0 l d
      ≡ (if same_place live_data d then or_else (get l settings) (get_key s l d) else get_key s l d)
unfolding apply_settings get
set_keys-read s [] l d h = ground (arith, Bool-cases (same_place live_data d))
set_keys-read s (e ∷ settings) l d h = get_key-set_keys s (e ∷ settings) live_data d l h

apply_settings-keys :
    (s : MemoryDataStore) (settings : Dataset) → (apply_settings s settings).1 ≡ map_keys settings
unfolding apply_settings map_keys
apply_settings-keys s [] = refl
apply_settings-keys s (e ∷ settings) = refl

finish_commit-approved :
    (tx : String) (checked : MemoryDataStore) (w : ApprovedWrite) (l : Key) (d : Committed)
    → Distinct w.settings
    → ((finish_commit tx (checked, some (approve w))).1 ≡ ok (map_keys w.settings))
      × (get_key (finish_commit tx (checked, some (approve w))).0 l d ≡ (
          if same_place (pending_data tx) d
          then none
          else if same_place live_data d
          then or_else (get l w.settings) (get_key checked l d)
          else get_key checked l d))
unfolding finish_commit
finish_commit-approved tx checked w l d distinct = (
  ap ok (apply_settings-keys checked w.settings),
  get_key_removed (apply_settings checked w.settings).0 tx l d
      ∙ rw (set_keys-read checked w.settings l d distinct) refl,
)

-- The metadata stay through the writes of a commit.
set_keys-metadata :
    (s : MemoryDataStore) (ws : Dataset)
    → ((set_keys s ws live_data).metadata ≡ s.metadata)
      × ((set_keys s ws live_data).pending_metadata ≡ s.pending_metadata)
unfolding set_keys set_key dataset_mut
set_keys-metadata s [] = (refl, refl)
set_keys-metadata s ((k, v) ∷ ws) = set_keys-metadata (set_key s k v live_data) ws

finish_commit-metadata :
    (tx : String) (checked : MemoryDataStore) (answer : Option ConstraintCheckResult)
    → ((finish_commit tx (checked, answer)).0.metadata ≡ checked.metadata)
      × ((finish_commit tx (checked, answer)).0.pending_metadata ≡ checked.pending_metadata)
unfolding finish_commit apply_settings
finish_commit-metadata tx checked none = (refl, refl)
finish_commit-metadata tx checked (some (reject e)) = (refl, refl)
finish_commit-metadata tx checked (some (approve w)) = settings w.settings
  where
    settings :
        (ws : Dataset)
        → ((apply_settings checked ws).0.metadata ≡ checked.metadata)
          × ((apply_settings checked ws).0.pending_metadata ≡ checked.pending_metadata)
    settings [] = (refl, refl)
    settings (e ∷ ws) = set_keys-metadata checked (e ∷ ws)

module _ (s : MemoryDataStore) (tx : String) (constraint_check : Check) where
  abbrev committed : MemoryDataStore × Outcome Error (List Key)
  committed = commit_transaction s tx constraint_check

  -- A commit that the constraint check approves, with settings that have no key twice, returns the
  -- keys of these settings; each of them reads live as it was approved and every other key as the
  -- check left it; the transaction has no pending data any more, and the others have theirs.
  pub commit_transaction-approved :
      (checked : MemoryDataStore) (w : ApprovedWrite) (l : Key) (d : Committed)
      → constraint_check s (pending_data tx) ≡ (checked, some (approve w))
      → Distinct w.settings
      → (committed.1 ≡ ok (map_keys w.settings))
        × (get_key committed.0 l d ≡ (
            if same_place (pending_data tx) d
            then none
            else if same_place live_data d
            then or_else (get l w.settings) (get_key checked l d)
            else get_key checked l d))
  unfolding commit_transaction
  commit_transaction-approved checked w l d h distinct =
      subst
        (λ r.
          ((finish_commit tx r).1 ≡ ok (map_keys w.settings))
          × (get_key (finish_commit tx r).0 l d ≡ (
              if same_place (pending_data tx) d
              then none
              else if same_place live_data d
              then or_else (get l w.settings) (get_key checked l d)
              else get_key checked l d)))
        (sym h) (finish_commit-approved tx checked w l d distinct)

  -- Whatever the constraint check answers, the commit leaves the metadata, live and pending, as the
  -- check left them: the metadata that it approves are not written.
  pub commit_transaction-metadata :
      (committed.0.metadata ≡ (constraint_check s (pending_data tx)).0.metadata)
      × (committed.0.pending_metadata ≡ (constraint_check s (pending_data tx)).0.pending_metadata)
  unfolding commit_transaction
  commit_transaction-metadata =
      finish_commit-metadata tx (constraint_check s (pending_data tx)).0
        (constraint_check s (pending_data tx)).1

-- A deleted transaction has no pending data any more; everything else reads as before.
pub get_key-delete_transaction :
    (s : MemoryDataStore) (tx : String) (l : Key) (d : Committed)
    → get_key (delete_transaction s tx).0 l d
      ≡ (if same_place (pending_data tx) d then none else get_key s l d)
unfolding delete_transaction
get_key-delete_transaction s tx l d = get_key_removed s tx l d
