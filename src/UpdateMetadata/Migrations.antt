-- ===== src/UpdateMetadata/Migrations.antt =====
-- `find_migrations` of sources/updater/update_metadata/src/lib.rs: the migrations to run between
-- two versions.
pub mod Search
pub mod Path
pub mod Ends
use bottlerocket_core_kit.Prelude.{
  ℕ, zero, suc, Bool, true, false, not, ◌&&◌, Option, none, some, List, [], ◌∷◌, ◌++◌, reverse,
  String, Ordering, if◌then◌else◌, filter_by, first,
}
use bottlerocket_core_kit.Prelude.Order.{Ord, eqb, before, at_most}
use bottlerocket_core_kit.Prelude.Sort.{sort_descending}
use bottlerocket_core_kit.Prelude.Outcome.{Outcome, ok, err, panic, ◌>>=◌}
use bottlerocket_core_kit.UpdateMetadata.Error.{Error, missing_migration}

-- `BTreeMap<(Version, Version), Vec<String>>`
abbrev pub Migrations : Type 0 → Type 0
Migrations V = List ((V × V) × List String)

abbrev pub names_of : Option (List String) → List String
names_of none = []
names_of (some names) = names

abbrev pub map_ok {ℓ} :
    {E : Type ℓ}
    → (List String → List String)
    → Option (Outcome E (List String))
    → Option (Outcome E (List String))
map_ok f none = none
map_ok f (some (ok names)) = some (ok (f names))
map_ok f (some (err e)) = some (err e)
map_ok f (some panic) = some panic

module _ {V : Type 0} ⦃o : Ord V⦄ where
  -- `manifest.migrations.get(transition)`
  unfoldable pub lookup : V × V → Migrations V → Option (List String)
  lookup t [] = none
  lookup t ((k, names) ∷ rest) = if eqb k.0 t.0 && eqb k.1 t.1 then some names else lookup t rest

  unfoldable pub keys : Migrations V → List (V × V)
  keys [] = []
  keys ((k, names) ∷ rest) = k ∷ keys rest

  abbrev pub target : V × V → V
  target t = t.1

  -- The transitions from a version to one that is not past the target, the highest first:
  -- `sort_unstable_by(|(_, a), (_, b)| b.cmp(a))`. No two of the sorted keys have the same target,
  -- so there is one such order.
  unfoldable pub candidates : V → V → Migrations V → List (V × V)
  unfolding keys sort_descending
  candidates version to migrations =
      sort_descending target (filter_by (λ t. eqb t.0 version && at_most t.1 to) (keys migrations))

  -- The `while` loop with fuel; `none` means that the fuel ran out.
  unfoldable pub forward_loop :
      ℕ → V → V → Migrations V → List String → Option (Outcome (Error V) (List String))
  forward_loop zero version to migrations targets = none
  forward_loop (suc fuel) version to migrations targets = elim (eqb version to) [
    | true ↦ some (ok targets)
    | false ↦ elim (first (candidates version to migrations)) [
      | none ↦ some (err (missing_migration version to))
      | some transition ↦
          forward_loop fuel transition.1 to migrations
            (targets ++ names_of (lookup transition migrations))
    ]
  ]

  unfoldable pub find_migrations_forward :
      ℕ → V → V → Migrations V → Option (Outcome (Error V) (List String))
  unfolding forward_loop
  find_migrations_forward fuel from to migrations = forward_loop fuel from to migrations []

  unfoldable pub find_migrations :
      ℕ → V → V → Migrations V → Option (Outcome (Error V) (List String))
  unfolding find_migrations_forward
  find_migrations fuel from to migrations =
      if eqb from to then some (ok []) else elim (o.cmp from to) [
        | Ordering.gt ↦ map_ok reverse (find_migrations_forward fuel to from migrations)
        | _ ↦ find_migrations_forward fuel from to migrations
      ]
