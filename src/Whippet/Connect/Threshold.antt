-- ===== src/Whippet/Connect/Threshold.antt =====
-- `find_priority_threshold` of policy.rs gives the highest priority of the connect rules.
use bottlerocket_core_kit.Prelude.{
  ℕ, ◌≡◌, refl, ◌∙◌, ap, List, [], ◌∷◌, ◌++◌, inl, inr, arith, ltb, first, filter_by, if◌then◌else◌,
  Bool-cases,
}
use bottlerocket_core_kit.Prelude.Order.{nat_ord, at_most}
use bottlerocket_core_kit.Prelude.Sort.{insert_descending, sort_descending}
use bottlerocket_core_kit.Whippet.Rule.{Rule, get_priority, is_connect}
use bottlerocket_core_kit.Whippet.Connect.{priority_or_zero, find_priority_threshold}

abbrev pub max_nat : ℕ → ℕ → ℕ
max_nat a b = if ltb a b then b else a

-- The highest priority of the connect rules, by recursion.
unfoldable pub highest : List Rule → ℕ
highest [] = 0
highest (r ∷ rules) =
    let rest = highest rules in if is_connect r then max_nat (get_priority r) rest else rest

first-insert :
    (t : Rule) (l : List Rule)
    → priority_or_zero (first (insert_descending get_priority t l))
      ≡ max_nat (get_priority t) (priority_or_zero (first l))
unfolding insert_descending
first-insert t [] = ground arith
first-insert t (u ∷ l) = elim (Bool-cases (at_most (get_priority u) (get_priority t))) [
  | inl above ↦ rw above (ground arith)
  | inr below ↦ rw below (ground arith)
]

first-sort :
    (l : List Rule)
    → priority_or_zero (first (sort_descending get_priority (filter_by is_connect l))) ≡ highest l
unfolding sort_descending highest
first-sort [] = refl
first-sort (r ∷ l) = elim (Bool-cases (is_connect r)) [
  | inl keep ↦ rw keep (
      first-insert r (sort_descending get_priority (filter_by is_connect l))
      ∙ ap (max_nat (get_priority r)) (first-sort l))
  | inr skip ↦ rw skip (first-sort l)
]

pub find_priority_threshold-highest :
    (rules : List Rule) → find_priority_threshold rules ≡ highest rules
unfolding find_priority_threshold
find_priority_threshold-highest rules = first-sort rules

pub highest-append : (xs ys : List Rule) → highest (xs ++ ys) ≡ max_nat (highest xs) (highest ys)
unfolding highest
highest-append [] ys = ground arith
highest-append (x ∷ xs) ys = elim (Bool-cases (is_connect x)) [
  | inl keep ↦ rw (keep, highest-append xs ys) (ground arith)
  | inr skip ↦ rw skip (highest-append xs ys)
]
