-- ===== src/Signpost/Crates/Entries.antt =====
-- `gptman` on a concrete table, a list whose entries are numbered from 1, to show that what is
-- relied on can hold.
use bottlerocket_core_kit.Prelude.{
  ℕ, suc, ◌≤◌, ◌<◌, ◌≡◌, refl, inl, inr, Option, none, some, List, [], ◌∷◌, ◌==◌, if◌then◌else◌, In,
  All, arith,
}
use bottlerocket_core_kit.Signpost.Crates.{Gptman, Ascending}

-- The type GUID and the attribute bits of each entry.
abbrev pub Entries : Type 0
Entries = List (List ℕ × ℕ)

unfoldable pub numbered : ℕ → Entries → List (ℕ × List ℕ)
numbered k [] = []
numbered k ((g, x) ∷ t) = (k, g) ∷ numbered (suc k) t

unfoldable pub attributes_from : ℕ → Entries → ℕ → Option ℕ
attributes_from k [] n = none
attributes_from k ((g, x) ∷ t) n = if k == n then some x else attributes_from (suc k) t n

unfoldable pub set_from : ℕ → Entries → ℕ → ℕ → Entries
set_from k [] n w = []
set_from k ((g, x) ∷ t) n w =
    let rest = set_from (suc k) t n w in if k == n then (g, w) ∷ t else (g, x) ∷ rest

pub attributes-set_from :
    (k : ℕ) (t : Entries) (n m w y : ℕ)
    → attributes_from k t n ≡ some y
    → attributes_from k (set_from k t n w) m ≡ (if n == m then some w else attributes_from k t m)
unfolding attributes_from set_from
attributes-set_from k [] n m w y h = cc
attributes-set_from k ((g, x) ∷ t) n m w y h = ground (arith, attributes-set_from (suc k) t n m w y)

pub numbered-set_from :
    (k : ℕ) (t : Entries) (n w : ℕ) → numbered k (set_from k t n w) ≡ numbered k t
unfolding numbered set_from
numbered-set_from k [] n w = refl
numbered-set_from k ((g, x) ∷ t) n w = ground (arith, numbered-set_from (suc k) t n w)

All-numbered : (n k : ℕ) (t : Entries) → n < k → All (λ e. n < e.0) (numbered k t)
unfolding numbered
All-numbered n k [] h = tt
All-numbered n k ((g, x) ∷ t) h = (h, All-numbered n (suc k) t (omega arith))

pub Ascending-numbered : (k : ℕ) (t : Entries) → Ascending (numbered k t)
unfolding numbered
Ascending-numbered k [] = tt
Ascending-numbered k ((g, x) ∷ t) =
    (All-numbered k (suc k) t (omega arith), Ascending-numbered (suc k) t)

In-numbered-le : (k : ℕ) (t : Entries) (e : ℕ × List ℕ) → In e (numbered k t) → k ≤ e.0
unfolding numbered
In-numbered-le k [] e m = absurd m
In-numbered-le k ((g, x) ∷ t) e (inl p) = ground arith
In-numbered-le k ((g, x) ∷ t) e (inr m) = omega (arith, In-numbered-le (suc k) t e m)

pub attributes-numbered :
    (k : ℕ) (t : Entries) (e : ℕ × List ℕ)
    → In e (numbered k t)
    → (x : ℕ) × (attributes_from k t e.0 ≡ some x)
unfolding numbered attributes_from
attributes-numbered k [] e m = absurd m
attributes-numbered k ((g, x) ∷ t) e (inl p) = (x, ground arith)
attributes-numbered k ((g, x) ∷ t) e (inr m) =
    let (y, there) = attributes-numbered (suc k) t e m in
    (y, ground (arith, In-numbered-le (suc k) t e m))

instance abbrev pub entry_table : Gptman
entry_table = record {
  Table = Entries;
  attributes = attributes_from 1;
  set_attributes = set_from 1;
  iter = numbered 1;
  attributes_set = attributes-set_from 1;
  iter_set = numbered-set_from 1;
  iter_Ascending = Ascending-numbered 1;
  iter_attributes = attributes-numbered 1;
}
