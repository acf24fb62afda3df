-- ===== src/Signpost/Crates.antt =====
-- The crates under sources/updater/signpost: `bit_field` on a u64, and `gptman`'s partition table.
pub mod Bits
pub mod Entries
use bottlerocket_core_kit.Prelude.{
  ℕ, ◌+◌, ◌^◌, ◌≤◌, ◌<◌, ◌≡◌, ◌⊎◌, Option, some, List, [], ◌∷◌, ◌==◌, if◌then◌else◌, In, All,
}

-- `get_bits(lo..hi)` and `set_bits(lo..hi, v)`: the bits that are set are read back, and the bits
-- outside of the range stay. A single bit is a range of one.
pub record BitField : Type 0 where
  pub get_bits : ℕ → ℕ → ℕ → ℕ
  pub set_bits : ℕ → ℕ → ℕ → ℕ → ℕ
  pub get_set :
      (x lo n v : ℕ) → lo + n ≤ 64 → v < 2 ^ n → get_bits (set_bits x lo (lo + n) v) lo (lo + n) ≡ v
  pub get_set_disjoint :
      (x lo n v lo' n' : ℕ)
      → (lo + n ≤ lo') ⊎ (lo' + n' ≤ lo)
      → get_bits (set_bits x lo (lo + n) v) lo' (lo' + n') ≡ get_bits x lo' (lo' + n')

-- The numbers of the entries after this one are larger.
abbrev pub Ascending : List (ℕ × List ℕ) → Type 0
Ascending [] = Unit
Ascending ((n, g) ∷ rest) = All (λ e. n < e.0) rest × Ascending rest

-- A partition table: `table[n].attribute_bits` is there for the entries of the table, a write to
-- one of them changes that one, and `iter` gives the number and the type GUID of each in order.
pub record Gptman : Type 1 where
  pub Table : Type 0
  pub attributes : Table → ℕ → Option ℕ
  pub set_attributes : Table → ℕ → ℕ → Table
  pub iter : Table → List (ℕ × List ℕ)
  pub attributes_set :
      (t : Table) (n m x y : ℕ)
      → attributes t n ≡ some y
      → attributes (set_attributes t n x) m ≡ (if n == m then some x else attributes t m)
  pub iter_set : (t : Table) (n x : ℕ) → iter (set_attributes t n x) ≡ iter t
  pub iter_Ascending : (t : Table) → Ascending (iter t)
  pub iter_attributes :
      (t : Table) (e : ℕ × List ℕ) → In e (iter t) → (x : ℕ) × (attributes t e.0 ≡ some x)
