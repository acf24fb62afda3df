-- ===== src/Signpost/Load/Wired.antt =====
-- What `load` finds: numbers of different entries of the table.
use bottlerocket_core_kit.Prelude.{
  ℕ, zero, suc, ◌<◌, ◌≡◌, ◌≢◌, refl, sym, ap, ◌∙◌, inl, inr, Bool, true, false, some, List, [], ◌∷◌,
  arith, if◌then◌else◌, Bool-cases, get_elem?, filter_by, In, All, ==→eq, &&-eq-true, ◌==◌,
  Option-cases,
}
use bottlerocket_core_kit.Signpost.Crates.{Ascending}
use bottlerocket_core_kit.Signpost.Guid.{guid_eq}
use bottlerocket_core_kit.Signpost.Load.{nth_guid}

abbrev Entry : Type 0
Entry = ℕ × List ℕ

guid_eq→eq : (g h : List ℕ) → guid_eq g h ≡ true → g ≡ h
unfolding guid_eq
guid_eq→eq [] [] e = refl
guid_eq→eq [] (b ∷ h) e = cc
guid_eq→eq (a ∷ g) [] e = cc
guid_eq→eq (a ∷ g) (b ∷ h) e =
    let (p, q) = &&-eq-true (a == b) (guid_eq g h) e in cc (==→eq a b p, guid_eq→eq g h q)

In-filter_by :
    (p : Entry → Bool) (xs : List Entry) (e : Entry)
    → In e (filter_by p xs)
    → In e xs × (p e ≡ true)
In-filter_by p [] e m = absurd m
In-filter_by p (x ∷ xs) e m = go (In-filter_by p xs e) (p x) refl m
  where
    go :
        (In e (filter_by p xs) → In e xs × (p e ≡ true))
        → (b : Bool) → p x ≡ b
        → In e (if b then x ∷ filter_by p xs else filter_by p xs)
        → In e (x ∷ xs) × (p e ≡ true)
    go rest true h (inl q) = (inl q, ap p q ∙ h)
    go rest true h (inr m') = let (q, r) = rest m' in (inr q, r)
    go rest false h m' = let (q, r) = rest m' in (inr q, r)

All-filter_by :
    (n : ℕ) (p : Entry → Bool) (xs : List Entry)
    → All (λ x. n < x.0) xs
    → All (λ x. n < x.0) (filter_by p xs)
All-filter_by n p [] h = h
All-filter_by n p (x ∷ xs) h = elim (Bool-cases (p x)) [
  | inl keep ↦ rw keep (h.0, All-filter_by n p xs h.1)
  | inr skip ↦ rw skip (All-filter_by n p xs h.1)
]

Ascending-filter_by :
    (p : Entry → Bool) (xs : List Entry) → Ascending xs → Ascending (filter_by p xs)
Ascending-filter_by p [] h = h
Ascending-filter_by p (x ∷ xs) h = elim (Bool-cases (p x)) [
  | inl keep ↦ rw keep (All-filter_by x.0 p xs h.0, Ascending-filter_by p xs h.1)
  | inr skip ↦ rw skip (Ascending-filter_by p xs h.1)
]

In-get_elem? : (xs : List Entry) (i : ℕ) (e : Entry) → get_elem? xs i ≡ some e → In e xs
In-get_elem? [] i e h = cc
In-get_elem? (x ∷ xs) zero e h = inl (ground arith)
In-get_elem? (x ∷ xs) (suc i) e h = inr (In-get_elem? xs i e h)

All-In : (n : ℕ) (xs : List Entry) (e : Entry) → All (λ x. n < x.0) xs → In e xs → n < e.0
All-In n [] e h m = absurd m
All-In n (x ∷ xs) e h (inl q) = ground (arith, h.0)
All-In n (x ∷ xs) e h (inr m) = All-In n xs e h.1 m

-- One number, one entry.
Ascending-unique :
    (xs : List Entry) (d e : Entry) → Ascending xs → In d xs → In e xs → d.0 ≡ e.0 → d.1 ≡ e.1
Ascending-unique [] d e h p q s = absurd p
Ascending-unique (x ∷ xs) d e h (inl p) (inl q) s = ap (λ (y : Entry). y.1) (p ∙ sym q)
Ascending-unique (x ∷ xs) d e h (inl p) (inr q) s =
    absurd (omega (arith, All-In x.0 xs e h.0 q, ap (λ (y : Entry). y.0) p))
Ascending-unique (x ∷ xs) d e h (inr p) (inl q) s =
    absurd (omega (arith, All-In x.0 xs d h.0 p, ap (λ (y : Entry). y.0) q))
Ascending-unique (x ∷ xs) d e h (inr p) (inr q) s = Ascending-unique xs d e h.1 p q s

module _ (xs : List Entry) (g : List ℕ) where
  abbrev matching : List Entry
  matching = filter_by (λ e. guid_eq e.1 g) xs

  nth_guid-get_elem? :
      (i a : ℕ)
      → nth_guid xs g i ≡ some a
      → (e : Entry) × (get_elem? matching i ≡ some e) × (e.0 ≡ a)
  unfolding nth_guid
  nth_guid-get_elem? i a h = elim (Option-cases (get_elem? matching i)) [
    | inl (e, found) ↦ (e, found, ground (arith, found))
    | inr missing ↦ absurd (ground (arith, missing))
  ]

  pub nth_guid-In :
      (i a : ℕ) → nth_guid xs g i ≡ some a → (e : Entry) × In e xs × (e.0 ≡ a) × (e.1 ≡ g)
  nth_guid-In i a h =
      let (e, found, num) = nth_guid-get_elem? i a h in
      let (listed, same) = In-filter_by _ xs e (In-get_elem? matching i e found) in
      (e, listed, num, guid_eq→eq e.1 g same)

  first_two :
      (ys : List Entry) (d e : Entry)
      → Ascending ys
      → get_elem? ys 0 ≡ some d
      → get_elem? ys 1 ≡ some e
      → d.0 < e.0
  first_two [] d e h p q = cc
  first_two (x ∷ []) d e h p q = cc
  first_two (x ∷ y ∷ ys) d e h p q = ground arith

  -- The first and the second match are different partitions.
  pub nth_guid-lt :
      (a b : ℕ) → Ascending xs → nth_guid xs g 0 ≡ some a → nth_guid xs g 1 ≡ some b → a < b
  nth_guid-lt a b asc p q =
      let (d, found, num) = nth_guid-get_elem? 0 a p in
      let (e, found', num') = nth_guid-get_elem? 1 b q in
      omega (arith, first_two matching d e (Ascending-filter_by _ xs asc) found found')

-- Partitions of different types are different partitions.
pub nth_guid-ne :
    (xs : List Entry) (g h : List ℕ) (i j a b : ℕ)
    → Ascending xs
    → g ≢ h
    → nth_guid xs g i ≡ some a
    → nth_guid xs h j ≡ some b
    → a ≢ b
nth_guid-ne xs g h i j a b asc differ p q same =
    let (d, at_d, num_d, type_d) = nth_guid-In xs g i a p in
    let (e, at_e, num_e, type_e) = nth_guid-In xs h j b q in
    differ (sym type_d ∙ Ascending-unique xs d e asc at_d at_e (num_d ∙ same ∙ sym num_e) ∙ type_e)
