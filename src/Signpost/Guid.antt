-- ===== src/Signpost/Guid.antt =====
-- sources/updater/signpost/src/guid.rs and the type GUIDs of state.rs; a `[u8; 16]` is a list of
-- its bytes, and an index outside of it does not occur.
use bottlerocket_core_kit.Prelude.{
  ℕ, Bool, true, false, ◌&&◌, List, [], ◌∷◌, ◌==◌, get_elem?, none, some,
}

abbrev byte : List ℕ → ℕ → ℕ
byte l i = elim (get_elem? l i) [ none ↦ 0 | some b ↦ b ]

unfoldable pub uuid_to_guid : List ℕ → List ℕ
uuid_to_guid u =
    byte u 3
    ∷ byte u 2
    ∷ byte u 1
    ∷ byte u 0
    ∷ byte u 5
    ∷ byte u 4
    ∷ byte u 7
    ∷ byte u 6
    ∷ byte u 8
    ∷ byte u 9
    ∷ byte u 10
    ∷ byte u 11
    ∷ byte u 12
    ∷ byte u 13
    ∷ byte u 14
    ∷ byte u 15
    ∷ []

-- `==` of the arrays
unfoldable pub guid_eq : List ℕ → List ℕ → Bool
guid_eq [] [] = true
guid_eq (a ∷ as') (b ∷ bs) = a == b && guid_eq as' bs
guid_eq _ _ = false

unfoldable pub bottlerocket_boot : List ℕ
unfolding uuid_to_guid
bottlerocket_boot = uuid_to_guid (
    0x6b ∷ 0x63 ∷ 0x61 ∷ 0x68 ∷ 0x74 ∷ 0x20 ∷ 0x65 ∷ 0x68 ∷ 0x20 ∷ 0x70 ∷ 0x6c ∷ 0x61 ∷ 0x6e ∷ 0x65
    ∷ 0x74 ∷ 0x21 ∷ [])

unfoldable pub bottlerocket_root : List ℕ
unfolding uuid_to_guid
bottlerocket_root = uuid_to_guid (
    0x55 ∷ 0x26 ∷ 0x01 ∷ 0x6a ∷ 0x1a ∷ 0x97 ∷ 0x4e ∷ 0xa4 ∷ 0xb3 ∷ 0x9a ∷ 0xb7 ∷ 0xc8 ∷ 0xc6 ∷ 0xca
    ∷ 0x45 ∷ 0x02 ∷ [])

unfoldable pub bottlerocket_hash : List ℕ
unfolding uuid_to_guid
bottlerocket_hash = uuid_to_guid (
    0x59 ∷ 0x8f ∷ 0x10 ∷ 0xaf ∷ 0xc9 ∷ 0x55 ∷ 0x44 ∷ 0x56 ∷ 0x6a ∷ 0x99 ∷ 0x77 ∷ 0x20 ∷ 0x06 ∷ 0x8a
    ∷ 0x6c ∷ 0xea ∷ [])

unfoldable pub bottlerocket_private : List ℕ
unfolding uuid_to_guid
bottlerocket_private = uuid_to_guid (
    0x44 ∷ 0x04 ∷ 0x08 ∷ 0xbb ∷ 0xeb ∷ 0x0b ∷ 0x43 ∷ 0x28 ∷ 0xa6 ∷ 0xe5 ∷ 0xa2 ∷ 0x90 ∷ 0x38 ∷ 0xfa
    ∷ 0xd7 ∷ 0x06 ∷ [])
