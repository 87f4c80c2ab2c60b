-- ===== src/Identity/Resolving.antt =====
-- What the identity map resolves.
use mesa_e2e_certification.Prelude.{
  String, ◌≡◌, ◌⊎◌, [], ◌∷◌, subst, inl, inr, true, some, List, arith, All, elem, lookup, has_key,
  Option-cases,
}
use mesa_e2e_certification.Identity.{
  IdentityMap, IdentityMapRow, ok, or_empty, resolve_source_chunk_id, resolve_mesa_chunk_ids,
  rows_for_identity, add_mapping, empty_map,
}
use mesa_e2e_certification.Identity.Consistent.{
  IsConsistent, empty-IsConsistent, add_mapping-IsConsistent,
}

module _ (m : IdentityMap) (c : IsConsistent m) where
  has_key-source :
      (k s : String) → lookup k m.mesa_to_source ≡ some s → has_key s m.source_to_mesa ≡ true
  has_key-source k s e = ground (arith, c.forward k s e)

  -- What an ID resolves to is a source ID of the map.
  has_key-resolved :
      (k s : String) → resolve_source_chunk_id m k ≡ ok s → has_key s m.source_to_mesa ≡ true
  unfolding resolve_source_chunk_id
  has_key-resolved k s e = elim (Option-cases (lookup k m.mesa_to_source)) [
    | inl none_there ↦ ground arith
    | inr (t, found) ↦ ground (arith, has_key-source k t found)
  ]

  -- The map has rows for exactly the IDs that it resolves, and each such row names the source ID
  -- that the ID resolves to.
  rows-resolve :
      (k s : String)
      → resolve_source_chunk_id m k ≡ ok s
      → (rows : List IdentityMapRow) × (rows_for_identity m k ≡ ok rows)
        × All (λ r. r.source_chunk_id ≡ s) rows
  unfolding rows_for_identity
  rows-resolve k s e = elim (Option-cases (lookup s m.rows_by_source)) [
    | inl none_there ↦ absurd (ground (arith, has_key-resolved k s e, c.same_keys s))
    | inr (rows, found) ↦ (
      rows,
      ground arith,
      subst (λ o. All (λ r. r.source_chunk_id ≡ s) (or_empty o)) found (c.own_rows s),
    )
  ]

-- A caller that adds these pairs of a MESA ID and a source ID in turn and goes on after an exception.
unfoldable pub add_all : List (String × String) → IdentityMap → IdentityMap
unfolding add_mapping
add_all [] m = m
add_all ((mesa, source) ∷ pairs) m = add_all pairs (add_mapping m mesa source).0

add_all-IsConsistent :
    (pairs : List (String × String)) (m : IdentityMap)
    → IsConsistent m
    → IsConsistent (add_all pairs m)
unfolding add_all
add_all-IsConsistent [] m c = c
add_all-IsConsistent ((mesa, source) ∷ pairs) m c =
    add_all-IsConsistent pairs (add_mapping m mesa source).0
      (add_mapping-IsConsistent m mesa source c)

resolves_back :
    (m : IdentityMap) (c : IsConsistent m) (k s : String)
    → resolve_source_chunk_id m k ≡ ok s
    → (ids : List String) × (resolve_mesa_chunk_ids m s ≡ ok ids) × ((elem k ids ≡ true) ⊎ (k ≡ s))
unfolding resolve_source_chunk_id resolve_mesa_chunk_ids
resolves_back m c k s e = elim (Option-cases (lookup s m.source_to_mesa)) [
  | inl none_there ↦ absurd (ground (arith, has_key-resolved m c k s e))
  | inr (ids, found) ↦ elim (Option-cases (lookup k m.mesa_to_source)) [
    | inl unknown ↦ (ids, ground arith, inr (ground arith))
    | inr (t, known) ↦ (ids, ground arith, inl (ground (arith, c.forward k s)))
  ]
]

resolves_forth :
    (m : IdentityMap) (c : IsConsistent m) (k s : String) (ids : List String)
    → resolve_mesa_chunk_ids m s ≡ ok ids
    → elem k ids ≡ true
    → resolve_source_chunk_id m k ≡ ok s
unfolding resolve_source_chunk_id resolve_mesa_chunk_ids
resolves_forth m c k s ids e there = elim (Option-cases (lookup s m.source_to_mesa)) [
  | inl none_there ↦ absurd (ground arith)
  | inr (others, found) ↦ ground (arith, c.backward k s)
]

-- Whatever pairs were added to an empty map, an ID that resolves to a source ID is that source ID or
-- among the MESA IDs that it resolves to, and each of these MESA IDs resolves to the source ID.
pub resolve_round_trip :
    (pairs : List (String × String)) (k s : String)
    → (resolve_source_chunk_id (add_all pairs empty_map) k ≡ ok s
        → (ids : List String) × (resolve_mesa_chunk_ids (add_all pairs empty_map) s ≡ ok ids)
          × ((elem k ids ≡ true) ⊎ (k ≡ s)))
      × ((ids : List String)
          → resolve_mesa_chunk_ids (add_all pairs empty_map) s ≡ ok ids
          → elem k ids ≡ true
          → resolve_source_chunk_id (add_all pairs empty_map) k ≡ ok s)
resolve_round_trip pairs k s =
    let c = add_all-IsConsistent pairs empty_map empty-IsConsistent in
    (resolves_back (add_all pairs empty_map) c k s, resolves_forth (add_all pairs empty_map) c k s)
