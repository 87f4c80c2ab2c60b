-- ===== src/Identity/Consistent.antt =====
-- The two directions of the identity map agree, however it was filled.
use mesa_e2e_certification.Prelude.{
  String, ◌==◌, eq_iff, ◌≡◌, ◌≢◌, refl, subst, ◌↔◌, ◌⊎◌, inl, inr, true, ◌||◌, none, some, List, [],
  ◌∷◌, ◌++◌, arith, All, elem, lookup, lookup-insert, has_key, Option-cases, Bool-cases,
  if◌then◌else◌,
}
use mesa_e2e_certification.Identity.{
  IdentityMapRow, IdentityMap, empty_map, or_empty, add_member, plain_row, enter_row, add_mapping,
}

elem-append : (k : String) (xs ys : List String) → elem k (xs ++ ys) ≡ (elem k xs || elem k ys)
elem-append k [] ys = refl
elem-append k (x ∷ xs) ys = ground (arith, elem-append k xs ys)

elem-add_member :
    (k x : String) (xs : List String) → elem k (add_member x xs) ≡ (x == k || elem k xs)
elem-add_member k x xs = ground (arith, elem-append k xs (x ∷ []), eq_iff x k)

-- the source IDs of a map, each with its MESA IDs
abbrev pub mesa_ids : IdentityMap → String → List String
mesa_ids m s = or_empty (lookup s m.source_to_mesa)

abbrev pub rows_of : IdentityMap → String → List IdentityMapRow
rows_of m s = or_empty (lookup s m.rows_by_source)

pub record IsConsistent (m : IdentityMap) : Type 0 where
  pub forward : (k s : String) → lookup k m.mesa_to_source ≡ some s → elem k (mesa_ids m s) ≡ true
  pub backward : (k s : String) → elem k (mesa_ids m s) ≡ true → lookup k m.mesa_to_source ≡ some s
  pub same_keys : (s : String) → has_key s m.rows_by_source ≡ has_key s m.source_to_mesa
  pub own_rows : (s : String) → All (λ r. r.source_chunk_id ≡ s) (rows_of m s)

pub empty-IsConsistent : IsConsistent empty_map
unfolding lookup
empty-IsConsistent = record {
  forward = λ k s e. cc;
  backward = λ k s e. cc;
  same_keys = λ s. refl;
  own_rows = λ s. tt;
}

All-snoc :
    (s : String) (rows : List IdentityMapRow) (row : IdentityMapRow)
    → All (λ r. r.source_chunk_id ≡ s) rows
    → row.source_chunk_id ≡ s
    → All (λ r. r.source_chunk_id ≡ s) (rows ++ row ∷ [])
All-snoc s [] row h e = (e, tt)
All-snoc s (r ∷ rows) row h e = (h.0, All-snoc s rows row h.1 e)

-- The MESA ID of the row is new, or has the row's source ID already.
abbrev pub IsFree : IdentityMap → IdentityMapRow → Type 0
IsFree m row =
    (lookup row.mesa_chunk_id m.mesa_to_source ≡ none)
    ⊎ (lookup row.mesa_chunk_id m.mesa_to_source ≡ some row.source_chunk_id)

module _ (m : IdentityMap) (row : IdentityMapRow) (c : IsConsistent m) (free : IsFree m row) where
  abbrev pub mesa : String
  mesa = row.mesa_chunk_id

  abbrev pub source : String
  source = row.source_chunk_id

  abbrev pub next : IdentityMap
  next = enter_row m row

  pub lookup-next :
      (k : String)
      → lookup k next.mesa_to_source
        ≡ (if mesa == k then some source else lookup k m.mesa_to_source)
  unfolding enter_row
  lookup-next k = lookup-insert mesa k source m.mesa_to_source

  elem-next :
      (k s : String)
      → elem k (mesa_ids next s)
        ≡ (if source == s then mesa == k || elem k (mesa_ids m s) else elem k (mesa_ids m s))
  unfolding enter_row
  elem-next k s = ground (
    arith,
    lookup-insert source s (add_member mesa (mesa_ids m source)) m.source_to_mesa,
    elem-add_member k mesa (mesa_ids m source),
    eq_iff source s,
  )

  same_keys-next : (s : String) → has_key s next.rows_by_source ≡ has_key s next.source_to_mesa
  unfolding enter_row
  same_keys-next s = ground (
    arith,
    lookup-insert source s (add_member mesa (mesa_ids m source)) m.source_to_mesa,
    lookup-insert source s (rows_of m source ++ row ∷ []) m.rows_by_source,
    c.same_keys s,
  )

  own_rows-next : (s : String) → All (λ r. r.source_chunk_id ≡ s) (rows_of next s)
  unfolding enter_row
  own_rows-next s = elim (Bool-cases (source == s)) [
    | inr other ↦ rw (lookup-insert, other) (c.own_rows s)
    | inl same ↦
        rw (lookup-insert, same)
          (subst (λ t. All (λ r. r.source_chunk_id ≡ t) (rows_of m source ++ row ∷ []))
            ((eq_iff source s).0 same)
            (All-snoc source (rows_of m source) row (c.own_rows source) refl))
  ]

  pub enter_row-IsConsistent : IsConsistent next
  enter_row-IsConsistent = record {
    forward = λ k s e.
        ground (arith, lookup-next k, elem-next k s, c.forward k s, eq_iff mesa k, eq_iff source s);
    backward = λ k s e.
        ground (
          arith,
          lookup-next k,
          elem-next k s,
          c.backward k s,
          eq_iff mesa k,
          eq_iff source s,
          free,
        );
    same_keys = same_keys-next;
    own_rows = own_rows-next;
  }

-- A mapping is added exactly when both IDs are non-empty and the MESA ID is new. It then resolves
-- to its source ID and every other entry stays; after an exception the map is as it was.
pub add_mapping_outcome :
    (m : IdentityMap) (mesa source : String)
    → (((add_mapping m mesa source).1 ≡ none)
        ↔ ((mesa ≢ "") × (source ≢ "") × (lookup mesa m.mesa_to_source ≡ none)))
      × ((add_mapping m mesa source).1 ≡ none
          → (k : String)
          → lookup k (add_mapping m mesa source).0.mesa_to_source
            ≡ (if mesa == k then some source else lookup k m.mesa_to_source))
      × ((add_mapping m mesa source).1 ≢ none → (add_mapping m mesa source).0 ≡ m)
unfolding add_mapping enter_row
add_mapping_outcome m mesa source = (
  (
    λ h. (λ e. ground (arith, eq_iff mesa ""), λ e. ground (arith, eq_iff source ""), ground arith),
    λ h. ground (arith, eq_iff mesa "", eq_iff source "", h.0, h.1, h.2),
  ),
  λ h k. ground (arith, lookup-insert mesa k source m.mesa_to_source),
  λ h. ground arith,
)

-- Adding a mapping, whether it raises or not, keeps the two directions of the map in agreement.
pub add_mapping-IsConsistent :
    (m : IdentityMap) (mesa source : String)
    → IsConsistent m
    → IsConsistent (add_mapping m mesa source).0
unfolding add_mapping
add_mapping-IsConsistent m mesa source c = elim (Bool-cases (mesa == "" || source == "")) [
  | inl empty ↦ rw empty c
  | inr there ↦ elim (Option-cases (lookup mesa m.mesa_to_source)) [
    | inl new ↦
        rw (there, new, add_mapping) (enter_row-IsConsistent m (plain_row mesa source) c (inl new))
    | inr (previous, old) ↦ elim (Bool-cases (previous == source)) [
      | inl same ↦ rw (there, old, same, add_mapping) c
      | inr other ↦ rw (there, old, other, add_mapping) c
    ]
  ]
]
