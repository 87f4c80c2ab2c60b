-- ===== src/Identity/Loading.antt =====
-- What a loaded identity map holds.
use mesa_e2e_certification.Prelude.{
  ℕ, suc, String, ◌==◌, eq_iff, ◌≡◌, ◌≢◌, refl, ap, subst, ◌↔◌, ◌⊎◌, inl, inr, false, Option, none,
  some, List, [], ◌∷◌, arith, Member, lookup, Option-cases, Bool-cases, if◌then◌else◌, is_empty,
}
use mesa_e2e_certification.Identity.{
  IdentityMapRow, IdentityMap, IdentityError, Result, ok, err, RowSource, empty_map, enter_row,
  load_row, load_lines, load_map, load_from_file,
}
use mesa_e2e_certification.Identity.Consistent.{
  IsConsistent, IsFree, empty-IsConsistent, enter_row-IsConsistent, lookup-next,
}

pub Result-cases :
    {A : Type 0} (r : Result A) → ((a : A) × (r ≡ ok a)) ⊎ ((e : IdentityError) × (r ≡ err e))
Result-cases (ok a) = inl (a, refl)
Result-cases (err e) = inr (e, refl)

-- A row that is accepted is entered, and its MESA ID was free.
load_row-ok :
    (seen : List (String × String)) (m : IdentityMap) (row : IdentityMapRow) {next : IdentityMap}
    → load_row seen m row ≡ ok next
    → IsFree m row × (next ≡ enter_row m row)
unfolding load_row
load_row-ok seen m row h = elim (Option-cases (lookup row.mesa_chunk_id m.mesa_to_source)) [
  | inl new ↦ (inl new, ground arith)
  | inr (previous, old) ↦ (inr (ground (arith, eq_iff previous row.source_chunk_id)), ground arith)
]

module _ (source : RowSource) where
  open source use {Bytes, sha256, decode, splitlines, is_blank, parse_row}

  -- The rows that the lines hold: blank lines are passed over.
  abbrev pub rows_in : List String → List IdentityMapRow
  rows_in [] = []
  rows_in (text ∷ lines) =
      let rest = rows_in lines in
      if is_blank text then rest else elim (parse_row text) [ none ↦ rest | some row ↦ row ∷ rest ]

  -- A row of the list maps the MESA ID to the source ID.
  abbrev pub IsMapped : String → String → List IdentityMapRow → Type 0
  IsMapped k s rows =
      (row : IdentityMapRow) × Member row rows × (row.mesa_chunk_id ≡ k) × (row.source_chunk_id ≡ s)

  -- What the loop has made of the map that it started from.
  record IsLoaded (start : IdentityMap) (rows : List IdentityMapRow) (m : IdentityMap)
      : Type 0 where
    consistent : IsConsistent m
    kept :
        (k s : String) → lookup k start.mesa_to_source ≡ some s → lookup k m.mesa_to_source ≡ some s
    mapped : (k s : String) → IsMapped k s rows → lookup k m.mesa_to_source ≡ some s
    origin :
        (k s : String)
        → lookup k m.mesa_to_source ≡ some s
        → (lookup k start.mesa_to_source ≡ some s) ⊎ IsMapped k s rows

  IsLoaded-cons :
      (start : IdentityMap) (row : IdentityMapRow) (rows : List IdentityMapRow) (m : IdentityMap)
      → IsConsistent start
      → IsFree start row
      → IsLoaded (enter_row start row) rows m
      → IsLoaded start (row ∷ rows) m
  IsLoaded-cons start row rows m c free l = record {
    consistent = l.consistent;
    kept = λ k s e.
        l.kept k s
          (ground (arith, lookup-next start row c free k, eq_iff row.mesa_chunk_id k, free));
    mapped = λ k s (r, there, ek, es). elim there [
      | inl same ↦ l.kept k s (
          ground (
            arith,
            lookup-next start row c free k,
            eq_iff row.mesa_chunk_id k,
            ap (λ (x : IdentityMapRow). x.mesa_chunk_id) same,
            ap (λ (x : IdentityMapRow). x.source_chunk_id) same,
          ))
      | inr later ↦ l.mapped k s (r, later, ek, es)
    ];
    origin = λ k s e. elim (l.origin k s e) [
      | inr (r, there, ek, es) ↦ inr (r, inr there, ek, es)
      | inl before ↦ elim (Bool-cases (row.mesa_chunk_id == k)) [
        | inl same ↦ inr (
          row,
          inl refl,
          (eq_iff row.mesa_chunk_id k).0 same,
          ground (arith, lookup-next start row c free k),
        )
        | inr other ↦ inl (ground (arith, lookup-next start row c free k))
      ]
    ];
  }

  load_lines-IsLoaded :
      (line : ℕ) (seen : List (String × String)) (start : IdentityMap) (lines : List String)
      {m : IdentityMap}
      → IsConsistent start
      → load_lines source line seen start lines ≡ ok m
      → IsLoaded start (rows_in lines) m
  unfolding load_lines
  load_lines-IsLoaded line seen start [] c h = subst (IsLoaded start []) (ground arith) (record {
    consistent = c;
    kept = λ k s e. e;
    mapped = λ k s p. absurd (p.1 tt);
    origin = λ k s e. inl e;
  })
  load_lines-IsLoaded line seen start (text ∷ lines) c h = elim (Bool-cases (is_blank text)) [
    | inl blank ↦ rw blank (load_lines-IsLoaded (suc line) seen start lines c (ground arith))
    | inr full ↦ elim (Option-cases (parse_row text)) [
      | inl bad ↦ absurd (ground arith)
      | inr (row, parsed) ↦ elim (Result-cases (load_row seen start row)) [
        | inr (e, refused) ↦ absurd (ground arith)
        | inl (next, entered) ↦
            let (free, is_next) = load_row-ok seen start row entered in
            rw (full, parsed)
              (IsLoaded-cons start row (rows_in lines) _ c free (
                load_lines-IsLoaded (suc line) ((row.mesa_chunk_id, row.source_chunk_id) ∷ seen)
                  (enter_row start row) lines (enter_row-IsConsistent start row c free)
                  (ground arith)))
      ]
    ]
  ]

  -- What `load_from_file` has read, when it returns.
  pub record IsRead (raw : Bytes) (expected : Option String) (text : String) (m : IdentityMap)
      : Type 0 where
    pub decoded : decode raw ≡ some text
    pub hash : (sha : String) → expected ≡ some sha → sha256 raw ≡ sha
    pub recorded : m.map_sha256 ≡ some (sha256 raw)
    pub exact :
        (k s : String)
        → (lookup k m.mesa_to_source ≡ some s) ↔ IsMapped k s (rows_in (splitlines text))
    pub consistent : IsConsistent m
    pub not_empty : m.mesa_to_source ≢ []

  IsLoaded→IsRead :
      (raw : Bytes) (expected : Option String) (text : String) (m : IdentityMap)
      → decode raw ≡ some text
      → ((sha : String) → expected ≡ some sha → sha256 raw ≡ sha)
      → is_empty m.mesa_to_source ≡ false
      → IsLoaded empty_map (rows_in (splitlines text)) m
      → IsRead raw expected text (record m { map_sha256 = some (sha256 raw) })
  unfolding lookup
  IsLoaded→IsRead raw expected text m decoded hash full l = record {
    decoded = decoded;
    hash = hash;
    recorded = refl;
    exact = λ k s.
        (λ e. elim (l.origin k s e) [ inl nothing ↦ absurd (cc) | inr p ↦ p ], λ p. l.mapped k s p);
    consistent = record {
      forward = l.consistent.forward;
      backward = l.consistent.backward;
      same_keys = l.consistent.same_keys;
      own_rows = l.consistent.own_rows;
    };
    not_empty = λ e. ground arith;
  }

  load_map-IsRead :
      (raw : Bytes) (expected : Option String) (m : IdentityMap)
      → load_map source (some raw) expected ≡ ok m
      → (text : String) × IsRead raw expected text m
  unfolding load_map
  load_map-IsRead raw expected m h = elim (Option-cases (decode raw)) [
    | inl bad ↦ absurd (ground arith)
    | inr (text, decoded) ↦
        elim (Result-cases (load_lines source 1 [] empty_map (splitlines text))) [
          | inr (e, refused) ↦ absurd (ground arith)
          | inl (loaded, entered) ↦ (
            text,
            subst (IsRead raw expected text) (ground arith) (
                IsLoaded→IsRead raw expected text loaded decoded
                  (λ sha e. ground (arith, eq_iff (sha256 raw) sha)) (ground arith)
                  (load_lines-IsLoaded 1 [] empty_map (splitlines text) empty-IsConsistent
                    entered)),
          )
        ]
  ]

  load_map-none :
      (expected : Option String) → load_map source none expected ≡ err IdentityError.cannot_read
  unfolding load_map
  load_map-none expected = refl

  -- When a load returns, the file's hash is the expected one, and the map holds exactly the rows
  -- of the file, in two directions that agree. When it raises, the map is as it was.
  pub load_outcome :
      (m : IdentityMap) (raw : Option Bytes) (expected : Option String)
      → ((load_from_file source m raw expected).1 ≡ none
          → (bytes : Bytes) × (text : String) × (raw ≡ some bytes)
            × IsRead bytes expected text (load_from_file source m raw expected).0)
        × ((load_from_file source m raw expected).1 ≢ none
            → (load_from_file source m raw expected).0 ≡ m)
  unfolding load_from_file
  load_outcome m none expected = rw load_map-none (λ h. absurd (cc), λ h. refl)
  load_outcome m (some raw) expected = elim (Result-cases (load_map source (some raw) expected)) [
    | inl (next, loaded) ↦
        let (text, r) = load_map-IsRead raw expected next loaded in
        rw loaded (λ h. (raw, text, refl, r), λ h. absurd (h refl))
    | inr (e, refused) ↦ rw refused (λ h. absurd (cc), λ h. refl)
  ]
