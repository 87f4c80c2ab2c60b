-- ===== src/Identity.antt =====
-- harness/identity.py: the map from MESA chunk IDs to authoritative source chunk IDs. A method
-- that may raise returns the object after the call with the exception, if there was one.
pub mod Consistent
pub mod Loading
pub mod Resolving
use mesa_e2e_certification.Prelude.{
  ℕ, suc, String, ◌==◌, Bool, true, false, not, ◌&&◌, ◌||◌, Option, none, some, List, [], ◌∷◌, ◌++◌,
  map, if◌then◌else◌, is_empty, length, any, elem, Dict, lookup, insert, has_key,
}

pub record IdentityMapRow : Type 0 where
  pub mesa_chunk_id : String
  pub source_chunk_id : String
  pub content_hash : Option String
  pub delivery_state : Option String
  pub evidence_id : Option String
  pub catalog_id : Option String
  pub document_id : Option String
  pub remote_mutation_id : Option String
  pub version_id : Option String
  pub tenant_id : Option String
  pub dataset_id : Option String
  pub agent_id : Option String
  pub status : Option String
  pub jurisdiction : Option String
  pub is_current : Option Bool
  pub valid_from : Option String
  pub valid_to : Option String

pub data IdentityError : Type 0 where
  cannot_read hash_mismatch not_utf8 no_mappings empty_id not_loaded : IdentityError
  invalid_row : (line : ℕ) → IdentityError
  duplicate_mapping conflicting_mapping : (mesa source : String) → IdentityError
  unknown_identity : String → IdentityError

pub record IdentityMap : Type 0 where
  pub mesa_to_source : Dict String
  pub source_to_mesa : Dict (List String)
  pub rows_by_source : Dict (List IdentityMapRow)
  pub map_sha256 : Option String

-- `IdentityMap()`
abbrev pub empty_map : IdentityMap
empty_map = record {
  mesa_to_source = [];
  source_to_mesa = [];
  rows_by_source = [];
  map_sha256 = none;
}

pub data Result {ℓ} (A : Type ℓ) : Type ℓ where
  ok : A → Result A
  err : IdentityError → Result A

abbrev pub or_empty {ℓ} : {A : Type ℓ} → Option (List A) → List A
or_empty none = []
or_empty (some xs) = xs

-- `s.add(x)`
abbrev pub add_member : String → List String → List String
add_member x xs = if elem x xs then xs else xs ++ x ∷ []

-- The three assignments that enter a row, in `load_from_file` and in `add_mapping`.
unfoldable pub enter_row : IdentityMap → IdentityMapRow → IdentityMap
enter_row m row = record m {
  mesa_to_source = insert row.mesa_chunk_id row.source_chunk_id m.mesa_to_source;
  source_to_mesa =
      insert row.source_chunk_id
        (add_member row.mesa_chunk_id (or_empty (lookup row.source_chunk_id m.source_to_mesa)))
        m.source_to_mesa;
  rows_by_source =
      insert row.source_chunk_id
        (or_empty (lookup row.source_chunk_id m.rows_by_source) ++ row ∷ []) m.rows_by_source;
}

-- The row of a mapping that was added by hand.
abbrev pub plain_row : String → String → IdentityMapRow
plain_row mesa source = record {
  mesa_chunk_id = mesa;
  source_chunk_id = source;
  content_hash = none;
  delivery_state = none;
  evidence_id = none;
  catalog_id = none;
  document_id = none;
  remote_mutation_id = none;
  version_id = none;
  tenant_id = none;
  dataset_id = none;
  agent_id = none;
  status = none;
  jurisdiction = none;
  is_current = none;
  valid_from = none;
  valid_to = none;
}

unfoldable pub add_mapping : IdentityMap → String → String → IdentityMap × Option IdentityError
add_mapping m mesa source =
    if mesa == "" || source == ""
    then (m, some IdentityError.empty_id)
    else elim (lookup mesa m.mesa_to_source) [
      | none ↦ (enter_row m (plain_row mesa source), none)
      | some previous ↦
          if previous == source
          then (m, some (IdentityError.duplicate_mapping mesa source))
          else (m, some (IdentityError.conflicting_mapping mesa source))
    ]

-- `resolve_source_chunk_id`
unfoldable pub resolve_source_chunk_id : IdentityMap → String → Result String
resolve_source_chunk_id m chunk_id = elim (lookup chunk_id m.mesa_to_source) [
  | some source ↦ ok source
  | none ↦
      if has_key chunk_id m.source_to_mesa
      then ok chunk_id
      else err (IdentityError.unknown_identity chunk_id)
]

unfoldable pub resolve_mesa_chunk_ids : IdentityMap → String → Result (List String)
resolve_mesa_chunk_ids m source = elim (lookup source m.source_to_mesa) [
  | none ↦ err (IdentityError.unknown_identity source)
  | some ids ↦ ok ids
]

-- A missing key of `rows_by_source` would be a KeyError; it has the keys of `source_to_mesa`.
unfoldable pub rows_for_identity : IdentityMap → String → Result (List IdentityMapRow)
unfolding resolve_source_chunk_id
rows_for_identity m chunk_id = elim (resolve_source_chunk_id m chunk_id) [
  | err e ↦ err e
  | ok source ↦ elim (lookup source m.rows_by_source) [
    | none ↦ err (IdentityError.unknown_identity source)
    | some rows ↦ ok rows
  ]
]

abbrev is_value : Option String → String → Bool
is_value none s = false
is_value (some t) s = t == s

-- `contains_document_id` and `contains_version_id`
unfoldable pub contains_document_id : IdentityMap → String → Bool
contains_document_id m document_id =
    any (λ e. any (λ row. is_value row.document_id document_id) e.1) m.rows_by_source

unfoldable pub contains_version_id : IdentityMap → String → Bool
contains_version_id m version_id =
    any (λ e. any (λ row. is_value row.version_id version_id) e.1) m.rows_by_source

pub record ValidationReport : Type 0 where
  pub source_path : String
  pub sha256 : String
  pub mapping_count : ℕ
  pub source_id_count : ℕ
  pub duplicate_count : ℕ
  pub conflict_count : ℕ

unfoldable pub validation_report : IdentityMap → String → Result ValidationReport
validation_report m source_path = elim m.map_sha256 [
  | none ↦ err IdentityError.not_loaded
  | some sha ↦ ok (record {
    source_path = source_path;
    sha256 = sha;
    mapping_count = length m.mesa_to_source;
    source_id_count = length m.source_to_mesa;
    duplicate_count = 0;
    conflict_count = 0;
  })
]

-- What the loader uses of the file system, `hashlib`, `str` and the row model's JSON validation.
pub record RowSource : Type 1 where
  pub Bytes : Type 0
  pub sha256 : Bytes → String
  -- `none` is a UnicodeDecodeError
  pub decode : Bytes → Option String
  pub splitlines : String → List String
  -- `not line.strip()`
  pub is_blank : String → Bool
  -- `IdentityMapRow.model_validate_json`, with `none` for a ValidationError
  pub parse_row : String → Option IdentityMapRow

abbrev has_pair : String → String → List (String × String) → Bool
has_pair mesa source pairs = any (λ p. p.0 == mesa && p.1 == source) pairs

-- The checks on one parsed row, and its entry.
unfoldable pub load_row : List (String × String) → IdentityMap → IdentityMapRow → Result IdentityMap
load_row seen m row =
    if has_pair row.mesa_chunk_id row.source_chunk_id seen
    then err (IdentityError.duplicate_mapping row.mesa_chunk_id row.source_chunk_id)
    else elim (lookup row.mesa_chunk_id m.mesa_to_source) [
      | none ↦ ok (enter_row m row)
      | some previous ↦
          if not (previous == row.source_chunk_id)
          then err (IdentityError.conflicting_mapping row.mesa_chunk_id row.source_chunk_id)
          else ok (enter_row m row)
    ]

module _ (source : RowSource) where
  open source use {Bytes, sha256, decode, splitlines, is_blank, parse_row}

  -- the loop over the lines; `line` is the number of the next
  unfoldable pub load_lines :
      ℕ → List (String × String) → IdentityMap → List String → Result IdentityMap
  load_lines line seen m [] = ok m
  load_lines line seen m (text ∷ lines) = elim (is_blank text) [
    | true ↦ load_lines (suc line) seen m lines
    | false ↦ elim (parse_row text) [
      | none ↦ err (IdentityError.invalid_row line)
      | some row ↦ elim (load_row seen m row) [
        | err e ↦ err e
        | ok next ↦
            load_lines (suc line) ((row.mesa_chunk_id, row.source_chunk_id) ∷ seen) next lines
      ]
    ]
  ]

  abbrev is_expected : Option String → String → Bool
  is_expected none observed = true
  is_expected (some sha) observed = observed == sha

  -- the map that the file holds
  unfoldable pub load_map : Option Bytes → Option String → Result IdentityMap
  load_map none expected = err IdentityError.cannot_read
  load_map (some raw) expected =
      if not (is_expected expected (sha256 raw))
      then err IdentityError.hash_mismatch
      else elim (decode raw) [
        | none ↦ err IdentityError.not_utf8
        | some text ↦ elim (load_lines 1 [] empty_map (splitlines text)) [
          | err e ↦ err e
          | ok m ↦
              if is_empty m.mesa_to_source
              then err IdentityError.no_mappings
              else ok (record m { map_sha256 = some (sha256 raw) })
        ]
      ]

  abbrev replace : IdentityMap → Result IdentityMap → IdentityMap × Option IdentityError
  replace m (ok next) = (next, none)
  replace m (err e) = (m, some e)

  -- `load_from_file`; the first argument is what `path.read_bytes()` answers
  unfoldable pub load_from_file :
      IdentityMap → Option Bytes → Option String → IdentityMap × Option IdentityError
  load_from_file m raw expected = replace m (load_map raw expected)
