-- ===== src/Evidence.antt =====
-- harness/evidence.py: the check that every structured artifact of a run carries the run's id.
pub mod Last
pub mod Covered
use mesa_e2e_certification.Prelude.{
  ℕ, suc, String, ◌==◌, ◌<>◌, Bool, true, false, not, ◌&&◌, ◌||◌, Option, none, some, List, [], ◌∷◌,
  ◌++◌, map, if◌then◌else◌, is_empty, any, all, filter, collect, when, is_some, Dict, lookup,
  insert, sort_items,
}
use mesa_e2e_certification.Json.{Json, Items, Fields, elements, members, as_object, get}

-- What the check uses of `json`, `fnmatch` and `str`.
pub record Texts : Type 1 where
  pub loads : String → Option Json
  pub splitlines : String → List String
  pub strip : String → String
  pub fnmatch : (name pattern : String) → Bool
  pub ends_with : (text suffix : String) → Bool
  -- `str(x)`, for what is no string
  pub repr : Json → String
  -- the number of this text is zero
  pub is_zero : String → Bool
  pub decimal : ℕ → String

-- What came of reading a file: its text is decompressed and decoded.
pub data Reading : Type 0 where
  cannot_stat no_bytes unreadable : Reading
  content : String → Reading

pub record File : Type 0 where
  pub relative : String
  pub name : String
  pub sha256 : String
  pub reading : Reading

abbrev pub Authorization : Type 0
Authorization = Dict String

abbrev pub reuse_fields : List String
reuse_fields = "path" ∷ "source_run_id" ∷ "reuse_reason" ∷ "expected_sha256" ∷ "authorization" ∷ []

abbrev pub default_patterns : List String
default_patterns =
    "bootstrap-layout.json" ∷ "ground-truth*.jsonl" ∷ "qrels*.jsonl" ∷ "identity_map*.jsonl"
    ∷ "retrieval-results-raw*" ∷ "decision_log.jsonl" ∷ []

pub data ParseReason : Type 0 where
  cannot_stat_file empty_artifact cannot_read bad_record empty_lines bad_payload : ParseReason

-- What the check appends to its lists, in the order in which it does.
pub data Note : Type 0 where
  mismatch : (path observed_run_id : String) → Note
  reuse : (path source_run_id : String) → Authorization → Note
  parse_error : ParseReason → (path : String) → Note

abbrev pub is_mismatch : Note → Bool
is_mismatch (mismatch path observed_run_id) = true
is_mismatch _ = false

abbrev pub is_parse_error : Note → Bool
is_parse_error (parse_error reason path) = true
is_parse_error _ = false

-- `not any(item["path"] == relative for item in authorized_reuse)`: the first of each path is kept
unfoldable pub reuses : List Note → Dict Authorization
reuses [] = []
reuses (reuse path source_run_id a ∷ notes) =
    let rest = reuses notes in (path, a) ∷ filter (λ item. not (item.0 == path)) rest
reuses (mismatch path observed_run_id ∷ notes) = reuses notes
reuses (parse_error reason path ∷ notes) = reuses notes

abbrev pub filled : Option String → Bool
filled none = false
filled (some t) = not (t == "")

abbrev pub is_complete : Authorization → Bool
is_complete a = all (λ field. filled (lookup field a)) reuse_fields

-- `authorizations`: a later one replaces an earlier one of its path
unfoldable pub by_path : List Authorization → Dict Authorization → Dict Authorization
by_path [] d = d
by_path (a ∷ rest) d =
    by_path rest (
      if is_complete a
      then elim (lookup "path" a) [ none ↦ d | some path ↦ insert path a d ]
      else d)

abbrev pub not_null : Option Json → Option Json
not_null (some Json.null) = none
not_null x = x

-- `record["metadata"]["run_id"]`, where there is such an object
abbrev pub metadata_id : Fields → Option Json
metadata_id fs = elim (as_object (get "metadata" fs)) [
  | none ↦ none
  | some meta ↦ not_null (get "run_id" meta)
]

pub record Report : Type 0 where
  pub passes : Bool
  pub mismatches : List Note
  pub authorized_reuse : Dict Authorization
  pub authorization_errors : List Authorization
  pub parse_errors : List Note

abbrev pub is_field : Option String → String → Bool
is_field none t = false
is_field (some s) t = s == t

module _ (texts : Texts) where
  open texts use {strip, ends_with, repr, is_zero}

  abbrev pub str : Json → String
  str (Json.string s) = s
  str x = repr x

  abbrev pub is_truthy : Option Json → Bool
  is_truthy (some (Json.bool b)) = b
  is_truthy (some (Json.number s)) = not (is_zero s)
  is_truthy (some (Json.string s)) = not (s == "")
  is_truthy (some (Json.array xs)) = not (is_empty (elements xs))
  is_truthy (some (Json.object fs)) = not (is_empty (members fs))
  is_truthy _ = false

  -- `record.get("run_id") or ...`
  abbrev pub record_id : Fields → Option Json
  record_id fs = if is_truthy (get "run_id" fs) then get "run_id" fs else metadata_id fs

  abbrev pub is_said : Option String → Bool
  is_said none = false
  is_said (some s) = not (strip s == "")

  unfoldable pub is_covered : File → String → Option Authorization → Bool
  is_covered file observed none = false
  is_covered file observed (some a) =
      is_field (lookup "source_run_id" a) observed
      && is_field (lookup "expected_sha256" a) file.sha256
      && is_said (lookup "reuse_reason" a)
      && is_said (lookup "authorization" a)

  abbrev pub is_jsonl : String → Bool
  is_jsonl name = ends_with name ".jsonl" || ends_with name ".jsonl.gz"

module _ (texts : Texts) (run_id : String) where
  open texts use {loads, splitlines, strip, fnmatch, decimal}

  module _ (authorizations : Dict Authorization) (patterns : List String) (file : File) where
    abbrev pub is_allowlisted : Bool
    is_allowlisted = any (λ p. fnmatch file.name p || fnmatch file.relative p) patterns

    unfoldable pub record_mismatch : (observed subpath : String) → List Note
    record_mismatch observed subpath = elim (lookup file.relative authorizations) [
      | none ↦ mismatch subpath observed ∷ []
      | some a ↦
          if is_covered texts file observed (some a)
          then reuse file.relative observed a ∷ []
          else mismatch subpath observed ∷ []
    ]

    -- the mismatch of a value that is not the run's id
    abbrev pub note_value : (subpath observed : String) → List Note
    note_value subpath observed =
        if observed == run_id then [] else record_mismatch observed subpath

    abbrev pub note_missing : String → List Note
    note_missing subpath = if is_allowlisted then [] else record_mismatch "MISSING" subpath

    -- the `run_id` of a record of a line, or its absence
    abbrev pub note_record : String → Option Json → List Note
    note_record place none = note_missing place
    note_record place (some v) = note_value place (str texts v)

    abbrev pub note_metadata : String → Option Json → List Note
    note_metadata place none = []
    note_metadata place (some v) = note_value (place <> ".metadata") (str texts v)

    abbrev pub note_parsed : String → Option Json → List Note
    note_parsed place none = parse_error ParseReason.bad_record place ∷ []
    note_parsed place (some (Json.object fs)) =
        note_record place (record_id texts fs) ++ note_metadata place (metadata_id fs)
    note_parsed place (some _) = note_missing place

    unfoldable pub note_line : ℕ → String → List Note
    unfolding record_mismatch
    note_line n line =
        let notes = note_parsed (file.relative <> ":" <> decimal n) (loads (strip line)) in
        if strip line == "" then [] else notes

    unfoldable pub note_lines : List String → ℕ → List Note
    unfolding note_line
    note_lines [] n = []
    note_lines (line ∷ lines) n = note_line n line ++ note_lines lines (suc n)

    abbrev pub parsed_id : Option Json → Bool
    parsed_id (some (Json.object fs)) = is_some (record_id texts fs)
    parsed_id _ = false

    abbrev pub has_run_id : String → Bool
    has_run_id line = not (strip line == "") && parsed_id (loads (strip line))

    -- what is noted after the lines
    abbrev pub note_lack : List String → List Note
    note_lack lines =
        if not (any (λ line. not (strip line == "")) lines) && not is_allowlisted
        then parse_error ParseReason.empty_lines file.relative ∷ []
        else if not (any has_run_id lines) && not is_allowlisted
        then mismatch file.relative "MISSING" ∷ []
        else []

    abbrev pub ids : Option Json → List String
    ids none = []
    ids (some v) = str texts v ∷ []

    -- an item of a list
    abbrev pub item_ids : Json → List String
    item_ids (Json.object fs) = elim (not_null (get "run_id" fs)) [
      | none ↦ when (not is_allowlisted) "MISSING"
      | some v ↦ str texts v ∷ []
    ]
    item_ids _ = when (not is_allowlisted) "MISSING"

    unfoldable pub observed_run_ids : Json → List String
    observed_run_ids (Json.object fs) = ids (not_null (get "run_id" fs)) ++ ids (metadata_id fs)
    observed_run_ids (Json.array xs) = collect item_ids (elements xs)
    observed_run_ids _ = []

    abbrev pub note_observed : List String → List Note
    note_observed [] = if is_allowlisted then [] else mismatch file.relative "MISSING" ∷ []
    note_observed (o ∷ os) = collect (note_value file.relative) (o ∷ os)

    abbrev pub note_payload : Option Json → List Note
    note_payload none = parse_error ParseReason.bad_payload file.relative ∷ []
    note_payload (some payload) = note_observed (observed_run_ids payload)

    unfoldable pub note_content : String → List Note
    unfolding note_lines observed_run_ids record_mismatch
    note_content text =
        if is_jsonl texts file.name
        then note_lines (splitlines text) 1 ++ note_lack (splitlines text)
        else note_payload (loads text)

    unfoldable pub note_reading : Reading → List Note
    unfolding note_content
    note_reading Reading.cannot_stat = parse_error ParseReason.cannot_stat_file file.relative ∷ []
    note_reading Reading.no_bytes = parse_error ParseReason.empty_artifact file.relative ∷ []
    note_reading Reading.unreadable = parse_error ParseReason.cannot_read file.relative ∷ []
    note_reading (Reading.content text) = note_content text

  -- `files` are the structured files in the order of their paths.
  unfoldable pub validate_run_id_consistency :
      List File → List Authorization → (allowed : List String) → Report
  unfolding by_path note_reading reuses
  validate_run_id_consistency files reuse_authorizations allowed =
      let authorizations = by_path reuse_authorizations [] in
      let notes =
        collect (λ f. note_reading authorizations (default_patterns ++ allowed) f f.reading)
          files in
      let incomplete = filter (λ a. not (is_complete a)) reuse_authorizations in
      record {
        passes =
            is_empty (filter is_mismatch notes)
            && is_empty incomplete
            && is_empty (filter is_parse_error notes);
        mismatches = filter is_mismatch notes;
        authorized_reuse = sort_items (reuses notes);
        authorization_errors = incomplete;
        parse_errors = filter is_parse_error notes;
      }
