-- ===== src/Oracle.antt =====
-- harness/oracle.py: the audit of the execution inputs for oracle material. The regular expressions
-- and the case folding of `str` are the parameter `Matching`.
pub mod Leaks
use Prim.Native.Char.{code}
use Prim.Native.String
use mesa_e2e_certification.Prelude.{
  ℕ, suc, String, ◌==◌, ◌<>◌, Bool, true, false, not, ◌&&◌, ◌||◌, Option, none, some, List, [], ◌∷◌,
  ◌++◌, map, if◌then◌else◌, leb, length, is_empty, filter, elem, collect, when, Dict, insert,
  sort_items,
}
use mesa_e2e_certification.Json.{
  Json, Items, nil, cons, Fields, end, field, members, to_fields, as_object,
}

-- FORBIDDEN_FIELD_NAMES
abbrev pub forbidden_field_names : List String
forbidden_field_names =
    "acceptableanswerpatterns" ∷ "expectedanswer" ∷ "expectedanswers" ∷ "expectedlabel"
    ∷ "expectedstatus" ∷ "forbiddenclaims" ∷ "factid" ∷ "factids" ∷ "goldevidenceid"
    ∷ "goldevidenceids" ∷ "qrel" ∷ "qrels" ∷ "requiredfact" ∷ "requiredfacts" ∷ []

-- FORBIDDEN_TEXT_PATTERNS: the labels and the sources of the expressions
abbrev pub forbidden_text_patterns : List (String × String)
forbidden_text_patterns =
    ("fact_ids", "\\bfact[ _-]+ids?\\b")
    ∷ ("expected_answer", "\\bexpected[ _-]+answers?\\b")
    ∷ ("required_facts", "\\brequired[ _-]+facts?\\b")
    ∷ ("gold_evidence_ids", "\\bgold[ _-]+evidence(?:[ _-]+ids?)?\\b")
    ∷ ("qrels", "\\bqrels?\\b")
    ∷ ("expected_pass_fail_label", "\\bexpected[ _-]+(?:pass|fail)[ _-]+label\\b")
    ∷ []

-- the outputs that the surfaces leave out
abbrev pub output_keys : List String
output_keys = "response" ∷ "raw_response" ∷ "raw_provider_response" ∷ "parsed_response" ∷ []

pub data FindingKind : Type 0 where
  empty_raw_execution known_oracle_value forbidden_field forbidden_key_token : FindingKind
  forbidden_prompt_token : FindingKind

-- One part of a path: `.key` or `[index]`.
pub data PathPart : Type 0 where
  key : String → PathPart
  index : ℕ → PathPart

pub record Finding : Type 0 where
  pub path : List PathPart
  pub kind : FindingKind
  pub matched_token : String

pub data AuditStatus : Type 0 where
  pass fail : AuditStatus

pub record RawEntry : Type 0 where
  pub path : String
  pub sha256 : String

-- The fields of a raw manifest that its readers use.
pub record RawManifest : Type 0 where
  pub manifest_hash : String
  pub entries : List RawEntry

pub record OracleReport : Type 0 where
  pub run_id : Option String
  pub status : AuditStatus
  pub finding_count : ℕ
  pub findings : List Finding
  pub raw_manifest_hash : Option String
  pub raw_artifacts : List RawEntry

-- What the audit uses of `re` and of `str`.
pub record Matching : Type 0 where
  -- `re.search(pattern, text, re.IGNORECASE) is not None`
  pub search : String → String → Bool
  pub escape : String → String
  pub casefold : String → String

is_field_code : ℕ → Bool
is_field_code c = (leb b'0' c && leb c b'9') || (leb b'a' c && leb c b'z')

-- `re.sub(r"[^a-z0-9]", "", s)`
keep_field_chars : String → String
unfolding is_field_code
keep_field_chars String.[] = String.[]
keep_field_chars (String.◌∷◌ c s) =
    let rest = keep_field_chars s in if is_field_code (code c) then String.◌∷◌ c rest else rest

module _ (matching : Matching) where
  open matching use {search, escape, casefold}

  unfoldable pub normalized_field : String → String
  unfolding keep_field_chars
  normalized_field name = keep_field_chars (casefold name)

  -- the findings of the loop over FORBIDDEN_TEXT_PATTERNS
  unfoldable pub check_patterns : FindingKind → String → List PathPart → List Finding
  check_patterns kind text path =
      map (λ p. record { path = path; kind = kind; matched_token = p.0 })
        (filter (λ p. search p.1 text) forbidden_text_patterns)

  abbrev pub names_token : String → String → Bool
  names_token text token = token == text || search ("(?:\\b|_)" <> escape token <> "(?:\\b|_)") text

  -- `_check_oracle_val`, for the values in the order in which the set is read
  unfoldable pub check_oracle_val : List String → String → List PathPart → List Finding
  check_oracle_val values text path =
      map
        (λ token. record {
          path = path;
          kind = FindingKind.known_oracle_value;
          matched_token = token;
        })
        (filter (names_token text) values)

  -- `str(value)` of a bool
  abbrev pub bool_text : Bool → String
  bool_text true = "True"
  bool_text false = "False"

  -- the findings of a key that is not forbidden as a field
  unfoldable pub check_key : List String → String → List PathPart → List Finding
  unfolding check_patterns check_oracle_val
  check_key values k path =
      check_patterns FindingKind.forbidden_key_token k path ++ check_oracle_val values k path

  unfoldable pub is_forbidden_field : String → Bool
  unfolding normalized_field
  is_forbidden_field k = elem (normalized_field k) forbidden_field_names

  abbrev pub field_finding : String → List PathPart → Finding
  field_finding k path = record {
    path = path;
    kind = FindingKind.forbidden_field;
    matched_token = k;
  }

  module _ (values : List String) where
    -- the findings of one key, where `below` are those of its value
    unfoldable pub visit_field : String → List PathPart → List Finding → List Finding
    unfolding check_key is_forbidden_field
    visit_field k path below =
        if is_forbidden_field k then field_finding k path ∷ [] else check_key values k path ++ below

    -- `visit`: `visit_fields` gives the findings of each key, which `visit` reads in key order.
    unfoldable mutual
      unfolding check_patterns check_oracle_val visit_field

      pub visit : Json → List PathPart → List Finding
      visit (Json.object fs) path = collect (λ e. e.1) (sort_items (visit_fields fs path))
      visit (Json.array xs) path = visit_items xs path 0
      visit (Json.string s) path =
          check_patterns FindingKind.forbidden_prompt_token s path ++ check_oracle_val values s path
      visit (Json.number n) path = check_oracle_val values n path
      visit (Json.bool b) path = check_oracle_val values (bool_text b) path
      visit Json.null path = []

      pub visit_items : Items → List PathPart → ℕ → List Finding
      visit_items nil path i = []
      visit_items (cons x xs) path i =
          visit x (path ++ PathPart.index i ∷ []) ++ visit_items xs path (suc i)

      pub visit_fields : Fields → List PathPart → Dict (List Finding)
      visit_fields end path = []
      visit_fields (field k v fs) path =
          let child_path = path ++ PathPart.key k ∷ [] in
          (k, visit_field k child_path (visit v child_path)) ∷ visit_fields fs path

  -- `known_oracle_values` less the empty ones
  abbrev pub oracle_values : List String → List String
  oracle_values known = filter (λ v. not (v == "")) known

  -- an execution that left no raw artifact at all
  unfoldable pub check_empty : Fields → Option RawManifest → List Finding
  check_empty surfaces none = []
  check_empty surfaces (some m) = when (is_empty (members surfaces) && is_empty m.entries) (record {
    path = PathPart.key "raw_manifest" ∷ [];
    kind = FindingKind.empty_raw_execution;
    matched_token = "0_records";
  })

  unfoldable pub audit_findings : Fields → List String → Option RawManifest → List Finding
  unfolding check_empty visit
  audit_findings surfaces known raw_manifest =
      check_empty surfaces raw_manifest ++ visit (oracle_values known) (Json.object surfaces) []

  abbrev pub status_of : List Finding → AuditStatus
  status_of findings = if is_empty findings then AuditStatus.pass else AuditStatus.fail

  unfoldable pub audit_oracle_surfaces :
      Fields → List String → Option RawManifest → Option String → OracleReport
  unfolding audit_findings
  audit_oracle_surfaces surfaces known raw_manifest run_id =
      let findings = audit_findings surfaces known raw_manifest in
      record {
        run_id = run_id;
        status = status_of findings;
        finding_count = length findings;
        findings = findings;
        raw_manifest_hash = elim raw_manifest [ none ↦ none | some m ↦ some m.manifest_hash ];
        raw_artifacts = elim raw_manifest [ none ↦ [] | some m ↦ m.entries ];
      }

abbrev pub inputs_of : Fields → Fields
inputs_of content = to_fields (filter (λ e. not (elem e.0 output_keys)) (members content))

-- The surfaces of the raw artifacts: `read` gives what a file holds, and `none` where there is no
-- file, or none that is JSON. The result is `none` where a content is no object, which raises.
unfoldable pub extract_raw_audit_surfaces :
    (String → Option Json) → List RawEntry → Dict Json → Option (Dict Json)
extract_raw_audit_surfaces read [] surfaces = some surfaces
extract_raw_audit_surfaces read (e ∷ entries) surfaces = elim (read e.path) [
  | none ↦ extract_raw_audit_surfaces read entries surfaces
  | some content ↦ elim (as_object (some content)) [
    | none ↦ none
    | some fs ↦
        extract_raw_audit_surfaces read entries
          (insert e.path (Json.object (inputs_of fs)) surfaces)
  ]
]
