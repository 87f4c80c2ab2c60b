-- ===== src/Freeze.antt =====
-- harness/freeze.py: the contract freeze. Files, hashes, paths and the JSON codec are the
-- parameter `Files`.
pub mod Steps
pub mod Payload
pub mod Accepts
pub mod Opens
pub mod Verify
use Prim.Native.Char.{code}
use Prim.Native.String
use Prim.Native.String.{count}
use mesa_e2e_certification.Prelude.{
  ℕ, zero, suc, String, ◌==◌, Bool, true, false, not, ◌&&◌, ◌||◌, Option, none, some, List, [], ◌∷◌,
  ◌++◌, map, if◌then◌else◌, eqb, leb, is_empty, any, all, elem, sorted, difference, Dict, lookup,
  keys, sort_items,
}
use mesa_e2e_certification.Json.{
  Json, Items, Fields, elements, members, as_string, as_object, as_array, get,
}

pub data FreezeStatus : Type 0 where
  pass missing_freeze invalid_freeze invalidated_code_change freeze_invalid : FreezeStatus
  freeze_missing_required_material freeze_repository_identity_missing : FreezeStatus
  freeze_hash_mismatch : FreezeStatus

-- FreezeVerification.drift: the text's fixed part is the constructor, the values in it stay.
pub data Note : Type 0 where
  freeze_files_missing checksum_mismatch malformed_freeze payload_not_object : Note
  runtime_identities_empty unsupported_schema_version missing_run_id : Note
  repository_shas_not_object materials_not_list material_not_object : Note
  invalid_material_types : Note
  missing_repositories missing_categories : List String → Note
  invalid_repository_sha : (name : String) → Note
  invalid_material_sha : (path sha : String) → Note
  duplicate_material path_escapes : (path : String) → Note
  missing_current_sha : (name : String) → Note
  repository_drift : (name frozen current : String) → Note
  missing_material empty_material : (path : String) → Note
  material_drift : (path expected observed : String) → Note

pub record FreezeVerification : Type 0 where
  pub status : FreezeStatus
  pub drift : List Note

-- What the freeze uses of the file system, `hashlib`, `pathlib`, `str` and `json`.
pub record Files : Type 1 where
  pub FilePath : Type 0
  pub is_file : FilePath → Bool
  -- `path.stat().st_size`
  pub size : FilePath → ℕ
  -- `none` is an OSError
  pub sha256 : FilePath → Option String
  -- `none` is an OSError or a UnicodeError
  pub read_text : FilePath → Option String
  pub name : FilePath → String
  -- `(root / relative).resolve()`, with `none` where it is not below the root
  pub resolve : FilePath → String → Option FilePath
  -- `none` is a JSONDecodeError
  pub loads : String → Option Json
  -- `text.strip().split()`
  pub words : String → List String
  -- `not text.strip()`
  pub is_blank : String → Bool

abbrev pub mandatory_material_categories : List String
mandatory_material_categories =
    "harness_source" ∷ "scorer_source" ∷ "config" ∷ "ground_truth" ∷ "qrels" ∷ "normalization"
    ∷ "identity_map" ∷ "prompts" ∷ "thresholds" ∷ "runtime_identity" ∷ []

abbrev pub mandatory_repositories : List String
mandatory_repositories = "MESA" ∷ "MESA_Data" ∷ "MESA_E2E_Certification" ∷ []

is_hex_code : ℕ → Bool
is_hex_code c = (leb b'0' c && leb c b'9') || (leb b'a' c && leb c b'f')

all_hex : String → Bool
unfolding is_hex_code
all_hex String.[] = true
all_hex (String.◌∷◌ c s) = is_hex_code (code c) && all_hex s

-- `HEX_DIGEST.fullmatch(s) is not None`
unfoldable pub is_hex_digest : String → Bool
unfolding all_hex
is_hex_digest s = not (s == "") && all_hex s

-- `len(sha) in {40, 64} and HEX_DIGEST.fullmatch(sha)`
unfoldable pub is_repository_sha : String → Bool
unfolding is_hex_digest
is_repository_sha s = (eqb (count s) 40 || eqb (count s) 64) && is_hex_digest s

-- `len(sha) == 64 and HEX_DIGEST.fullmatch(sha)`
unfoldable pub is_material_sha : String → Bool
unfolding is_hex_digest
is_material_sha s = eqb (count s) 64 && is_hex_digest s

-- The rest of a check, or what it returns early. `raised` is an exception that nothing catches.
pub data Step {ℓ} (A : Type ℓ) : Type ℓ where
  proceed : A → Step A
  return : FreezeVerification → Step A
  raised : Step A

infixl 5 ◌>>=◌ ◌>>◌
unfoldable pub ◌>>=◌ {ℓ κ} : {A : Type ℓ} {B : Type κ} → Step A → (A → Step B) → Step B
proceed a >>= f = f a
return v >>= f = return v
raised >>= f = raised

unfoldable pub ◌>>◌ {ℓ} : {B : Type ℓ} → Step (Unit {0}) → Step B → Step B
unfolding ◌>>=◌
m >> k = m >>= λ _. k

unfoldable pub refuse {ℓ} : {A : Type ℓ} → FreezeStatus → Note → Step A
refuse status note = return (record { status = status; drift = note ∷ [] })

unfoldable pub require : Bool → FreezeStatus → Note → Step (Unit {0})
unfolding refuse
require true status note = proceed tt
require false status note = refuse status note

unfoldable pub require_some {ℓ} : {A : Type ℓ} → Option A → FreezeStatus → Note → Step A
unfolding refuse
require_some none status note = refuse status note
require_some (some a) status note = proceed a

-- One frozen material, as the freeze file records it.
pub record Material : Type 0 where
  pub category : String
  pub path : String
  pub sha256 : String

unfoldable pub is_version_1 : Option Json → Bool
is_version_1 (some (Json.string s)) = s == "1.0"
is_version_1 _ = false

unfoldable pub has_identities : Option Json → Bool
has_identities (some (Json.object fs)) = not (is_empty (members fs))
has_identities _ = false

unfoldable pub check_sha : String → Json → Step String
unfolding is_repository_sha
check_sha name sha = do
  s ←
      require_some (as_string (some sha)) FreezeStatus.freeze_repository_identity_missing
        (Note.invalid_repository_sha name)
  require (is_repository_sha s) FreezeStatus.freeze_repository_identity_missing
      (Note.invalid_repository_sha name)
  proceed s

-- the loop over `frozen_repositories.items()`
unfoldable pub check_shas : Dict Json → Step (Dict String)
unfolding check_sha
check_shas [] = proceed []
check_shas ((name, sha) ∷ d) = do
  s ← check_sha name sha
  rest ← check_shas d
  proceed ((name, s) ∷ rest)

unfoldable pub check_material : List String → Json → Step Material
unfolding is_material_sha
check_material seen item = do
  fs ← require_some (as_object (some item)) FreezeStatus.freeze_invalid Note.material_not_object
  category ←
      require_some (as_string (get "category" fs)) FreezeStatus.freeze_invalid
        Note.invalid_material_types
  path ←
      require_some (as_string (get "path" fs)) FreezeStatus.freeze_invalid
        Note.invalid_material_types
  sha ←
      require_some (as_string (get "sha256" fs)) FreezeStatus.freeze_invalid
        Note.invalid_material_types
  require (is_material_sha sha) FreezeStatus.freeze_invalid (Note.invalid_material_sha path sha)
  require (not (elem path seen)) FreezeStatus.freeze_invalid (Note.duplicate_material path)
  proceed (record { category = category; path = path; sha256 = sha })

-- the loop over `materials`; `seen` are the keys of `seen_paths`
unfoldable pub check_materials : List String → List Json → Step (List Material)
check_materials seen [] = proceed []
check_materials seen (item ∷ items) = do
  m ← check_material seen item
  rest ← check_materials (m.path ∷ seen) items
  proceed (m ∷ rest)

abbrev pub categories : List Material → List String
categories ms = map (λ m. m.category) ms

-- What a well-formed freeze file says.
pub record Contract : Type 0 where
  pub repositories : Dict String
  pub materials : List Material

-- The checks of `verify_contract_freeze` on the parsed payload.
unfoldable pub check_payload : (String → Bool) → Json → Step Contract
unfolding is_version_1 has_identities check_shas check_materials check_material
check_payload is_blank payload = do
  fs ← require_some (as_object (some payload)) FreezeStatus.freeze_invalid Note.payload_not_object
  require (has_identities (get "runtime_identities" fs)) FreezeStatus.freeze_invalid
      Note.runtime_identities_empty
  require (is_version_1 (get "schema_version" fs)) FreezeStatus.freeze_invalid
      Note.unsupported_schema_version
  run_id ←
      require_some (as_string (get "run_id" fs)) FreezeStatus.freeze_invalid Note.missing_run_id
  require (not (is_blank run_id)) FreezeStatus.freeze_invalid Note.missing_run_id
  shas ←
      require_some (as_object (get "repository_shas" fs))
        FreezeStatus.freeze_repository_identity_missing Note.repository_shas_not_object
  let missing = difference mandatory_repositories (keys (members shas))
  require (is_empty missing) FreezeStatus.freeze_repository_identity_missing
      (Note.missing_repositories (sorted missing))
  repositories ← check_shas (members shas)
  items ←
      require_some (as_array (get "materials" fs)) FreezeStatus.freeze_invalid
        Note.materials_not_list
  materials ← check_materials [] (elements items)
  let absent = difference mandatory_material_categories (categories materials)
  require (is_empty absent) FreezeStatus.freeze_missing_required_material
      (Note.missing_categories (sorted absent))
  proceed (record { repositories = repositories; materials = materials })

-- one repository against the SHA that is current
unfoldable pub repository_notes : Dict String → String × String → List Note
repository_notes current (name, frozen) = elim (lookup name current) [
  | none ↦ Note.missing_current_sha name ∷ []
  | some sha ↦
      if sha == ""
      then Note.missing_current_sha name ∷ []
      else if not (sha == frozen)
      then Note.repository_drift name frozen sha ∷ []
      else []
]

unfoldable pub all_repository_notes : Dict String → Dict String → List Note
unfolding repository_notes
all_repository_notes current [] = []
all_repository_notes current (e ∷ d) = repository_notes current e ++ all_repository_notes current d

unfoldable pub require_no_drift : List Note → Step (Unit {0})
require_no_drift [] = proceed tt
require_no_drift (n ∷ ns) =
    return (record { status = FreezeStatus.invalidated_code_change; drift = n ∷ ns })

abbrev finish : Step (Unit {0}) → Option FreezeVerification
finish (proceed _) = some (record { status = FreezeStatus.pass; drift = [] })
finish (return v) = some v
finish raised = none

module _ (files : Files) where
  open files use {FilePath, is_file, size, sha256, read_text, name, resolve, loads, words, is_blank}

  -- the file of one material: missing, empty, changed, or as it was
  unfoldable pub file_notes : Material → FilePath → Step (List Note)
  file_notes m path =
      if not (is_file path)
      then proceed (Note.missing_material m.path ∷ [])
      else if eqb (size path) 0
      then proceed (Note.empty_material m.path ∷ [])
      else elim (sha256 path) [
        | none ↦ raised
        | some observed ↦ proceed (
            if not (observed == m.sha256)
            then Note.material_drift m.path m.sha256 observed ∷ []
            else [])
      ]

  unfoldable pub material_notes : FilePath → Material → Step (List Note)
  unfolding file_notes
  material_notes root m = do
    path ← require_some (resolve root m.path) FreezeStatus.freeze_invalid (Note.path_escapes m.path)
    file_notes m path

  unfoldable pub all_material_notes : FilePath → List Material → Step (List Note)
  all_material_notes root [] = proceed []
  all_material_notes root (m ∷ ms) = do
    notes ← material_notes root m
    rest ← all_material_notes root ms
    proceed (notes ++ rest)

  -- the drift of the repositories and of the materials, in that order
  unfoldable pub check_drift : FilePath → Dict String → Contract → Step (Unit {0})
  unfolding all_material_notes
  check_drift root current c = do
    changed ← all_material_notes root c.materials
    require_no_drift (all_repository_notes current (sort_items c.repositories) ++ changed)

  -- the digest in `checksum_parts`, where these are two and name the freeze file
  unfoldable pub expected_digest : List String → FilePath → Option String
  expected_digest (digest ∷ file ∷ []) freeze = if file == name freeze then some digest else none
  expected_digest _ freeze = none

  -- the two files, up to the parsed payload
  unfoldable pub open_freeze : FilePath → FilePath → Step Json
  open_freeze freeze checksum = do
    require (is_file freeze && is_file checksum) FreezeStatus.missing_freeze
        Note.freeze_files_missing
    parts ← require_some (read_text checksum) FreezeStatus.freeze_invalid Note.malformed_freeze
    digest ←
        require_some (expected_digest (words parts) freeze) FreezeStatus.freeze_hash_mismatch
          Note.checksum_mismatch
    observed ← require_some (sha256 freeze) FreezeStatus.freeze_invalid Note.malformed_freeze
    require (digest == observed) FreezeStatus.freeze_hash_mismatch Note.checksum_mismatch
    content ← require_some (read_text freeze) FreezeStatus.freeze_invalid Note.malformed_freeze
    require_some (loads content) FreezeStatus.freeze_invalid Note.malformed_freeze

  unfoldable pub verify_steps : FilePath → FilePath → FilePath → Dict String → Step (Unit {0})
  verify_steps freeze checksum root current = do
    payload ← open_freeze freeze checksum
    contract ← check_payload is_blank payload
    check_drift root current contract

  -- `none` is an exception that `verify_contract_freeze` lets through.
  unfoldable pub verify_contract_freeze :
      FilePath → FilePath → FilePath → Dict String → Option FreezeVerification
  unfolding verify_steps
  verify_contract_freeze freeze checksum root current =
      finish (verify_steps freeze checksum root current)
