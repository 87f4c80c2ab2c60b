-- ===== src/Artifacts.antt =====
-- harness/artifacts.py: the store of the artifacts of one run. The disk is a dictionary from paths
-- below the run directory to contents.
pub mod Manifest
pub mod Persisting
pub mod Sealed
pub mod Kept
pub mod Audited
use mesa_e2e_certification.Prelude.{
  ℕ, String, ◌==◌, ◌<>◌, Bool, true, false, not, ◌&&◌, ◌||◌, Option, none, some, List, [], ◌∷◌,
  ◌++◌, map, if◌then◌else◌, ltb, eqb, length, is_empty, filter, sorted, collect, Dict, lookup,
  insert, keys, has_key, sort_items,
}
use mesa_e2e_certification.Json.{Json, Items, Fields, elements, members}
use mesa_e2e_certification.Oracle.{RawEntry, RawManifest}

pub data StoreError : Type 0 where
  not_canonical_json artifact_missing artifact_mutated new_bytes : StoreError
  unsafe_query_id response_too_large purpose_empty session_id_missing : StoreError
  attempt_not_positive timestamp_naive content_unreadable run_id_mismatch : StoreError
  invalid_report finding_count_mismatch audit_run_id audit_not_pass audit_stale : StoreError
  session_failed invalid_record capture_run_id unowned_directory : StoreError

pub data Stored (A : Type 0) : Type 0 where
  ok : A → Stored A
  err : StoreError → Stored A

infixl 5 ◌>>=◌ ◌>>◌
abbrev pub ◌>>=◌ : {A B : Type 0} → Stored A → (A → Stored B) → Stored B
ok a >>= f = f a
err e >>= f = err e

abbrev pub ◌>>◌ : {B : Type 0} → Stored (Unit {0}) → Stored B → Stored B
m >> k = m >>= λ _. k

abbrev pub require : Bool → StoreError → Stored (Unit {0})
require true e = ok tt
require false e = err e

abbrev pub or_fail : {A : Type 0} → Option A → StoreError → Stored A
or_fail none e = err e
or_fail (some a) e = ok a

abbrev pub Disk : Type 0
Disk = Dict String

-- What the store uses of `json`, `hashlib`, `pathlib`, `re` and `str`.
pub record Codec : Type 1 where
  -- the indented text with a line end, and the canonical text; `none` where the value is no JSON
  pub dumps : Json → Option String
  pub canonical : Json → Option String
  pub loads : String → Option Json
  pub sha256 : String → String
  -- the number of bytes of a text
  pub size : String → ℕ
  pub name : String → String
  pub parent : String → String
  pub ends_with : String → String → Bool
  -- `text.strip().split()`
  pub words : String → List String
  -- `QUERY_ID.fullmatch(query_id) is not None`
  pub is_query_id : String → Bool
  pub decimal : ℕ → String
  -- the number of this text is this one
  pub number_is : String → ℕ → Bool

-- path.with_suffix(path.suffix + ".SHA256")
abbrev pub sidecar : String → String
sidecar path = path <> ".SHA256"

-- `len(parts) != 2 or parts[1] != path.name or parts[0] != observed`, negated
unfoldable pub is_seal : List String → String → String → Bool
is_seal (digest ∷ file ∷ []) name observed = file == name && digest == observed
is_seal _ name observed = false

-- the directories of the raw lanes, in the order of the manifest
abbrev pub lane_dirs : List String
lane_dirs =
    "raw/retrieval" ∷ "raw/answers" ∷ "raw/provider" ∷ "raw/context" ∷ "raw/scope" ∷ "raw/graph"
    ∷ "raw/state" ∷ "raw/sessions" ∷ []

abbrev pub audit_path : String
audit_path = "oracle-leakage-audit.json"

abbrev pub is_text : Option Json → String → Bool
is_text (some (Json.string s)) t = s == t
is_text _ t = false

-- `if execution_id is not None: payload["execution_id"] = execution_id`
abbrev pub execution : Option String → Dict Json
execution none = []
execution (some execution_id) = ("execution_id", Json.string execution_id) ∷ []

module _ (codec : Codec) where
  open codec use {
    dumps, canonical, loads, sha256, size, name, parent, ends_with, words, is_query_id, decimal,
    number_is,
  }

  -- `_verify_seal`
  unfoldable pub verify_seal : String → Disk → Stored String
  unfolding is_seal
  verify_seal path disk = do
    content ← or_fail (lookup path disk) StoreError.artifact_missing
    seal ← or_fail (lookup (sidecar path) disk) StoreError.artifact_missing
    require (is_seal (words seal) (name path) (sha256 content)) StoreError.artifact_mutated
    ok (sha256 content)

  -- what the sidecar of a content holds
  abbrev pub seal_text : String → String → String
  seal_text path content = sha256 content <> "  " <> name path <> "\n"

  abbrev pub put : String → String → Disk → Disk
  put path content disk = insert (sidecar path) (seal_text path content) (insert path content disk)

  -- `_write_immutable_json`
  unfoldable pub write_immutable_json : String → Json → Disk → Stored Disk
  unfolding verify_seal
  write_immutable_json path payload disk = do
    serialized ← or_fail (dumps payload) StoreError.not_canonical_json
    elim (lookup path disk) [
      | none ↦ ok (put path serialized disk)
      | some present ↦
          require (present == serialized) StoreError.new_bytes
          >> (do digest ← verify_seal path disk; ok disk)
    ]

  -- `_query_path`
  unfoldable pub query_path : String → String → Stored String
  query_path directory query_id =
      if is_query_id query_id
      then ok (directory <> "/" <> query_id <> ".json")
      else err StoreError.unsafe_query_id

  -- `x == n`: False is 0, and True is 1
  abbrev pub equals_number : Option Json → ℕ → Bool
  equals_number (some (Json.number s)) n = number_is s n
  equals_number (some (Json.bool b)) n = eqb (if b then 1 else 0) n
  equals_number _ n = false

  -- `bool(x)`
  abbrev pub is_truthy : Option Json → Bool
  is_truthy (some (Json.bool b)) = b
  is_truthy (some (Json.number s)) = not (number_is s 0)
  is_truthy (some (Json.string s)) = not (s == "")
  is_truthy (some (Json.array xs)) = not (is_empty (elements xs))
  is_truthy (some (Json.object fs)) = not (is_empty (members fs))
  is_truthy _ = false

  abbrev pub digest_of : Json → Stored String
  digest_of value = do
    bytes ← or_fail (canonical value) StoreError.not_canonical_json
    ok (sha256 bytes)

  -- `return self._write_immutable_json(path, payload)`, after what comes before it: what the method
  -- answers, and the disk that it leaves
  unfoldable pub persist : Stored (String × Json) → Disk → Stored String × Disk
  unfolding write_immutable_json
  persist (err e) disk = (err e, disk)
  persist (ok (path, payload)) disk = elim (write_immutable_json path payload disk) [
    | err e ↦ (err e, disk)
    | ok after ↦ (ok path, after)
  ]

  -- the same with `return path, self._verify_seal(path)`, which may raise after the write
  unfoldable pub persist_sealed : Stored (String × Json) → Disk → Stored String × Disk
  unfolding write_immutable_json verify_seal
  persist_sealed (err e) disk = (err e, disk)
  persist_sealed (ok (path, payload)) disk = elim (write_immutable_json path payload disk) [
    | err e ↦ (err e, disk)
    | ok after ↦ (verify_seal path after, after)
  ]
