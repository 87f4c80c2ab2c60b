-- ===== src/Artifacts/Manifest.antt =====
-- harness/artifacts.py: the manifest of the raw artifacts, and the guard of the oracle audit.
use mesa_e2e_certification.Prelude.{
  String, ◌==◌, ◌&&◌, Option, none, some, List, [], ◌∷◌, map, filter, sorted, collect, Dict, lookup,
  keys, sort_items,
}
use mesa_e2e_certification.Json.{Json, to_items, to_fields, as_object, get}
use mesa_e2e_certification.Oracle.{RawEntry, RawManifest}
use mesa_e2e_certification.Artifacts.{
  StoreError, Stored, ok, ◌>>=◌, ◌>>◌, require, or_fail, Disk, Codec, lane_dirs, audit_path,
  is_text, equals_number, verify_seal, digest_of,
}

abbrev pub entry_json : String × String → Json
entry_json (path, digest) =
    Json.object (to_fields (("path", Json.string path) ∷ ("sha256", Json.string digest) ∷ []))

abbrev pub entry_of : String × String → RawEntry
entry_of (path, digest) = record { path = path; sha256 = digest }

module _ (codec : Codec) (run_id : String) where
  open codec use {loads, parent, ends_with}

  -- the JSON files of a lane, in the order of their paths
  abbrev pub lane_files : Disk → String → List String
  lane_files disk dir = sorted (filter (λ p. parent p == dir && ends_with p ".json") (keys disk))

  unfoldable pub raw_entry : Disk → String → Stored (String × String)
  unfolding verify_seal
  raw_entry disk path = do
    digest ← verify_seal codec path disk
    content ← or_fail (lookup path disk) StoreError.content_unreadable
    payload ← or_fail (loads content) StoreError.content_unreadable
    fs ← or_fail (as_object (some payload)) StoreError.run_id_mismatch
    require (is_text (get "run_id" fs) run_id) StoreError.run_id_mismatch
    ok (path, digest)

  unfoldable pub raw_entries : Disk → List String → Stored (Dict String)
  unfolding raw_entry
  raw_entries disk [] = ok []
  raw_entries disk (path ∷ paths) = do
    entry ← raw_entry disk path
    rest ← raw_entries disk paths
    ok (entry ∷ rest)

  -- `compute_raw_manifest`; `session` is `build_raw_manifest` of an official session, where there
  -- is one, and gives `none` where it raises.
  unfoldable pub compute_raw_manifest :
      Option (List RawEntry → Option RawManifest) → Disk → Stored RawManifest
  unfolding raw_entries
  compute_raw_manifest session disk = do
    found ← raw_entries disk (collect (lane_files disk) lane_dirs)
    let entries = sort_items found
    elim session [
      | some build ↦ or_fail (build (map entry_of entries)) StoreError.session_failed
      | none ↦ do
        hash ← digest_of codec (Json.array (to_items (map entry_json entries)))
        ok (record { manifest_hash = hash; entries = map entry_of entries })
    ]

  -- `_require_passing_oracle_audit`
  unfoldable pub require_passing_oracle_audit :
      Option (List RawEntry → Option RawManifest) → Disk → Stored (Unit {0})
  unfolding verify_seal compute_raw_manifest
  require_passing_oracle_audit session disk = do
    digest ← verify_seal codec audit_path disk
    content ← or_fail (lookup audit_path disk) StoreError.content_unreadable
    payload ← or_fail (loads content) StoreError.content_unreadable
    report ← or_fail (as_object (some payload)) StoreError.content_unreadable
    require (is_text (get "run_id" report) run_id) StoreError.audit_run_id
    require
        (is_text (get "status" report) "PASS" && equals_number codec (get "finding_count" report) 0)
        StoreError.audit_not_pass
    manifest ← compute_raw_manifest session disk
    require (is_text (get "raw_manifest_hash" report) manifest.manifest_hash) StoreError.audit_stale
