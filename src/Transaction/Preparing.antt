-- ===== src/Transaction/Preparing.antt =====
-- The phases of a transaction up to the audit of the sealed raw artifacts.
use mesa_e2e_certification.Prelude.{
  String, ◌==◌, Bool, true, false, not, ◌&&◌, Option, none, some, List, [], if◌then◌else◌, is_empty,
  Dict,
}
use mesa_e2e_certification.Json.{Json, Fields, elements, members, to_fields, field, end}
use mesa_e2e_certification.Models.{RunStatus}
use mesa_e2e_certification.Values.{Floats}
use mesa_e2e_certification.Freeze.{Files, FreezeVerification, verify_contract_freeze}
use mesa_e2e_certification.Verdict.{is_freeze_pass}
use mesa_e2e_certification.Oracle.{
  AuditStatus, OracleReport, audit_oracle_surfaces, extract_raw_audit_surfaces,
}
use mesa_e2e_certification.Transaction.{
  TransactionPhase, Problem, Document, layout, raw_manifest, oracle_report, Services,
}
use mesa_e2e_certification.Transaction.Core.{
  Result, Handler, Run, Transaction, Body, pure, ◌>>=◌, ◌>>◌, gets, modify, or_raise, refuse_if,
  only_if, service, move, advance, execute,
}

abbrev is_audit_pass : AuditStatus → Bool
is_audit_pass AuditStatus.pass = true
is_audit_pass AuditStatus.fail = false

-- `recorded and current != recorded`
abbrev pub differs : Option String → String → Bool
differs none current = false
differs (some recorded) current = not (recorded == "") && not (current == recorded)

-- The surfaces that a caller adds: `none` is None, and an empty list or dict counts as none.
unfoldable pub merge_surfaces : Dict Json → Option Json → Fields
merge_surfaces surfaces supplemental = elim supplemental [
  | none ↦ to_fields surfaces
  | some extra ↦
      if is_nothing extra
      then to_fields surfaces
      else field "sealed_raw" (Json.object (to_fields surfaces)) (field "supplemental" extra end)
]
  where
    is_nothing : Json → Bool
    is_nothing (Json.array xs) = is_empty (elements xs)
    is_nothing (Json.object fs) = is_empty (members fs)
    is_nothing _ = false

module _ (floats : Floats) (services : Services floats) where
  abbrev pub State : Type 0
  State = Run floats services

  -- the files as they are now
  abbrev pub files_at : services.World → Files
  files_at world = record {
    FilePath = services.FilePath;
    is_file = services.is_file world;
    size = services.size world;
    sha256 = services.sha256 world;
    read_text = services.read_text world;
    name = services.name;
    resolve = services.resolve world;
    loads = services.loads;
    words = services.words;
    is_blank = services.is_blank;
  }

  -- the content of a JSON file of the run directory
  abbrev pub read_json : services.World → String → Option Json
  read_json world file =
      if services.is_file world (services.run_file file)
      then elim (services.read_text world (services.run_file file)) [
        | none ↦ none
        | some text ↦ services.loads text
      ]
      else none

  abbrev pub write : String → Document floats → Body State (Unit {0})
  write file document = service (services.write file document)

  abbrev pub write_immutable_json : String → Document floats → Body State (Unit {0})
  write_immutable_json file document = service (services.write_immutable_json file document)

  -- `if self.store is None: self.store = RunArtifactStore(...)`
  unfoldable pub ensure_store : Body State (Unit {0})
  ensure_store = do
    present ← gets (λ (r : State). r.has_store)
    only_if (not present) (service services.new_store)
    modify (λ (r : State). record r { has_store = true })

  unfoldable pub bootstrap_body : Bool → Option Json → Body State (Unit {0})
  bootstrap_body is_official layout_info = do
    service services.make_run_dir
    service services.new_store
    modify (λ (r : State). record r { has_store = true })
    service services.initialize_store
    only_if is_official (service services.write_execution_record)
    write "bootstrap-layout.json" (layout layout_info)
    move RunStatus.bootstrapped
    move RunStatus.harness_ready

  unfoldable pub execute_bootstrap :
      Option Json → Transaction floats services → Result (Unit {0}) × Transaction floats services
  execute_bootstrap layout_info t =
      execute floats services TransactionPhase.bootstrap Handler.fail_and_wrap
        (advance floats services TransactionPhase.bootstrap)
        (bootstrap_body t.is_official layout_info) t

  unfoldable pub freeze_body :
      services.FilePath
      → services.FilePath
      → services.FilePath
      → Dict String
      → Body State FreezeVerification
  freeze_body freeze_path checksum_path repository_root current_repository_shas = do
    world ← gets (λ (r : State). r.world)
    verification ←
        or_raise
          (verify_contract_freeze (files_at world) freeze_path checksum_path repository_root
            current_repository_shas)
          Problem.service_raised
    refuse_if (not (is_freeze_pass verification.status))
        (Problem.freeze_rejected verification.drift)
    target_freeze ← service (services.copy_into_run freeze_path)
    target_checksum ← service (services.copy_into_run checksum_path)
    modify (λ (r : State). record r {
      freeze_path = some target_freeze;
      checksum_path = some target_checksum;
    })
    digest ← service services.gate_config_sha256
    modify (λ (r : State). record r {
      gate_config_hash = some digest;
      repository_root = some repository_root;
      current_repository_shas = some current_repository_shas;
    })
    move RunStatus.gt_frozen
    move RunStatus.contract_frozen
    pure verification

  unfoldable pub execute_freeze :
      services.FilePath
      → services.FilePath
      → services.FilePath
      → Dict String
      → Transaction floats services
      → Result FreezeVerification × Transaction floats services
  execute_freeze freeze_path checksum_path repository_root current_repository_shas =
      execute floats services TransactionPhase.freeze Handler.fail_once
        (advance floats services TransactionPhase.freeze)
        (freeze_body freeze_path checksum_path repository_root current_repository_shas)

  -- `builder` is the callback of the caller, which writes the raw artifacts.
  unfoldable pub raw_execution_body :
      Bool → (services.World → Option (Unit {0}) × services.World) → Body State (Unit {0})
  raw_execution_body is_official builder = do
    move RunStatus.test_running
    ensure_store
    only_if is_official (service services.start_capture)
    service builder

  unfoldable pub execute_raw_execution :
      (services.World → Option (Unit {0}) × services.World)
      → Transaction floats services
      → Result (Unit {0}) × Transaction floats services
  execute_raw_execution builder t =
      execute floats services TransactionPhase.raw_execution Handler.fail_and_wrap
        (advance floats services TransactionPhase.raw_execution)
        (raw_execution_body t.is_official builder) t

  unfoldable pub raw_sealing_body : Body State String
  raw_sealing_body = do
    ensure_store
    manifest ← service services.compute_raw_manifest
    modify (λ (r : State). record r { raw_manifest_hash = some manifest.manifest_hash })
    write_immutable_json "raw-manifest.json" (raw_manifest manifest)
    move RunStatus.test_completed
    pure manifest.manifest_hash

  unfoldable pub execute_raw_sealing :
      Transaction floats services → Result String × Transaction floats services
  execute_raw_sealing =
      execute floats services TransactionPhase.raw_sealing Handler.fail_and_wrap
        (advance floats services TransactionPhase.raw_sealing) raw_sealing_body

  unfoldable pub oracle_audit_body : String → Option Json → List String → Body State OracleReport
  oracle_audit_body run_id oracle_surfaces known_oracle_values = do
    ensure_store
    manifest ← service services.compute_raw_manifest
    sealed ← gets (λ (r : State). r.raw_manifest_hash)
    refuse_if (differs sealed manifest.manifest_hash) Problem.changed_after_sealing
    world ← gets (λ (r : State). r.world)
    surfaces ←
        or_raise (extract_raw_audit_surfaces (read_json world) manifest.entries [])
          Problem.service_raised
    let report =
        audit_oracle_surfaces services.matching (merge_surfaces surfaces oracle_surfaces)
          known_oracle_values (some manifest) (some run_id)
    refuse_if (not (is_audit_pass report.status)) (Problem.oracle_audit_failed report.findings)
    modify (λ (r : State). record r { audited_manifest_hash = some manifest.manifest_hash })
    service (services.persist_oracle_audit report)
    write "oracle-audit-report.json" (oracle_report report)
    pure report

  unfoldable pub execute_oracle_audit :
      Option Json
      → List String
      → Transaction floats services
      → Result OracleReport × Transaction floats services
  execute_oracle_audit oracle_surfaces known_oracle_values t =
      execute floats services TransactionPhase.oracle_audit Handler.fail_once
        (advance floats services TransactionPhase.oracle_audit)
        (oracle_audit_body t.run_id oracle_surfaces known_oracle_values) t
