-- ===== src/Examples/Freezes.antt =====
-- A freeze of one file per category.
use mesa_e2e_certification.Prelude.{
  lookup, String, ◌==◌, refl, true, some, [], ◌∷◌, map, sort_items, insert_item, insert_sorted,
  sorted,
}
use mesa_e2e_certification.Json.{elements, members, Json, field, end, to_items, to_fields}
use mesa_e2e_certification.Freeze.{
  require, ◌>>◌, require_some, ◌>>=◌, FreezeStatus, Files, Contract, mandatory_material_categories,
  mandatory_repositories, check_payload, verify_contract_freeze, open_freeze, expected_digest,
  check_drift, material_notes, require_no_drift, all_repository_notes, all_material_notes,
  check_material, check_materials, check_sha, check_shas, file_notes, has_identities, is_hex_digest,
  is_material_sha, is_repository_sha, is_version_1, refuse, repository_notes, verify_steps,
}
use mesa_e2e_certification.Freeze.Payload.{IsComplete, accepted-IsComplete}
use mesa_e2e_certification.Freeze.Verify.{IsIntact, verify_pass_iff}

abbrev pub sha : String
sha = "00112233445566778899aabbccddeeff00112233445566778899aabbccddeeff"

abbrev material_json : String → Json
material_json c = Json.object (
    field "category" (Json.string c)
      (field "path" (Json.string c) (field "sha256" (Json.string sha) end)))

abbrev pub payload : Json
payload = Json.object (
    to_fields (
      ("schema_version", Json.string "1.0")
      ∷ ("run_id", Json.string "run-1")
      ∷ ("runtime_identities", Json.object (field "python" (Json.string "3.12") end))
      ∷ (
        "repository_shas",
        Json.object (to_fields (map (λ n. (n, Json.string sha)) mandatory_repositories)),
      )
      ∷ ("materials", Json.array (to_items (map material_json mandatory_material_categories)))
      ∷ []))

abbrev contract : Contract
contract = record {
  repositories = map (λ n. (n, sha)) mandatory_repositories;
  materials =
      map (λ c. record { category = c; path = c; sha256 = sha }) mandatory_material_categories;
}

-- Every path is a file of one byte, with the same hash.
abbrev files : Files
files = record {
  FilePath = String;
  is_file = λ p. true;
  size = λ p. 1;
  sha256 = λ p. some sha;
  read_text = λ p. some p;
  name = λ p. p;
  resolve = λ root p. some p;
  loads = λ t. some payload;
  words = λ t. sha ∷ "contract_freeze.json" ∷ [];
  is_blank = λ t. t == "";
}

accepted-IsComplete_example : IsComplete contract
unfolding check_payload ◌>>=◌ require_some ◌>>◌ require lookup members to_fields elements to_items
accepted-IsComplete_example = accepted-IsComplete (λ t. t == "") payload contract refl

verify_pass_iff_example :
    (payload : Json) × (c : Contract) × IsIntact files "contract_freeze.json"
      "contract_freeze.sha256" "."
      (map (λ n. (n, sha)) mandatory_repositories)
      payload
      c
unfolding verify_contract_freeze ◌>>=◌ open_freeze ◌>>◌ require require_some expected_digest
    check_payload lookup members to_fields elements to_items check_drift material_notes
    require_no_drift all_repository_notes sort_items all_material_notes check_material
    check_materials check_sha check_shas file_notes has_identities is_hex_digest is_material_sha
    is_repository_sha is_version_1 refuse repository_notes verify_steps insert_item insert_sorted
    sorted
verify_pass_iff_example =
    (verify_pass_iff files "contract_freeze.json" "contract_freeze.sha256" "."
        (map (λ n. (n, sha)) mandatory_repositories)).0
      (record { status = FreezeStatus.pass; drift = [] }, refl, refl)
