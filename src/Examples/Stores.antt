-- ===== src/Examples/Stores.antt =====
-- A store with a sealed audit and a sealed answer. Every content has the same hash, and every file
-- the same name.
use mesa_e2e_certification.Prelude.{
  sorted, insert, String, ◌==◌, ◌≡◌, refl, true, none, some, List, [], ◌∷◌, if◌then◌else◌, lookup,
}
use mesa_e2e_certification.Json.{members, Json, field, end}
use mesa_e2e_certification.Artifacts.{
  Disk, Codec, StoreError, ok, err, sidecar, put, audit_path, verify_seal, write_immutable_json,
}
use mesa_e2e_certification.Artifacts.Persisting.{
  StoreCall, raw_file, scored, run_calls, persist_scored, persist_raw_file,
}
use mesa_e2e_certification.Artifacts.Sealed.{IsSealed, write-IsSealed}
use mesa_e2e_certification.Artifacts.Kept.{content_kept}
use mesa_e2e_certification.Artifacts.Audited.{IsAudited, persist_scored-IsAudited}

abbrev answer_path : String
answer_path = "raw/answers/q1.json"

abbrev audit : Json
audit = Json.object (
    field "run_id" (Json.string "run-1") (
      field "status" (Json.string "PASS") (
        field "finding_count" (Json.number "0") (field "raw_manifest_hash" (Json.string "h") end))))

abbrev codec : Codec
codec = record {
  dumps = λ j. some "{}";
  canonical = λ j. some "[]";
  loads = λ t.
      if t == "audit"
      then some audit
      else some (Json.object (field "run_id" (Json.string "run-1") end));
  sha256 = λ t. "h";
  size = λ t. 2;
  name = λ p. "file";
  parent = λ p. if p == answer_path then "raw/answers" else "";
  ends_with = λ p s. p == answer_path;
  words = λ t. "h" ∷ "file" ∷ [];
  is_query_id = λ i. true;
  decimal = λ n. "1";
  number_is = λ t n. t == "0";
}

abbrev disk : Disk
disk =
    (audit_path, "audit")
    ∷ (sidecar audit_path, "h file")
    ∷ (answer_path, "answer")
    ∷ (sidecar answer_path, "h file")
    ∷ []

abbrev store_calls : List (StoreCall codec "run-1" 100)
store_calls =
    raw_file "raw/scope" "a.json" Json.null
    ∷ raw_file "raw/answers" "q1.json" Json.null
    ∷ scored none "answers" "q1" Json.null
    ∷ []

-- A name that is the path, and seals of two words.
abbrev sealing : Codec
sealing = record codec {
  name = λ p. p;
  words = λ t. if t == "h  raw/scope/a.json\n" then "h" ∷ "raw/scope/a.json" ∷ [] else [];
}

write-IsSealed_example :
    (lookup "raw/scope/a.json" (put sealing "raw/scope/a.json" "{}" disk) ≡ some "{}")
    × (verify_seal sealing "raw/scope/a.json" (put sealing "raw/scope/a.json" "{}" disk) ≡ ok "h")
    × IsSealed sealing "raw/scope/a.json" (put sealing "raw/scope/a.json" "{}" disk) "h"
unfolding write_immutable_json lookup
write-IsSealed_example =
    write-IsSealed sealing "raw/scope/a.json" Json.null disk
      (put sealing "raw/scope/a.json" "{}" disk) "{}" refl refl refl

content_kept_example :
    lookup answer_path (run_calls codec "run-1" 100 store_calls disk) ≡ some "answer"
unfolding lookup
content_kept_example =
    content_kept codec "run-1" 100 store_calls disk answer_path "answer" refl
      (refl, (refl, (refl, tt)))

persist_scored-IsAudited_example :
    IsAudited codec "run-1" 100 none disk
    × (digest : String) × IsSealed codec "raw/answers/q1.json" disk digest
unfolding persist_scored lookup members sorted
persist_scored-IsAudited_example =
    persist_scored-IsAudited codec "run-1" 100 none "answers" "q1" "scored/answers/q1.json"
      Json.null disk refl

-- A seal that does not verify after the write: the call raises, and the file is on the disk.
abbrev unverifiable : Codec
unverifiable = record codec { words = λ t. [] }

write_stays :
    ((persist_raw_file unverifiable "run-1" 100 "raw/graph" "a b.json" Json.null []).0
      ≡ err StoreError.artifact_mutated)
    × (lookup "raw/graph/a b.json"
          (persist_raw_file unverifiable "run-1" 100 "raw/graph" "a b.json" Json.null []).1
        ≡ some "{}")
unfolding persist_raw_file lookup insert
write_stays = (refl, refl)
